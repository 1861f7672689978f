-- ===== src/Ddl/Listing.antt =====
-- The order in which the file system lists the scripts does not matter: they are executed by name.
use batch_api_snowflake.Base.{
  ◌≡◌, ◌≢◌, refl, ap, sym, ◌∙◌, true, false, ◌||◌, arith, List, [], ◌∷◌, keep, Bool-cases, inl, inr,
}
use batch_api_snowflake.Exec.{Exec}
use batch_api_snowflake.Ddl.{Text}
use batch_api_snowflake.Ddl.Apply.{
  Script, is_numbered, comes_before, insert_script, in_order, apply_ddl,
}

-- The same files listed in another order: any two neighbours, of different names, exchanged.
pub data Relisted : List Script → List Script → Type 0 where
  same : (d : List Script) → Relisted d d
  first : (s : Script) {d d' : List Script} → Relisted d d' → Relisted (s ∷ d) (s ∷ d')
  exchange : (s t : Script) (d : List Script) → s.0 ≢ t.0 → Relisted (s ∷ t ∷ d) (t ∷ s ∷ d)
  again : {d d' d'' : List Script} → Relisted d d' → Relisted d' d'' → Relisted d d''

pub comes_before_total : (a b : Text) → (comes_before a b || comes_before b a) ≡ true
unfolding comes_before
comes_before_total [] b = refl
comes_before_total (x ∷ a) [] = refl
comes_before_total (x ∷ a) (y ∷ b) = ground (arith, comes_before_total a b)

comes_before_antisym : (a b : Text) → comes_before a b ≡ true → comes_before b a ≡ true → a ≡ b
unfolding comes_before
comes_before_antisym [] [] h k = refl
comes_before_antisym [] (y ∷ b) h k = ground arith
comes_before_antisym (x ∷ a) [] h k = ground arith
comes_before_antisym (x ∷ a) (y ∷ b) h k =
    let same_head : x ≡ y = ground arith in
    let tails : a ≡ b = comes_before_antisym a b (ground arith) (ground arith) in cc

pub comes_before_trans :
    (a b c : Text) → comes_before a b ≡ true → comes_before b c ≡ true → comes_before a c ≡ true
unfolding comes_before
comes_before_trans [] b c h k = refl
comes_before_trans (x ∷ a) [] c h k = ground arith
comes_before_trans (x ∷ a) (y ∷ b) [] h k = ground arith
comes_before_trans (x ∷ a) (y ∷ b) (z ∷ c) h k = ground (arith, comes_before_trans a b c)

insert_script-swap :
    (s t : Script) (d : List Script)
    → comes_before s.0 t.0 ≡ true
    → comes_before t.0 s.0 ≡ false
    → insert_script s (insert_script t d) ≡ insert_script t (insert_script s d)
unfolding insert_script
insert_script-swap s t [] h k = ground arith
insert_script-swap s t (r ∷ d) h k =
    ground (arith, insert_script-swap s t d h k, comes_before_trans s.0 t.0 r.0 h)

in_order-exchange :
    (s t : Script) (d : List Script)
    → s.0 ≢ t.0
    → insert_script s (insert_script t d) ≡ insert_script t (insert_script s d)
in_order-exchange s t d distinct = elim (Bool-cases (comes_before s.0 t.0)) [
  | inl before ↦ elim (Bool-cases (comes_before t.0 s.0)) [
    | inl after ↦ absurd (distinct (comes_before_antisym s.0 t.0 before after))
    | inr after ↦ insert_script-swap s t d before after
  ]
  | inr after ↦ sym (insert_script-swap t s d (ground (arith, comes_before_total s.0 t.0)) after)
]

abbrev numbered : List Script → List Script
numbered d = in_order (keep (λ s. is_numbered s.0) d)

-- One more file of the directory in front of the others.
numbered-first :
    (s : Script) (d d' : List Script)
    → numbered d ≡ numbered d'
    → numbered (s ∷ d) ≡ numbered (s ∷ d')
unfolding in_order
numbered-first s d d' e = elim (Bool-cases (is_numbered s.0)) [
  | inl taken ↦ rw taken (ap (insert_script s) e)
  | inr other ↦ rw other e
]

numbered-exchange :
    (s t : Script) (d : List Script) → s.0 ≢ t.0 → numbered (s ∷ t ∷ d) ≡ numbered (t ∷ s ∷ d)
unfolding in_order
numbered-exchange s t d distinct = elim (Bool-cases (is_numbered s.0)) [
  | inl taken ↦ elim (Bool-cases (is_numbered t.0)) [
    | inl taken' ↦ rw (taken, taken') (in_order-exchange s t (numbered d) distinct)
    | inr other' ↦ rw (taken, other') refl
  ]
  | inr other ↦ rw other refl
]

numbered-Relisted : {d d' : List Script} → Relisted d d' → numbered d ≡ numbered d'
numbered-Relisted (same d) = refl
numbered-Relisted (first s {d = d} {d' = d'} r) = numbered-first s d d' (numbered-Relisted r)
numbered-Relisted (exchange s t d distinct) = numbered-exchange s t d distinct
numbered-Relisted (again r r') = numbered-Relisted r ∙ numbered-Relisted r'

-- `apply_ddl` does the same, failures included, in whatever order the file system lists the files
-- of the directory, whose names all differ.
pub apply_ddl-Relisted :
    {S : Type 0} (execute : Text → Exec S (Unit {0})) (commit : Exec S (Unit {0}))
    (d d' : List Script)
    → Relisted d d'
    → apply_ddl execute commit d ≡ apply_ddl execute commit d'
unfolding apply_ddl
apply_ddl-Relisted execute commit d d' r = rw (numbered-Relisted r) refl
