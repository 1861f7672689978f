-- ===== src/Ddl/Migrations.antt =====
-- Which scripts `apply_ddl` executes, and in which order.
use mathlib.Core.List.{Perm}
use mathlib.Core.List.Perm
use batch_api_snowflake.Base.{◌≡◌, ℕ, ◌<◌, Bool, true, not, arith, ltb}
use batch_api_snowflake.Base.{
  List, [], ◌∷◌, keep, length, flat_map, All, All-map, All-keep, Bool-cases, inl, inr,
}
use batch_api_snowflake.Exec.{Exec, pure, ◌>>◌}
use batch_api_snowflake.Ddl.{Text, split_statements}
use batch_api_snowflake.Ddl.Apply.{
  Script, is_template, is_numbered, comes_before, insert_script, in_order, apply_ddl,
}
use batch_api_snowflake.Ddl.Order.{execute_all, apply_ddl-execute_all}
use batch_api_snowflake.Ddl.Listing.{comes_before_total, comes_before_trans}
use batch_api_snowflake.Ddl.Names.{IsMigration, IsMigration-iff}

-- The order of texts by the codes of their characters: a beginning comes first, and else the first
-- difference decides.
pub data Precedes : Text → Text → Type 0 where
  beginning : (b : Text) → Precedes [] b
  smaller : (x y : ℕ) (a b : Text) → x < y → Precedes (x ∷ a) (y ∷ b)
  equal : (x : ℕ) (a b : Text) → Precedes a b → Precedes (x ∷ a) (x ∷ b)

-- Scripts whose names ascend.
abbrev pub IsAscending : List Script → Type 0
IsAscending [] = Unit
IsAscending (s ∷ ss) = All (λ t. Precedes s.0 t.0) ss × IsAscending ss

-- The scripts of a directory that are numbered and no templates, as they are listed.
pub data Selects : List Script → List Script → Type 0 where
  nothing : Selects [] []
  take :
      (s : Script) {d chosen : List Script}
      → IsMigration s.0
      → Selects d chosen
      → Selects (s ∷ d) (s ∷ chosen)
  leave :
      (s : Script) {d chosen : List Script}
      → ¬ IsMigration s.0
      → Selects d chosen
      → Selects (s ∷ d) chosen

Precedes-of_comes_before : (a b : Text) → comes_before a b ≡ true → Precedes a b
unfolding comes_before
Precedes-of_comes_before [] b h = beginning b
Precedes-of_comes_before (x ∷ a) [] h = absurd (cc h)
Precedes-of_comes_before (x ∷ a) (y ∷ b) h = elim (Bool-cases (ltb x y)) [
  | inl lt ↦ smaller x y a b (ground (arith, lt))
  | inr ge ↦
      let same : x ≡ y = ground (arith, h, ge) in
      let tails : comes_before a b ≡ true = ground (arith, h, ge) in
      rw same (equal y a b (Precedes-of_comes_before a b tails))
]

-- Ascending by the test of the code.
abbrev Ordered : List Script → Type 0
Ordered [] = Unit
Ordered (s ∷ ss) = All (λ t. comes_before s.0 t.0 ≡ true) ss × Ordered ss

All-insert_script :
    (P : Script → Type 0) (s : Script) (ss : List Script)
    → P s
    → All P ss
    → All P (insert_script s ss)
unfolding insert_script
All-insert_script P s [] p h = (p, tt)
All-insert_script P s (t ∷ ts) p (h, hs) = elim (Bool-cases (comes_before s.0 t.0)) [
  | inl e ↦ rw e (p, (h, hs))
  | inr e ↦ rw e (h, All-insert_script P s ts p hs)
]

insert_script-Ordered : (s : Script) (ss : List Script) → Ordered ss → Ordered (insert_script s ss)
unfolding insert_script
insert_script-Ordered s [] h = (tt, tt)
insert_script-Ordered s (t ∷ ts) (h, hs) = elim (Bool-cases (comes_before s.0 t.0)) [
  | inl e ↦
      rw e ((e, All-map _ _ (λ r before. comes_before_trans s.0 t.0 r.0 e before) ts h), (h, hs))
  | inr e ↦
      let later : comes_before t.0 s.0 ≡ true = ground (arith, comes_before_total s.0 t.0, e) in
      rw e (All-insert_script _ s ts later h, insert_script-Ordered s ts hs)
]

in_order-Ordered : (ss : List Script) → Ordered (in_order ss)
unfolding in_order
in_order-Ordered [] = tt
in_order-Ordered (s ∷ ss) = insert_script-Ordered s (in_order ss) (in_order-Ordered ss)

keep-IsAscending : (p : Script → Bool) (ss : List Script) → Ordered ss → IsAscending (keep p ss)
keep-IsAscending p [] h = tt
keep-IsAscending p (s ∷ ss) (h, hs) = elim (Bool-cases (p s)) [
  | inl e ↦
      let first = All-map _ (λ t. Precedes s.0 t.0) (λ t. Precedes-of_comes_before s.0 t.0) ss h in
      rw e (All-keep _ p ss first, keep-IsAscending p ss hs)
  | inr e ↦ rw e (keep-IsAscending p ss hs)
]

-- An element in front of the kept elements of two lists, and behind the next one of the second.
keep-first :
    (p : Script → Bool) (s : Script) (l l' : List Script)
    → Perm (keep p l) (keep p l')
    → Perm (keep p (s ∷ l)) (keep p (s ∷ l'))
keep-first p s l l' rest = elim (Bool-cases (p s)) [
  | inl kept ↦ rw kept (Perm.cons s rest)
  | inr other ↦ rw other rest
]

keep-swap :
    (p : Script → Bool) (s t : Script) (l : List Script)
    → Perm (keep p (t ∷ s ∷ l)) (keep p (s ∷ t ∷ l))
keep-swap p s t l = elim (Bool-cases (p s)) [
  | inl kept ↦ elim (Bool-cases (p t)) [
    | inl too ↦ rw (kept, too) (Perm.swap s t (keep p l))
    | inr other ↦ rw (kept, other) Perm.rfl
  ]
  | inr other ↦ rw other Perm.rfl
]

-- Sorting the scripts does not change which ones are kept.
keep-insert_script :
    (p : Script → Bool) (s : Script) (ss : List Script)
    → Perm (keep p (insert_script s ss)) (keep p (s ∷ ss))
unfolding insert_script
keep-insert_script p s [] = Perm.rfl
keep-insert_script p s (t ∷ ts) = elim (Bool-cases (comes_before s.0 t.0)) [
  | inl before ↦ rw before Perm.rfl
  | inr after ↦ rw after (
      Perm.trans (keep-first p t (insert_script s ts) (s ∷ ts) (keep-insert_script p s ts))
        (keep-swap p s t ts))
]

keep-in_order : (p : Script → Bool) (ss : List Script) → Perm (keep p (in_order ss)) (keep p ss)
unfolding in_order
keep-in_order p [] = Perm.rfl
keep-in_order p (s ∷ ss) =
    Perm.trans (keep-insert_script p s (in_order ss))
      (keep-first p s (in_order ss) ss (keep-in_order p ss))

Selects-keep :
    (d : List Script)
    → Selects d (keep (λ s. not (is_template s.0)) (keep (λ s. is_numbered s.0) d))
Selects-keep [] = nothing
Selects-keep (s ∷ d) = elim (Bool-cases (is_numbered s.0)) [
  | inl numbered ↦ elim (Bool-cases (is_template s.0)) [
    | inl template ↦
        rw (numbered, template)
          (leave s (λ m. ground (arith, numbered, template, (IsMigration-iff s.0).1 m))
            (Selects-keep d))
    | inr other ↦
        rw (numbered, other)
          (take s ((IsMigration-iff s.0).0 (ground (arith, numbered, other))) (Selects-keep d))
  ]
  | inr unnumbered ↦
      rw unnumbered
        (leave s (λ m. ground (arith, unnumbered, (IsMigration-iff s.0).1 m)) (Selects-keep d))
]

-- `apply_ddl` takes the files of the directory that are numbered and no templates, each as often as
-- it is listed, puts them in the order of their names by the characters, and executes the
-- statements that `split_statements` gives for one after the other, up to the first that fails,
-- whose error it raises; if none fails it commits once at the end, and returns their number.
pub apply_ddl-migrations :
    {S : Type 0} (execute : Text → Exec S (Unit {0})) (commit : Exec S (Unit {0}))
    (directory : List Script)
    → (chosen : List Script) × (scripts : List Script) × Selects directory chosen
      × Perm scripts chosen
      × IsAscending scripts
      × (apply_ddl execute commit directory ≡ (
          execute_all execute (flat_map (λ s. split_statements s.1) scripts)
          >> (commit >> pure (length (flat_map (λ s. split_statements s.1) scripts)))))
apply_ddl-migrations execute commit directory =
    let numbered = keep (λ (s : Script). is_numbered s.0) directory in
    let other = λ (s : Script). not (is_template s.0) in
    (
      keep other numbered,
      keep other (in_order numbered),
      Selects-keep directory,
      keep-in_order other numbered,
      keep-IsAscending other (in_order numbered) (in_order-Ordered numbered),
      apply_ddl-execute_all execute commit directory,
    )
