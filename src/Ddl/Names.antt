-- ===== src/Ddl/Names.antt =====
-- The names of the scripts that `apply_ddl` executes, by their parts.
use batch_api_snowflake.Base.{
  ◌≡◌, refl, sym, ap, ◌∙◌, ℕ, ◌≤◌, true, false, not, ◌&&◌, ◌==◌, ==_iff, leb, arith,
}
use batch_api_snowflake.Base.{
  [], ◌∷◌, ◌++◌, length, is_prefix, is_prefix-append, codes, length-append, Bool-cases,
}
use batch_api_snowflake.Base.{◌⊎◌, inl, inr, ◌↔◌}
use batch_api_snowflake.Ddl.{Text}
use batch_api_snowflake.Ddl.Apply.{occurs, ends, stem, is_numbered, is_template}

abbrev pub IsDigit : ℕ → Type 0
IsDigit c = (48 ≤ c) × (c ≤ 57)

-- Three digits, an underscore (the code 95), anything, and `.sql` at the end.
abbrev pub IsNumbered : Text → Type 0
IsNumbered name =
    (a : ℕ) × (b : ℕ) × (c : ℕ) × (rest : Text) × IsDigit a
    × IsDigit b
    × IsDigit c
    × (name ≡ a ∷ b ∷ c ∷ 95 ∷ (rest ++ codes ".sql"))

-- `_merge.sql` at the end, or `merge` in front of a `.sql` at the end.
abbrev pub IsTemplate : Text → Type 0
IsTemplate name =
    ((front : Text) × (name ≡ front ++ codes "_merge.sql"))
    ⊎ ((front : Text) × (back : Text) × (name ≡ (front ++ codes "merge" ++ back) ++ codes ".sql"))

-- A numbered script that is no template.
abbrev pub IsMigration : Text → Type 0
IsMigration name = IsNumbered name × ¬ IsTemplate name

prefix_iff :
    (part text : Text) → (is_prefix part text ≡ true) ↔ ((back : Text) × (text ≡ part ++ back))
prefix_iff part text = (of part text, λ (back, e). rw e (is_prefix-append part back))
  where
    of : (part text : Text) → is_prefix part text ≡ true → (back : Text) × (text ≡ part ++ back)
    of [] text h = (text, refl)
    of (x ∷ part) [] h = absurd (cc h)
    of (x ∷ part) (y ∷ text) h =
        let (back, e) = of part text (ground (arith, h)) in
        let same : x ≡ y = ground (arith, h, ==_iff x y) in (back, cc (same, e))

occurs-of_prefix : (part text : Text) → is_prefix part text ≡ true → occurs part text ≡ true
unfolding occurs
occurs-of_prefix part [] h = h
occurs-of_prefix part (c ∷ text) h = rw h refl

occurs-append : (part front back : Text) → occurs part (front ++ part ++ back) ≡ true
unfolding occurs
occurs-append part [] back = occurs-of_prefix part (part ++ back) (is_prefix-append part back)
occurs-append part (c ∷ front) back = ground (arith, occurs-append part front back)

occurs_parts :
    (part text : Text)
    → occurs part text ≡ true
    → (front : Text) × (back : Text) × (text ≡ front ++ part ++ back)
unfolding occurs
occurs_parts part [] h = let (back, same) = (prefix_iff part []).0 h in ([], back, same)
occurs_parts part (c ∷ text) h = elim (Bool-cases (is_prefix part (c ∷ text))) [
  | inl e ↦ let (back, same) = (prefix_iff part (c ∷ text)).0 e in ([], back, same)
  | inr e ↦
      let (front, back, same) = occurs_parts part text (rw e at h) in
      (c ∷ front, back, ap (λ t. c ∷ t) same)
]

whole_prefix :
    (part text : Text) → is_prefix part text ≡ true → length part ≡ length text → text ≡ part
whole_prefix [] [] h e = refl
whole_prefix [] (y ∷ text) h e = absurd (omega (arith, e))
whole_prefix (x ∷ part) [] h e = absurd (cc h)
whole_prefix (x ∷ part) (y ∷ text) h e =
    let same : x ≡ y = ground (arith, h, ==_iff x y) in
    let rest : text ≡ part = whole_prefix part text (ground (arith, h)) (omega (arith, e)) in
    cc (same, rest)

ends_parts : (part text : Text) → ends part text ≡ true → (front : Text) × (text ≡ front ++ part)
unfolding ends
ends_parts [] [] h = ([], refl)
ends_parts (x ∷ part) [] h = absurd (cc h)
ends_parts part (c ∷ text) h =
    elim (Bool-cases (is_prefix part (c ∷ text) && length part == length (c ∷ text))) [
      | inl e ↦ ([], whole_prefix part (c ∷ text) (ground (arith, e)) (ground (arith, e)))
      | inr e ↦
          let (front, same) = ends_parts part text (rw e at h) in (c ∷ front, ap (λ t. c ∷ t) same)
    ]

is_prefix_self : (text : Text) → is_prefix text text ≡ true
is_prefix_self [] = refl
is_prefix_self (c ∷ text) = ground (arith, is_prefix_self text)

ends-append : (part front : Text) → ends part (front ++ part) ≡ true
unfolding ends
ends-append [] [] = refl
ends-append (x ∷ part) [] = ground (arith, is_prefix_self part)
ends-append part (c ∷ front) = ground (arith, ends-append part front)

stem-append : (front : Text) → stem (front ++ codes ".sql") ≡ front
unfolding stem
stem-append [] = refl
stem-append (c ∷ front) =
    let long : leb (length (front ++ codes ".sql")) 3 ≡ false =
      ground (arith, length-append front (codes ".sql")) in
    rw (long, stem-append front) refl

is_numbered_parts : (name : Text) → is_numbered name ≡ true → IsNumbered name
unfolding is_numbered
is_numbered_parts (a ∷ b ∷ c ∷ d ∷ rest) h =
    let (front, ending) = ends_parts (codes ".sql") rest (ground (arith, h)) in
    let underscore : d ≡ 95 = ground (arith, h) in
    let low : (48 ≤ a) × (48 ≤ b) × (48 ≤ c) = ground (arith, h) in
    let high : (a ≤ 57) × (b ≤ 57) × (c ≤ 57) = ground (arith, h) in
    (
      a,
      b,
      c,
      front,
      (low.0, high.0),
      (low.1, high.1),
      (low.2, high.2),
      ap (λ t. a ∷ b ∷ c ∷ d ∷ t) ending
          ∙ ap (λ n. a ∷ b ∷ c ∷ n ∷ (front ++ codes ".sql")) underscore,
    )
is_numbered_parts _ h = absurd (cc h)

IsNumbered-is_numbered : (name : Text) → IsNumbered name → is_numbered name ≡ true
unfolding is_numbered
IsNumbered-is_numbered name (a, b, c, rest, da, db, dc, e) =
    rw e (ground (arith, da, db, dc, ends-append (codes ".sql") rest))

is_template_parts : (name : Text) → IsNumbered name → is_template name ≡ true → IsTemplate name
unfolding is_template
is_template_parts name (a, b, c, rest, _, _, _, e) h =
    elim (Bool-cases (ends (codes "_merge.sql") name)) [
      | inl marked ↦ inl (ends_parts (codes "_merge.sql") name marked)
      | inr unmarked ↦
          let named : stem name ≡ a ∷ b ∷ c ∷ 95 ∷ rest =
            ap stem e ∙ stem-append (a ∷ b ∷ c ∷ 95 ∷ rest) in
          let (front, back, same) = occurs_parts (codes "merge") (stem name) (rw unmarked at h) in
          inr (front, back, e ∙ ap (λ t. t ++ codes ".sql") (sym named ∙ same))
    ]

IsTemplate-is_template : (name : Text) → IsTemplate name → is_template name ≡ true
unfolding is_template
IsTemplate-is_template name (inl (front, e)) = rw (e, ends-append (codes "_merge.sql") front) refl
IsTemplate-is_template name (inr (front, back, e)) =
    let found : occurs (codes "merge") (stem name) ≡ true =
      rw (e, stem-append (front ++ codes "merge" ++ back))
        (occurs-append (codes "merge") front back) in
    ground (arith, found)

-- A name that `apply_ddl` takes, and one that it leaves out.
pub IsMigration-iff :
    (name : Text) → ((is_numbered name && not (is_template name)) ≡ true) ↔ IsMigration name
IsMigration-iff name = (
  λ h.
      let numbered = is_numbered_parts name (ground (arith, h)) in
      (numbered, λ t. ground (arith, h, IsTemplate-is_template name t)),
  λ (numbered, other). elim (Bool-cases (is_template name)) [
    | inl e ↦ absurd (other (is_template_parts name numbered e))
    | inr e ↦ ground (arith, e, IsNumbered-is_numbered name numbered)
  ],
)
