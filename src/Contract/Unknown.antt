-- ===== src/Contract/Unknown.antt =====
-- Which keys of a row the contract allows beside its fields, and when the others are refused.
use batch_api_snowflake.Base.{
  ◌≡◌, refl, sym, ◌≢◌, ◌↔◌, ◌⊎◌, inl, inr, String, Bool, true, not, ◌&&◌, ◌||◌, arith,
}
use batch_api_snowflake.Base.{List, [], ◌∷◌, All, Some, keep, contains, begins_with, Bool-cases}
use batch_api_snowflake.Base.{String-discrete, str_eq, if◌then◌else◌, is_empty}
use batch_api_snowflake.Base.Dict.{keys}
use batch_api_snowflake.Values.{Row}
use batch_api_snowflake.Contract.{
  FieldSpec, Contract, field_names, unlisted, unknown_violations, unknown_fields_not_allowed,
  sorted,
}

-- A key that a row may have: the name of a field, an empty one, or one that begins with "_".
abbrev pub IsAllowed : Contract → String → Type 0
IsAllowed c k = Some (λ s. s.name ≡ k) c.fields ⊎ (k ≡ "") ⊎ (begins_with k "_" ≡ true)

named_iff :
    (c : Contract) (ss : List FieldSpec) (k : String)
    → (contains String-discrete (field_names (record c { fields = ss })) k ≡ true)
      ↔ Some (λ s. s.name ≡ k) ss
unfolding field_names
named_iff c [] k = (λ h. cc, λ h. elim h [ ])
named_iff c (s ∷ ss) k = elim (String-discrete k s.name) [
  | yes e ↦ (λ _. inl (sym e), λ _. ground arith)
  | no n ↦ (
    λ h. inr ((named_iff c ss k).0 (ground arith)),
    elim [ inl e ↦ absurd (n (sym e)) | inr later ↦ ground (arith, (named_iff c ss k).1 later) ],
  )
]

-- The test of `unlisted`.
abbrev is_allowed : Contract → String → Bool
is_allowed c k =
    contains String-discrete (field_names c) k
    || contains String-discrete ("_" ∷ "" ∷ []) k
    || begins_with k "_"

-- The keys that are allowed whatever the fields are.
other :
    {k : String}
    → (contains String-discrete ("_" ∷ "" ∷ []) k || begins_with k "_") ≡ true
    → (k ≡ "") ⊎ (begins_with k "_" ≡ true)
other {k} h = elim (String-discrete k "") [
  | yes e ↦ inl e
  | no n ↦ inr (elim (String-discrete k "_") [
    | yes e ↦ rw e (unfold begins_with in refl)
    | no n' ↦ ground (arith, h, n, n')
  ])
]

is_allowed_iff : (c : Contract) (k : String) → (is_allowed c k ≡ true) ↔ IsAllowed c k
is_allowed_iff c k = (
  λ h. elim (Bool-cases (contains String-discrete (field_names c) k)) [
    | inl e ↦ inl ((named_iff c c.fields k).0 e)
    | inr e ↦ inr (other (rw e at h))
  ],
  elim [
    | inl named ↦ rw ((named_iff c c.fields k).1 named) refl
    | inr (inl e) ↦ ground (arith, e)
    | inr (inr e) ↦ ground (arith, e)
  ],
)

keep-eq-nil_iff :
    (c : Contract) (ks : List String)
    → (keep (λ k. not (is_allowed c k)) ks ≡ []) ↔ All (IsAllowed c) ks
keep-eq-nil_iff c [] = (λ _. tt, λ _. refl)
keep-eq-nil_iff c (k ∷ ks) = elim (Bool-cases (is_allowed c k)) [
  | inl e ↦ (
    λ h. ((is_allowed_iff c k).0 e, (keep-eq-nil_iff c ks).0 (rw e at h)),
    λ (a, later). rw e ((keep-eq-nil_iff c ks).1 later),
  )
  | inr e ↦ (λ h. absurd (cc (rw e at h)), λ (a, later). absurd (cc ((is_allowed_iff c k).1 a, e)))
]

unlisted-eq-nil_iff :
    (c : Contract) (row : Row) → (unlisted c row ≡ []) ↔ All (IsAllowed c) (keys row)
unfolding unlisted
unlisted-eq-nil_iff c row = keep-eq-nil_iff c (keys row)

refusal-eq-nil_iff :
    (unknown : List String) (action : String)
    → ((if not (is_empty unknown) && str_eq action "reject"
          then unknown_fields_not_allowed (sorted unknown) ∷ []
          else [])
        ≡ [])
      ↔ ((unknown ≡ []) ⊎ (action ≢ "reject"))
refusal-eq-nil_iff [] action = (λ _. inl refl, λ _. refl)
refusal-eq-nil_iff (k ∷ ks) action = elim (String-discrete action "reject") [
  | yes e ↦ ground (arith, e)
  | no n ↦ ground (arith, n)
]

pub unknown-eq-nil_iff :
    (c : Contract) (row : Row)
    → (unknown_violations c row ≡ [])
      ↔ (All (IsAllowed c) (keys row) ⊎ (c.unknown_field_action ≢ "reject"))
unfolding unknown_violations
unknown-eq-nil_iff c row =
    let refused = refusal-eq-nil_iff (unlisted c row) c.unknown_field_action in
    let allowed = unlisted-eq-nil_iff c row in
    (
      λ h. elim (refused.0 h) [ inl e ↦ inl (allowed.0 e) | inr n ↦ inr n ],
      elim [ inl a ↦ refused.1 (inl (allowed.1 a)) | inr n ↦ refused.1 (inr n) ],
    )
