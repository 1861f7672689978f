-- ===== src/Contract/Conformance.antt =====
-- What `FieldSpec.violations` and `Contract.validate_row` accept.
use batch_api_snowflake.Base.{
  ◌≡◌, refl, ◌∙◌, ◌≢◌, ◌↔◌, ◌⊎◌, inl, inr, ap, String, Bool, true, false, not, ◌&&◌, ◌||◌,
}
use batch_api_snowflake.Base.{
  Option, none, some, List, [], ◌∷◌, ◌++◌, All, arith, str_eq, String-discrete,
}
use batch_api_snowflake.Base.{ne_of_literals}
use batch_api_snowflake.Base.Dict.{lookup, keys}
use batch_api_snowflake.Errors.{ok, >>=-eq-ok}
use batch_api_snowflake.Values.{Float, Value, null, boolean, integer, float, text, stamp}
use batch_api_snowflake.Values.{Row, get, float_lt}
use batch_api_snowflake.Contract.{
  FieldSpec, Contract, violations, field_violations, validate_row, as_number, PyClass, bool_class,
  present_violations,
}
use batch_api_snowflake.Contract.Unknown.{IsAllowed, unknown-eq-nil_iff}
use batch_api_snowflake.Contract.{
  isinstance, typed_violations, range_violations, below, above, py_types, unknown_violations,
}

-- The contract's types, by the values that each admits.
abbrev pub admits : Value → String → Bool
admits (text t) ty = str_eq ty "string"
admits (integer n) ty = str_eq ty "integer" || str_eq ty "float"
admits (float x) ty = str_eq ty "float"
admits (boolean b) ty = str_eq ty "boolean"
admits (stamp t) ty = str_eq ty "timestamp"
admits _ ty = false

-- A bound that is given and a number that breaks it do not occur together.
abbrev pub InRange : FieldSpec → Value → Type 0
InRange s v =
    ((x lo : Float) → as_number v ≡ some x → s.min ≡ some lo → float_lt x lo ≡ false)
    × ((x hi : Float) → as_number v ≡ some x → s.max ≡ some hi → float_lt hi x ≡ false)

abbrev pub Conforms : FieldSpec → Value → Type 0
Conforms s v = ((v ≡ null) × (s.required ≡ false)) ⊎ ((admits v s.type_name ≡ true) × InRange s v)

below-eq-nil :
    (s : FieldSpec) (v : Value) (x : Float) (m : Option Float)
    → (below s v x m ≡ []) ↔ ((lo : Float) → m ≡ some lo → float_lt x lo ≡ false)
unfolding below
below-eq-nil s v x none = (λ _ lo e. cc, λ _. refl)
below-eq-nil s v x (some b) = (λ h lo e. ground arith, λ h. ground (arith, h b refl))

above-eq-nil :
    (s : FieldSpec) (v : Value) (x : Float) (m : Option Float)
    → (above s v x m ≡ []) ↔ ((hi : Float) → m ≡ some hi → float_lt hi x ≡ false)
unfolding above
above-eq-nil s v x none = (λ _ lo e. cc, λ _. refl)
above-eq-nil s v x (some b) = (λ h lo e. ground arith, λ h. ground (arith, h b refl))

append-eq-nil {ℓ} : {A : Type ℓ} (xs ys : List A) → xs ++ ys ≡ [] → (xs ≡ []) × (ys ≡ [])
append-eq-nil [] ys h = (refl, h)
append-eq-nil (x ∷ xs) ys h = cc

in_both :
    (s : FieldSpec) (v : Value) (x : Float)
    → (below s v x s.min ++ above s v x s.max ≡ []) ↔ (
        ((lo : Float) → s.min ≡ some lo → float_lt x lo ≡ false)
        × ((hi : Float) → s.max ≡ some hi → float_lt hi x ≡ false))
in_both s v x = (
  λ h.
      let (a, b) = append-eq-nil (below s v x s.min) (above s v x s.max) h in
      ((below-eq-nil s v x s.min).0 a, (above-eq-nil s v x s.max).0 b),
  λ (lo, hi). cc ((below-eq-nil s v x s.min).1 lo, (above-eq-nil s v x s.max).1 hi),
)

within-InRange :
    (s : FieldSpec) (v : Value) (o : Option Float)
    → as_number v ≡ o
    → (range_violations s v ≡ []) ↔ InRange s v
unfolding range_violations
within-InRange s v none e = (λ _. (λ x lo p. cc, λ x hi p. cc), λ _. rw (e, range_violations))
within-InRange s v (some y) e = (
  λ h.
      let both : below s v y s.min ++ above s v y s.max ≡ [] = rw (e, range_violations) at h in
      let (lo, hi) = (in_both s v y).0 both in
      (λ x b p. ground (arith, lo b), λ x b p. ground (arith, hi b)),
  λ (lo, hi). rw (e, range_violations) ((in_both s v y).1 (λ b. lo y b e, λ b. hi y b e)),
)

abbrev type_passes : FieldSpec → List PyClass → Value → Bool
type_passes s expected v =
    not (isinstance v (bool_class ∷ []) && not (str_eq s.type_name "boolean"))
    && isinstance v expected

typed-eq-nil :
    (s : FieldSpec) (v : Value) (expected : List PyClass)
    → (typed_violations s expected v ≡ [])
      ↔ ((type_passes s expected v ≡ true) × (range_violations s v ≡ []))
unfolding typed_violations
typed-eq-nil s v expected = ground arith

type_names_differ :
    (◌≢◌ {A = String} "string" "integer")
    × (◌≢◌ {A = String} "string" "float")
    × (◌≢◌ {A = String} "string" "boolean")
    × (◌≢◌ {A = String} "string" "timestamp")
    × (◌≢◌ {A = String} "integer" "float")
    × (◌≢◌ {A = String} "integer" "boolean")
    × (◌≢◌ {A = String} "integer" "timestamp")
    × (◌≢◌ {A = String} "float" "boolean")
    × (◌≢◌ {A = String} "float" "timestamp")
    × (◌≢◌ {A = String} "boolean" "timestamp")
type_names_differ = (
  ne_of_literals _ _ refl,
  ne_of_literals _ _ refl,
  ne_of_literals _ _ refl,
  ne_of_literals _ _ refl,
  ne_of_literals _ _ refl,
  ne_of_literals _ _ refl,
  ne_of_literals _ _ refl,
  ne_of_literals _ _ refl,
  ne_of_literals _ _ refl,
  ne_of_literals _ _ refl,
)

-- With the classes of its type, a value passes the checks of its type just when the type admits it.
type_passes-eq-admits :
    (s : FieldSpec) (v : Value) (expected : List PyClass)
    → lookup String-discrete s.type_name py_types ≡ some expected
    → type_passes s expected v ≡ admits v s.type_name
unfolding isinstance lookup
type_passes-eq-admits s (boolean b) expected e = ground (arith, type_names_differ)
type_passes-eq-admits s _ expected e = ground (arith, type_names_differ)

lookup-ne-none_of_admits :
    (v : Value) (ty : String) → admits v ty ≡ true → lookup String-discrete ty py_types ≢ none
unfolding lookup
lookup-ne-none_of_admits (text t) ty h = ground arith
lookup-ne-none_of_admits _ ty h = ground arith

present-Conforms :
    (s : FieldSpec) (v : Value)
    → (present_violations s v ≡ ok []) ↔ ((admits v s.type_name ≡ true) × InRange s v)
unfolding present_violations
present-Conforms s v = go (lookup String-discrete s.type_name py_types) refl
  where
    go :
        (o : Option (List PyClass))
        → lookup String-discrete s.type_name py_types ≡ o
        → (present_violations s v ≡ ok []) ↔ ((admits v s.type_name ≡ true) × InRange s v)
    go none e = (
      λ h. absurd (cc (rw (e, present_violations) at h)),
      λ (a, r). absurd (lookup-ne-none_of_admits v s.type_name a e),
    )
    go (some expected) e = (
      λ h.
          let empty : typed_violations s expected v ≡ [] = cc (rw (e, present_violations) at h) in
          let (passes, range) = (typed-eq-nil s v expected).0 empty in
          (
            rw (type_passes-eq-admits s v expected e) at passes,
            (within-InRange s v (as_number v) refl).0 range,
          ),
      λ (a, r).
          rw (e, present_violations)
            (ap ok (
              (typed-eq-nil s v expected).1 (
                rw (type_passes-eq-admits s v expected e) a,
                (within-InRange s v (as_number v) refl).1 r,
              ))),
    )

not-null-Conforms :
    (s : FieldSpec) (v : Value) → v ≢ null → (present_violations s v ≡ ok []) ↔ Conforms s v
not-null-Conforms s v h = (
  λ e. inr ((present-Conforms s v).0 e),
  elim [ inl (e, _) ↦ absurd (h e) | inr c ↦ (present-Conforms s v).1 c ],
)

-- A field spec finds nothing wrong with a value exactly when the value conforms to it: it is null
-- and the field is not required, or the field's type admits it and it breaks neither bound.
pub violations-eq-nil_iff : (s : FieldSpec) (v : Value) → (violations s v ≡ ok []) ↔ Conforms s v
unfolding violations
violations-eq-nil_iff s null =
    (λ h. inl (refl, ground arith), elim [ inl (_, r) ↦ rw r | inr (a, _) ↦ cc ])
violations-eq-nil_iff s v = not-null-Conforms s v (λ e. cc)

field_violations-eq-nil_iff :
    (ss : List FieldSpec) (row : Row)
    → (field_violations ss row ≡ ok []) ↔ All (λ s. Conforms s (get row s.name)) ss
unfolding field_violations
field_violations-eq-nil_iff [] row = (λ _. tt, λ _. refl)
field_violations-eq-nil_iff (s ∷ ss) row = (
  λ h.
      let (here, e, h') = >>=-eq-ok (violations s (get row s.name)) _ h in
      let (rest, e', both) = >>=-eq-ok (field_violations ss row) _ h' in
      let (first, others) = append-eq-nil here rest (cc both) in
      (
        (violations-eq-nil_iff s (get row s.name)).0 (e ∙ ap ok first),
        (field_violations-eq-nil_iff ss row).0 (e' ∙ ap ok others),
      ),
  λ (c, cs).
      rw
        ((violations-eq-nil_iff s (get row s.name)).1 c, (field_violations-eq-nil_iff ss row).1 cs),
)

-- A row is valid when every field conforms, and it has no key that the contract does not allow or
-- the contract does not reject unknown fields.
abbrev pub IsValid : Contract → Row → Type 0
IsValid c row =
    All (λ s. Conforms s (get row s.name)) c.fields
    × (All (IsAllowed c) (keys row) ⊎ (c.unknown_field_action ≢ "reject"))

-- `validate_row` reports nothing for a row exactly when the value of every field conforms to its
-- spec (a missing key reads as null) and either each key of the row is the name of a field, empty or
-- begins with an underscore, or the contract does not reject unknown fields.
pub validate_row-eq-nil_iff :
    (c : Contract) (row : Row) → (validate_row c row ≡ ok []) ↔ IsValid c row
unfolding validate_row
validate_row-eq-nil_iff c row = (
  λ h.
      let (problems, e, both) = >>=-eq-ok (field_violations c.fields row) _ h in
      let (first, others) = append-eq-nil problems (unknown_violations c row) (cc both) in
      (
        (field_violations-eq-nil_iff c.fields row).0 (e ∙ ap ok first),
        (unknown-eq-nil_iff c row).0 others,
      ),
  λ (cs, u).
      rw ((field_violations-eq-nil_iff c.fields row).1 cs) (ap ok ((unknown-eq-nil_iff c row).1 u)),
)
