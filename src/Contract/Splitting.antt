-- ===== src/Contract/Splitting.antt =====
-- What `Contract.split_valid` does with a batch.
use batch_api_snowflake.Base.{◌≡◌, refl, ◌≢◌, ap, ◌+◌, suc, ◌++◌, Bool, false, not}
use batch_api_snowflake.Base.{Option, none, some, List, [], ◌∷◌, All, arith, length, keep, is_empty}
use batch_api_snowflake.Base.{if◌then◌else◌, String-discrete}
use batch_api_snowflake.Base.Dict.{lookup}
use batch_api_snowflake.Errors.{ok, err, >>=-eq-ok}
use batch_api_snowflake.Values.{Value, null, Row, get}
use batch_api_snowflake.Contract.{
  FieldSpec, Contract, Violation, Rejected, place, violations, present_violations, PyClass,
  typed_violations, unknown_violations, required_is_null,
}
use batch_api_snowflake.Contract.{field_violations, validate_row, split_valid, py_types}

-- `not contract.validate_row(row)`, as a test.
unfoldable pub is_valid : Contract → Row → Bool
is_valid c row = elim (validate_row c row) [ ok problems ↦ is_empty problems | err e ↦ false ]

abbrev pub rows_of : List Rejected → List Row
rows_of [] = []
rows_of ((row, why) ∷ rest) = row ∷ rows_of rest

-- Each rejected row comes with what `validate_row` reports of it, which is something.
abbrev pub IsExplained : Contract → Rejected → Type 0
IsExplained c (row, why) = (validate_row c row ≡ ok why) × (why ≢ [])

abbrev pub Split : Contract → List Row → List Row × List Rejected → Type 0
Split c rows (accepted, rejected) =
    (accepted ≡ keep (is_valid c) rows)
    × (rows_of rejected ≡ keep (λ row. not (is_valid c row)) rows)
    × All (IsExplained c) rejected

is_valid_of :
    (c : Contract) (row : Row) (problems : List Violation)
    → validate_row c row ≡ ok problems
    → is_valid c row ≡ is_empty problems
unfolding is_valid
is_valid_of c row problems e = rw (e, is_valid)

place-Split :
    (c : Contract) (row : Row) (problems : List Violation) (rows : List Row)
    (out : List Row × List Rejected)
    → validate_row c row ≡ ok problems
    → Split c rows out
    → Split c (row ∷ rows) (place row problems out)
place-Split c row [] rows (accepted, rejected) e (a, r, x) =
    rw (is_valid_of c row [] e) (ap (λ l. row ∷ l) a, r, x)
place-Split c row (p ∷ ps) rows (accepted, rejected) e (a, r, x) =
    rw (is_valid_of c row (p ∷ ps) e) (a, ap (λ l. row ∷ l) r, ((e, λ h. cc), x))

-- When `split_valid` returns, the accepted rows are the valid rows in their order, the rejected
-- ones are all the others in their order, and each of these has the reasons `validate_row` gives.
pub split_valid-Split :
    (c : Contract) (rows : List Row) (out : List Row × List Rejected)
    → split_valid c rows ≡ ok out
    → Split c rows out
unfolding split_valid
split_valid-Split c [] out h =
    let made : ◌≡◌ {A = List Row × List Rejected} ([], []) out = cc h in
    rw (← made) (refl, refl, tt)
split_valid-Split c (row ∷ rows) out h =
    let (problems, e, h') = >>=-eq-ok (validate_row c row) _ h in
    let (rest, e', same) = >>=-eq-ok (split_valid c rows) _ h' in
    let made : place row problems rest ≡ out = cc same in
    rw (← made) (place-Split c row problems rows rest e (split_valid-Split c rows rest e'))

length-keep-not :
    (p : Row → Bool) (rows : List Row)
    → length (keep p rows) + length (keep (λ row. not (p row)) rows) ≡ length rows
length-keep-not p [] = omega arith
length-keep-not p (row ∷ rows) = ground (arith, length-keep-not p rows)

pub length-rows_of : (rejected : List Rejected) → length (rows_of rejected) ≡ length rejected
length-rows_of [] = refl
length-rows_of ((row, why) ∷ rest) = ap suc (length-rows_of rest)

-- When `split_valid` returns, no row is lost and none is counted twice: the accepted and the
-- rejected rows are as many as the rows of the batch.
pub length-split_valid :
    (c : Contract) (rows : List Row) (accepted : List Row) (rejected : List Rejected)
    → split_valid c rows ≡ ok (accepted, rejected)
    → length accepted + length rejected ≡ length rows
length-split_valid c rows accepted rejected h =
    let (a, r, _) = split_valid-Split c rows (accepted, rejected) h in
    omega
      (arith, ap length a, ap length r, length-rows_of rejected, length-keep-not (is_valid c) rows)

-- Every field's type is one of the five that the module knows.
abbrev pub HasKnownTypes : List FieldSpec → Type 0
HasKnownTypes ss = All (λ s. lookup String-discrete s.type_name py_types ≢ none) ss

violations_total :
    (s : FieldSpec) (v : Value)
    → lookup String-discrete s.type_name py_types ≢ none
    → (ps : List Violation) × (violations s v ≡ ok ps)
unfolding violations
violations_total s null k = (if s.required then required_is_null s.name ∷ [] else [], refl)
violations_total s v k = go (lookup String-discrete s.type_name py_types) refl
  where
    go :
        (o : Option (List PyClass))
        → lookup String-discrete s.type_name py_types ≡ o
        → (ps : List Violation) × (present_violations s v ≡ ok ps)
    go none e = absurd (k e)
    go (some expected) e = (typed_violations s expected v, rw (e, present_violations))

field_violations_total :
    (ss : List FieldSpec) (row : Row)
    → HasKnownTypes ss
    → (ps : List Violation) × (field_violations ss row ≡ ok ps)
unfolding field_violations
field_violations_total [] row k = ([], refl)
field_violations_total (s ∷ ss) row (k, ks) =
    let (here, e) = violations_total s (get row s.name) k in
    let (rest, e') = field_violations_total ss row ks in (here ++ rest, rw (e, e'))

-- Under a contract whose field types are all known, validating a batch raises nothing.
pub split_valid_total :
    (c : Contract) (rows : List Row)
    → HasKnownTypes c.fields
    → (out : List Row × List Rejected) × (split_valid c rows ≡ ok out)
unfolding split_valid validate_row
split_valid_total c [] k = (([], []), refl)
split_valid_total c (row ∷ rows) k =
    let (here, e) = field_violations_total c.fields row k in
    let (rest, e') = split_valid_total c rows k in
    (place row (here ++ unknown_violations c row) rest, rw (e, e'))
