-- ===== src/Contract.antt =====
-- src/pipeline/contracts.py: a data contract, and the validation of rows against it.
pub mod Conformance
mod Unknown
pub mod Splitting
pub mod Loading
pub mod Documents
mod Tests
use Prim.Native.Nat.{Ordering}
use Prim.Native.String
use batch_api_snowflake.Base.{
  ℕ, suc, String, Bool, true, false, not, ◌&&◌, ◌||◌, Option, none, some,
}
use batch_api_snowflake.Base.{List, [], ◌∷◌, ◌++◌, keep, any, is_empty, contains, str_eq}
use batch_api_snowflake.Base.{String-discrete, begins_with, ℤ, pos, if◌then◌else◌}
use batch_api_snowflake.Base.Dict.{Dict, keys, lookup}
use batch_api_snowflake.Errors.{Result, ok, err, contract_error, ◌>>=◌}
use batch_api_snowflake.Values.{Float, Value, null, boolean, integer, float, text, stamp, array}
use batch_api_snowflake.Values.{object, Row, get, float_lt, float_of_int}

-- The classes that `isinstance` is asked about, and those of the other values.
pub data PyClass : Type 0 where
  str_class int_class float_class bool_class datetime_class list_class dict_class : PyClass
  none_class : PyClass

-- `_PY_TYPES`
abbrev py_types : Dict String (List PyClass)
py_types =
    ("string", str_class ∷ [])
    ∷ ("integer", int_class ∷ [])
    ∷ ("float", float_class ∷ int_class ∷ [])
    ∷ ("boolean", bool_class ∷ [])
    ∷ ("timestamp", datetime_class ∷ [])
    ∷ []

-- `type(value)`
unfoldable pub class_of : Value → PyClass
class_of null = none_class
class_of (boolean b) = bool_class
class_of (integer n) = int_class
class_of (float x) = float_class
class_of (text s) = str_class
class_of (stamp t) = datetime_class
class_of (array vs) = list_class
class_of (object fs) = dict_class

-- `issubclass(c, d)`: of these classes only bool has another, int, above it.
unfoldable pub subclass : PyClass → PyClass → Bool
subclass str_class str_class = true
subclass int_class int_class = true
subclass float_class float_class = true
subclass bool_class bool_class = true
subclass bool_class int_class = true
subclass datetime_class datetime_class = true
subclass list_class list_class = true
subclass dict_class dict_class = true
subclass none_class none_class = true
subclass _ _ = false

-- `isinstance(value, classes)`
unfoldable pub isinstance : Value → List PyClass → Bool
unfolding class_of subclass
isinstance v classes = any (subclass (class_of v)) classes

pub record FieldSpec : Type 0 where
  pub name : String
  pub type_name : String
  pub required : Bool
  pub min : Option Float
  pub max : Option Float
  pub description : Option String

-- The human readable violations, by the values that they are formatted from.
pub data Violation : Type 0 where
  required_is_null : String → Violation
  got_boolean : String → String → Violation
  wrong_type : String → String → PyClass → Violation
  below_minimum : String → Value → Float → Violation
  above_maximum : String → Value → Float → Violation
  unknown_fields_not_allowed : List String → Violation

-- `float(value)`, of a value that is an int or a float; a bool is an int.
unfoldable pub as_number : Value → Option Float
unfolding float_of_int
as_number (boolean true) = some (float_of_int (pos 1))
as_number (boolean false) = some (float_of_int (pos 0))
as_number (integer n) = some (float_of_int n)
as_number (float x) = some x
as_number _ = none

below : FieldSpec → Value → Float → Option Float → List Violation
below s v x none = []
below s v x (some lo) = if float_lt x lo then below_minimum s.name v lo ∷ [] else []

above : FieldSpec → Value → Float → Option Float → List Violation
above s v x none = []
above s v x (some hi) = if float_lt hi x then above_maximum s.name v hi ∷ [] else []

-- Where neither bound is given both parts are empty, as the early return of the source is.
range_violations : FieldSpec → Value → List Violation
unfolding below above as_number
range_violations s v = elim (as_number v) [
  | none ↦ []
  | some x ↦ below s v x s.min ++ above s v x s.max
]

typed_violations : FieldSpec → List PyClass → Value → List Violation
unfolding isinstance range_violations
typed_violations s expected v =
    if isinstance v (bool_class ∷ []) && not (str_eq s.type_name "boolean")
    then got_boolean s.name s.type_name ∷ []
    else if not (isinstance v expected)
    then wrong_type s.name s.type_name (class_of v) ∷ []
    else range_violations s v

present_violations : FieldSpec → Value → Result (List Violation)
unfolding typed_violations lookup
present_violations s v = elim (lookup String-discrete s.type_name py_types) [
  | none ↦ err (contract_error s.type_name)
  | some expected ↦ ok (typed_violations s expected v)
]

-- `FieldSpec.violations`
unfoldable pub violations : FieldSpec → Value → Result (List Violation)
unfolding present_violations
violations s null = ok (if s.required then required_is_null s.name ∷ [] else [])
violations s v = present_violations s v

pub record Contract : Type 0 where
  pub name : String
  pub version : ℕ
  pub grain : String
  pub primary_key : List String
  pub partition_key : String
  pub source_lag_days : ℤ
  pub fields : List FieldSpec
  pub unknown_field_action : String

field_names_of : List FieldSpec → List String
field_names_of [] = []
field_names_of (s ∷ ss) = s.name ∷ field_names_of ss

-- `Contract.field_names`
unfoldable pub field_names : Contract → List String
unfolding field_names_of
field_names c = field_names_of c.fields

-- The loop over `self.fields`.
unfoldable pub field_violations : List FieldSpec → Row → Result (List Violation)
unfolding violations get
field_violations [] row = ok []
field_violations (s ∷ ss) row = do
  here ← violations s (get row s.name)
  rest ← field_violations ss row
  ok (here ++ rest)

insert_sorted : String → List String → List String
insert_sorted s [] = s ∷ []
insert_sorted s (t ∷ ts) =
    let rest = insert_sorted s ts in
    elim (String.compare s t) [ Ordering.gt ↦ t ∷ rest | _ ↦ s ∷ t ∷ ts ]

-- `sorted`, of texts.
unfoldable pub sorted : List String → List String
unfolding insert_sorted
sorted [] = []
sorted (s ∷ ss) = insert_sorted s (sorted ss)

-- The unknown fields that `validate_row` reports.
unfoldable pub unlisted : Contract → Row → List String
unfolding field_names begins_with
unlisted c row =
    keep
      (λ k. not (
        contains String-discrete (field_names c) k
        || contains String-discrete ("_" ∷ "" ∷ []) k
        || begins_with k "_"))
      (keys row)

pub unknown_violations : Contract → Row → List Violation
unfolding unlisted sorted
unknown_violations c row =
    let unknown = unlisted c row in
    if not (is_empty unknown) && str_eq c.unknown_field_action "reject"
    then unknown_fields_not_allowed (sorted unknown) ∷ []
    else []

-- `Contract.validate_row`
unfoldable pub validate_row : Contract → Row → Result (List Violation)
unfolding field_violations unknown_violations
validate_row c row = do
  problems ← field_violations c.fields row
  ok (problems ++ unknown_violations c row)

abbrev pub Rejected : Type 0
Rejected = Row × List Violation

-- What one row adds to the two lists of `split_valid`.
abbrev place : Row → List Violation → List Row × List Rejected → List Row × List Rejected
place row problems (accepted, rejected) =
    if is_empty problems then (row ∷ accepted, rejected) else (accepted, (row, problems) ∷ rejected)

-- `Contract.split_valid`
unfoldable pub split_valid : Contract → List Row → Result (List Row × List Rejected)
split_valid c [] = ok ([], [])
split_valid c (row ∷ rows) = do
  problems ← validate_row c row
  rest ← split_valid c rows
  ok (place row problems rest)

-- `Contract.unknown_fields`
unfoldable pub unknown_fields : Contract → Row → List String
unfolding field_names begins_with
unknown_fields c row =
    keep (λ k. not (begins_with k "_") && not (contains String-discrete (field_names c) k))
      (keys row)
