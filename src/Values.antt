-- ===== src/Values.antt =====
-- The dynamic values of Python that the program handles: those of JSON and YAML, and datetimes.
-- A float is not a number of the model's arithmetic: the program only compares floats and stores
-- them. `fin n` is the finite double n * 2^-1074, of which every finite double is an instance, so
-- the comparisons are exact; -0.0 and 0.0, which compare equal, are one value. An int converts
-- exactly, as it does below 2^53 in size.
use batch_api_snowflake.Base.{ℕ, ◌*◌, ◌^◌, ◌+◌, ◌-◌, String, Bool, true, false}
use batch_api_snowflake.Base.{ℤ, pos, negsuc, ltb_ℤ, List, [], ◌∷◌, Option, none, some}
use batch_api_snowflake.Base.{ℕ_discrete, String-discrete}
use batch_api_snowflake.Base.Dict.{Dict, lookup}

pub data Float : Type 0 where
  nan neg_inf pos_inf : Float
  fin : ℤ → Float

-- `a < b`: false whenever a side is nan.
unfoldable pub float_lt : Float → Float → Bool
float_lt nan b = false
float_lt neg_inf nan = false
float_lt neg_inf neg_inf = false
float_lt neg_inf b = true
float_lt pos_inf b = false
float_lt (fin m) nan = false
float_lt (fin m) neg_inf = false
float_lt (fin m) pos_inf = true
float_lt (fin m) (fin n) = ltb_ℤ m n

abbrev unit : ℕ
unit = 2 ^ 1074

-- `float(n)`
unfoldable pub float_of_int : ℤ → Float
float_of_int (pos n) = fin (pos (n * unit))
float_of_int (negsuc n) = fin (negsuc ((n + 1) * unit - 1))

-- A wall-clock reading in microseconds since 0001-01-01T00:00, and the offset of its tzinfo in
-- microseconds, if it has one.
pub record Datetime : Type 0 where
  pub wall : ℤ
  pub offset : Option ℤ

mutual
  pub data Value : Type 0 where
    null : Value
    boolean : Bool → Value
    integer : ℤ → Value
    float : Float → Value
    text : String → Value
    stamp : Datetime → Value
    array : Items → Value
    object : Fields → Value

  pub data Items : Type 0 where
    nil : Items
    cons : Value → Items → Items

  pub data Fields : Type 0 where
    end : Fields
    field : String → Value → Fields → Fields

-- A row of the batch: `dict[str, Any]`.
abbrev pub Row : Type 0
Row = Dict String Value

unfoldable pub items : Items → List Value
items nil = []
items (cons v vs) = v ∷ items vs

-- `d.get(key)` on a dict of the payload.
unfoldable pub fields : Fields → Dict String Value
fields end = []
fields (field k v fs) = (k, v) ∷ fields fs

-- `row.get(key)`: a key that is missing reads as `None`.
unfoldable pub get : Row → String → Value
unfolding lookup
get row key = elim (lookup String-discrete key row) [ none ↦ null | some v ↦ v ]

pub Float-discrete : Discrete Float
Float-discrete = hlevel ℕ_discrete

pub Datetime-discrete : Discrete Datetime
Datetime-discrete = hlevel ℕ_discrete

pub Value-discrete : Discrete Value
Value-discrete = hlevel (ℕ_discrete, String-discrete)
