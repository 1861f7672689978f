-- ===== src/Contract/Loading.antt =====
-- src/pipeline/contracts.py, `load_contract`: a contract from the YAML file that describes it. What
-- `yaml.safe_load` gives for a file and how `int` reads a text are parameters. The dataclasses
-- check no types, so that a loaded contract has the values of the file; a mapping's keys are texts.
use batch_api_snowflake.Base.{ℕ, zero, suc, ◌+◌, ◌/◌, ◌^◌, ℤ, pos, negsuc, String, ◌<>◌, decimal}
use batch_api_snowflake.Base.{
  false, not, Option, none, some, List, [], ◌∷◌, map, any, contains, String-discrete, if◌then◌else◌,
}
use batch_api_snowflake.Base.Dict.{Dict, keys, lookup}
use batch_api_snowflake.Errors.{
  Result, ok, err, value_error, overflow_error, attribute_error, key_error, type_error,
  contract_error, guard, ◌>>=◌, ◌>>◌,
}
use batch_api_snowflake.Values.{
  Float, nan, fin, Value, null, boolean, integer, float, text, array, object, Fields, items, fields,
}

-- A `FieldSpec` and a `Contract` as they are built, before any value is used as what it should be.
pub record LoadedField : Type 0 where
  pub name : Value
  pub type_name : Value
  pub required : Value
  pub min : Value
  pub max : Value
  pub description : Value

pub record LoadedContract : Type 0 where
  pub name : Value
  pub version : ℤ
  pub grain : Value
  pub primary_key : List Value
  pub partition_key : Value
  pub source_lag_days : ℤ
  pub fields : List LoadedField
  pub unknown_field_action : Value

-- `v[key]`, for a text as the key: only a mapping has such entries.
unfoldable pub subscript : Value → String → Result Value
unfolding lookup fields
subscript (object fs) key = elim (lookup String-discrete key (fields fs)) [
  | none ↦ err key_error
  | some v ↦ ok v
]
subscript v key = err type_error

-- `d.get(key, default)`: only a mapping has the method.
unfoldable pub get_or : Value → String → Value → Result Value
unfolding lookup fields
get_or (object fs) key default = elim (lookup String-discrete key (fields fs)) [
  | none ↦ ok default
  | some v ↦ ok v
]
get_or v key default = err attribute_error

characters : String → List Value
characters String.[] = []
characters (String.◌∷◌ c s) = text (String.◌∷◌ c String.[]) ∷ characters s

-- `tuple(v)`: the elements of a list, the characters of a text, the keys of a mapping.
unfoldable pub elements : Value → Result (List Value)
unfolding items fields characters
elements (array vs) = ok (items vs)
elements (text s) = ok (characters s)
elements (object fs) = ok (map text (keys (fields fs)))
elements v = err type_error

negated : ℕ → ℤ
negated zero = pos 0
negated (suc n) = negsuc n

-- `int(x)` of a float: towards zero.
unfoldable pub truncated : Float → Result ℤ
unfolding negated
truncated nan = err value_error
truncated (fin (pos m)) = ok (pos (m / 2 ^ 1074))
truncated (fin (negsuc m)) = ok (negated ((m + 1) / 2 ^ 1074))
truncated infinite = err overflow_error

-- The keyword arguments of `FieldSpec`.
abbrev field_keys : List String
field_keys = "name" ∷ "type" ∷ "required" ∷ "min" ∷ "max" ∷ "description" ∷ []

-- An argument that has no default, and one that has.
needed : Dict String Value → String → Result Value
unfolding lookup
needed kwargs key = elim (lookup String-discrete key kwargs) [
  | none ↦ err type_error
  | some v ↦ ok v
]

optional : Dict String Value → String → Value → Value
unfolding lookup
optional kwargs key default = elim (lookup String-discrete key kwargs) [
  | none ↦ default
  | some v ↦ v
]

-- `FieldSpec(**f)`
unfoldable pub field_spec : Value → Result LoadedField
unfolding fields needed optional
field_spec (object fs) =
    let kwargs = fields fs in
    do
      guard (not (any (λ k. not (contains String-discrete field_keys k)) (keys kwargs))) type_error
      name ← needed kwargs "name"
      type_name ← needed kwargs "type"
      ok (record {
        name = name;
        type_name = type_name;
        required = optional kwargs "required" (boolean false);
        min = optional kwargs "min" null;
        max = optional kwargs "max" null;
        description = optional kwargs "description" null;
      })
field_spec v = err type_error

unfoldable pub field_specs : List Value → Result (List LoadedField)
unfolding field_spec
field_specs [] = ok []
field_specs (v ∷ vs) = do spec ← field_spec v; specs ← field_specs vs; ok (spec ∷ specs)

-- `except (KeyError, TypeError)`
unfoldable pub rethrown : String → Result LoadedContract → Result LoadedContract
rethrown path (err key_error) = err (contract_error path)
rethrown path (err type_error) = err (contract_error path)
rethrown path result = result

-- The name of the file of a contract.
abbrev pub contract_file : String → ℕ → String
contract_file name version = name <> (".v" <> (decimal version <> ".yml"))

module _ (int_of_text : String → Option ℤ) where
  -- `int(v)`
  unfoldable pub int_of : Value → Result ℤ
  unfolding truncated
  int_of (integer n) = ok n
  int_of (boolean b) = ok (pos (if b then 1 else 0))
  int_of (float x) = truncated x
  int_of (text s) = elim (int_of_text s) [ none ↦ err value_error | some n ↦ ok n ]
  int_of v = err type_error

  -- The body of the `try`.
  unfoldable pub contract_of : Value → Result LoadedContract
  unfolding subscript int_of elements field_specs get_or
  contract_of doc = do
    name ← subscript doc "name"
    version_value ← subscript doc "version"
    version ← int_of version_value
    grain ← subscript doc "grain"
    key_value ← subscript doc "primary_key"
    primary_key ← elements key_value
    partition_key ← subscript doc "partition_key"
    sla ← subscript doc "sla"
    lag_value ← subscript sla "source_lag_days"
    source_lag_days ← int_of lag_value
    fields_value ← subscript doc "fields"
    field_values ← elements fields_value
    specs ← field_specs field_values
    compatibility ← get_or doc "compatibility" (object Fields.end)
    action ← get_or compatibility "unknown_field_action" (text "warn_and_keep")
    ok (record {
      name = name;
      version = version;
      grain = grain;
      primary_key = primary_key;
      partition_key = partition_key;
      source_lag_days = source_lag_days;
      fields = specs;
      unknown_field_action = action;
    })

  -- From what `yaml.safe_load` makes of the file, if there is one.
  unfoldable pub contract_from : String → Option (Result Value) → Result LoadedContract
  unfolding contract_of rethrown
  contract_from path none = err (contract_error path)
  contract_from path (some (err e)) = err e
  contract_from path (some (ok doc)) = rethrown path (contract_of doc)

  -- `load_contract`, from the files of the directory, by what `yaml.safe_load` makes of each.
  unfoldable pub load_contract : Dict String (Result Value) → String → ℕ → Result LoadedContract
  unfolding lookup contract_from
  load_contract files name version =
      let path = contract_file name version in
      contract_from path (lookup String-discrete path files)
