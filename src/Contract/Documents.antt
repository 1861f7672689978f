-- ===== src/Contract/Documents.antt =====
-- The YAML document of a contract, which `load_contract` reads back.
use batch_api_snowflake.Base.{
  ◌≡◌, refl, ap, ℤ, pos, String, Option, none, some, List, [], ◌∷◌, map, String-discrete,
}
use batch_api_snowflake.Base.Dict.{Dict, lookup}
use batch_api_snowflake.Errors.{Result, ok}
use batch_api_snowflake.Values.{
  Float, Value, null, boolean, integer, float, text, array, object, Items, nil, cons, Fields, items,
  fields,
}
use batch_api_snowflake.Contract.{FieldSpec, Contract}
use batch_api_snowflake.Contract.Loading.{
  LoadedField, LoadedContract, contract_file, contract_of, contract_from, rethrown, load_contract,
}
use batch_api_snowflake.Contract.Loading.{
  field_spec, field_specs, elements, subscript, get_or, int_of,
}

-- An entry that is left out where there is no value for it.
abbrev entry : String → Option Value → Fields → Fields
entry key none rest = rest
entry key (some v) rest = Fields.field key v rest

abbrev value_or_null : Option Value → Value
value_or_null none = null
value_or_null (some v) = v

abbrev float_or_none : Option Float → Option Value
float_or_none none = none
float_or_none (some x) = some (float x)

abbrev text_or_none : Option String → Option Value
text_or_none none = none
text_or_none (some s) = some (text s)

-- The entries of one field of the contract: a bound and a description only where there is one.
abbrev pub field_document : FieldSpec → Value
field_document s = object (
    Fields.field "name" (text s.name) (
      Fields.field "type" (text s.type_name) (
        Fields.field "required" (boolean s.required) (
          entry "min" (float_or_none s.min) (
            entry "max" (float_or_none s.max)
              (entry "description" (text_or_none s.description) Fields.end))))))

abbrev field_documents : List FieldSpec → Items
field_documents [] = nil
field_documents (s ∷ ss) = cons (field_document s) (field_documents ss)

abbrev texts : List String → Items
texts [] = nil
texts (s ∷ ss) = cons (text s) (texts ss)

abbrev pub document : Contract → Value
document c = object (
    Fields.field "name" (text c.name) (
      Fields.field "version" (integer (pos c.version)) (
        Fields.field "grain" (text c.grain) (
          Fields.field "primary_key" (array (texts c.primary_key)) (
            Fields.field "partition_key" (text c.partition_key) (
              Fields.field "sla"
                (object (Fields.field "source_lag_days" (integer c.source_lag_days) Fields.end))
                (Fields.field "fields" (array (field_documents c.fields)) (
                  Fields.field "compatibility"
                    (object (
                      Fields.field "unknown_field_action" (text c.unknown_field_action) Fields.end))
                    Fields.end))))))))

-- A contract whose values have lost their types.
abbrev pub untyped_field : FieldSpec → LoadedField
untyped_field s = record {
  name = text s.name;
  type_name = text s.type_name;
  required = boolean s.required;
  min = value_or_null (float_or_none s.min);
  max = value_or_null (float_or_none s.max);
  description = value_or_null (text_or_none s.description);
}

abbrev pub untyped : Contract → LoadedContract
untyped c = record {
  name = text c.name;
  version = pos c.version;
  grain = text c.grain;
  primary_key = map text c.primary_key;
  partition_key = text c.partition_key;
  source_lag_days = c.source_lag_days;
  fields = map untyped_field c.fields;
  unknown_field_action = text c.unknown_field_action;
}

items-texts : (ss : List String) → items (texts ss) ≡ map text ss
unfolding items
items-texts [] = refl
items-texts (s ∷ ss) = ap (λ vs. text s ∷ vs) (items-texts ss)

field_spec-document : (s : FieldSpec) → field_spec (field_document s) ≡ ok (untyped_field s)
unfolding field_spec fields String-discrete
field_spec-document s = by_options s.min s.max s.description
  where
    by_options :
        (lo hi : Option Float) (d : Option String)
        → let s' = record s { min = lo; max = hi; description = d } in
          field_spec (field_document s') ≡ ok (untyped_field s')
    by_options none none none = refl
    by_options none none (some d) = refl
    by_options none (some hi) none = refl
    by_options none (some hi) (some d) = refl
    by_options (some lo) none none = refl
    by_options (some lo) none (some d) = refl
    by_options (some lo) (some hi) none = refl
    by_options (some lo) (some hi) (some d) = refl

field_specs-documents :
    (ss : List FieldSpec) → field_specs (items (field_documents ss)) ≡ ok (map untyped_field ss)
unfolding field_specs items
field_specs-documents [] = refl
field_specs-documents (s ∷ ss) = rw (field_spec-document s, field_specs-documents ss) refl

contract_of-document :
    (int_of_text : String → Option ℤ) (c : Contract)
    → contract_of int_of_text (document c) ≡ ok (untyped c)
unfolding contract_of subscript int_of elements get_or fields String-discrete
contract_of-document int_of_text c =
    rw (field_specs-documents c.fields, items-texts c.primary_key) refl

-- When the file of a contract has the document of it, `load_contract` gives the contract back:
-- names, version, keys, lag and action, and the fields in order with their types and bounds.
pub load_contract-document :
    (int_of_text : String → Option ℤ) (files : Dict String (Result Value)) (c : Contract)
    → lookup String-discrete (contract_file c.name c.version) files ≡ some (ok (document c))
    → load_contract int_of_text files c.name c.version ≡ ok (untyped c)
unfolding load_contract contract_from rethrown
load_contract-document int_of_text files c found =
    rw (found, contract_of-document int_of_text c) refl
