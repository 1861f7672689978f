-- ===== src/Contract/Tests.antt =====
-- Runs of the contract, and its theorems at concrete data.
use batch_api_snowflake.Base.{◌≡◌, refl, ◌↔◌, pos, none, some}
use batch_api_snowflake.Base.{List, [], ◌∷◌, String-discrete, decimal}
use batch_api_snowflake.Base.Dict.{lookup}
use batch_api_snowflake.Errors.{ok, err, value_error, contract_error}
use batch_api_snowflake.Values.{fin, float, text, object, Fields, Row, float_lt}
use batch_api_snowflake.Contract.{validate_row, split_valid, Rejected, above_maximum}
use batch_api_snowflake.Contract.Conformance.{IsValid, validate_row-eq-nil_iff}
use batch_api_snowflake.Contract.Loading.{load_contract, contract_file}
use batch_api_snowflake.Contract.Documents.{document, untyped, load_contract-document}
use batch_api_snowflake.Fixtures.{two_fields, good_row, wet_row}
use batch_api_snowflake.Contract.Splitting.{Split, split_valid-Split, HasKnownTypes}

out_of_range :
    validate_row two_fields wet_row
    ≡ ok (above_maximum "relative_humidity_2m_pct" (float (fin (pos 940))) (fin (pos 100)) ∷ [])
unfolding validate_row String-discrete float_lt
out_of_range = refl

abbrev batch_out : List Row × List Rejected
batch_out = (
  good_row ∷ [],
  (wet_row, above_maximum "relative_humidity_2m_pct" (float (fin (pos 940))) (fin (pos 100)) ∷ [])
      ∷ [],
)

batch_splits : split_valid two_fields (wet_row ∷ good_row ∷ []) ≡ ok batch_out
unfolding split_valid validate_row String-discrete float_lt
batch_splits = refl

split_valid-Split_example : Split two_fields (wet_row ∷ good_row ∷ []) batch_out
split_valid-Split_example =
    split_valid-Split two_fields (wet_row ∷ good_row ∷ []) batch_out batch_splits

validate_row-eq-nil_iff_example :
    (validate_row two_fields good_row ≡ ok []) ↔ IsValid two_fields good_row
validate_row-eq-nil_iff_example = validate_row-eq-nil_iff two_fields good_row

known_types : HasKnownTypes two_fields.fields
unfolding String-discrete lookup
known_types = ((λ e. cc), ((λ e. cc), tt))

contract_file_name : contract_file "weather_observation" 1 ≡ "weather_observation.v1.yml"
unfolding decimal
contract_file_name = refl

document_found :
    lookup String-discrete "weather_observation.v1.yml"
      (("weather_observation.v1.yml", ok (document two_fields)) ∷ [])
    ≡ some (ok (document two_fields))
unfolding lookup String-discrete
document_found = refl

load_contract-document_example :
    load_contract
      (λ s. none)
      (("weather_observation.v1.yml", ok (document two_fields)) ∷ [])
      "weather_observation"
      1
    ≡ ok (untyped two_fields)
unfolding decimal
load_contract-document_example =
    load_contract-document (λ s. none)
      (("weather_observation.v1.yml", ok (document two_fields)) ∷ []) two_fields document_found

-- A version that is no number raises ValueError, a missing one ContractError.
unreadable_version :
    load_contract
      (λ s. none)
      ((
        "c.v1.yml",
        ok (
            object
              (Fields.field "name" (text "c") (Fields.field "version" (text "one") Fields.end))),
      )
        ∷ [])
      "c"
      1
    ≡ err value_error
unfolding load_contract String-discrete decimal
unreadable_version = refl

missing_version :
    load_contract
      (λ s. none)
      (("c.v1.yml", ok (object (Fields.field "name" (text "c") Fields.end))) ∷ [])
      "c"
      1
    ≡ err (contract_error "c.v1.yml")
unfolding load_contract String-discrete decimal
missing_version = refl
