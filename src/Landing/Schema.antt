-- ===== src/Landing/Schema.antt =====
-- src/pipeline/landing.py: SCHEMA, and what the records of `write_batch` have to do with it.
use batch_api_snowflake.Base.{
  ◌≡◌, refl, ℤ, pos, String, Bool, true, false, Option, none, some, List, [], ◌∷◌, ◌++◌, map, all,
  arith, String-discrete,
}
use batch_api_snowflake.Base.Dict.{keys}
use batch_api_snowflake.Values.{Float, Value, null, text, float, integer, stamp, Row, get}
use batch_api_snowflake.Platform.{Platform}
use batch_api_snowflake.Models.{model_dump, float_or_null, int_or_null}
use batch_api_snowflake.Disk.{LandedRecord}
use batch_api_snowflake.Landing.{fits_schema, code_fits}

-- `pa.string()`, `pa.float64()`, `pa.int32()` and `pa.timestamp("us", tz="UTC")`
pub data ArrowType : Type 0 where
  utf8 float64 int32 utc_timestamp : ArrowType

pub record SchemaField : Type 0 where
  pub name : String
  pub arrow_type : ArrowType
  pub nullable : Bool

abbrev required : String → ArrowType → SchemaField
required name t = record { name = name; arrow_type = t; nullable = false }

abbrev optional : String → ArrowType → SchemaField
optional name t = record { name = name; arrow_type = t; nullable = true }

-- `SCHEMA`
abbrev pub schema : List SchemaField
schema =
    required "city_id" utf8
    ∷ required "latitude" float64
    ∷ required "longitude" float64
    ∷ required "observed_at_utc" utc_timestamp
    ∷ optional "temperature_2m_c" float64
    ∷ optional "relative_humidity_2m_pct" float64
    ∷ optional "precipitation_mm" float64
    ∷ optional "wind_speed_10m_kmh" float64
    ∷ optional "weather_code" int32
    ∷ required "_ingested_at_utc" utc_timestamp
    ∷ required "_batch_id" utf8
    ∷ required "_source_payload_hash" utf8
    ∷ required "_contract_version" int32
    ∷ []

-- A record of `write_batch`, as the dict that `pa.Table.from_pylist` is given.
unfoldable pub record_row : LandedRecord → Row
unfolding model_dump
record_row r =
    model_dump r.observation
    ++ ("_ingested_at_utc", stamp r.ingested_at_utc)
      ∷ ("_batch_id", text r.batch_id)
      ∷ ("_source_payload_hash", text r.source_payload_hash)
      ∷ ("_contract_version", integer (pos r.contract_version))
      ∷ []

-- A value that a column of an Arrow type takes.
abbrev takes : Platform → ArrowType → Value → Bool
takes p utf8 (text s) = true
takes p float64 (float x) = true
takes p int32 (integer n) = p.int32_fits n
takes p utc_timestamp (stamp t) = true
takes p _ _ = false

abbrev takes_or_null : Platform → SchemaField → Value → Bool
takes_or_null p f null = f.nullable
takes_or_null p f v = takes p f.arrow_type v

-- A row has a value for a field of the schema.
unfoldable pub fits_field : Platform → Row → SchemaField → Bool
unfolding get
fits_field p row f = takes_or_null p f (get row f.name)

null_or_float :
    (p : Platform) (name : String) (x : Option Float)
    → takes_or_null p (optional name float64) (float_or_null x) ≡ true
null_or_float p name none = refl
null_or_float p name (some x) = refl

null_or_int :
    (p : Platform) (name : String) (x : Option ℤ)
    → takes_or_null p (optional name int32) (int_or_null x) ≡ code_fits p x
null_or_int p name none = refl
null_or_int p name (some n) = refl

-- The records that `write_batch` makes have exactly the columns of SCHEMA, in its order, and a
-- record has a value of the right type for each of them, a null only where the column takes one,
-- exactly when the weather code of its observation is absent or fits an int32, if the version of
-- the contract fits an int32.
pub schema-record_row :
    (p : Platform) (r : LandedRecord)
    → p.int32_fits (pos r.contract_version) ≡ true
    → (keys (record_row r) ≡ map (λ f. f.name) schema)
      × (all (fits_field p (record_row r)) schema ≡ fits_schema p r.observation)
unfolding record_row model_dump fits_field get fits_schema String-discrete
schema-record_row p r version_fits =
    let o = r.observation in
    (
      refl,
      rw
          (
            null_or_float p "temperature_2m_c" o.temperature_2m_c,
            null_or_float p "relative_humidity_2m_pct" o.relative_humidity_2m_pct,
            null_or_float p "precipitation_mm" o.precipitation_mm,
            null_or_float p "wind_speed_10m_kmh" o.wind_speed_10m_kmh,
            null_or_int p "weather_code" o.weather_code,
            version_fits,
          )
          (ground arith),
    )
