-- ===== src/Warehouse/Merge.antt =====
-- src/pipeline/warehouse/ddl/003_merge.sql: the upsert on the contract's primary key.
pub mod Idempotent
pub mod Keys
pub mod Refinement
mod Tests
use batch_api_snowflake.Base.{
  ℕ, ◌+◌, ◌*◌, ◌/◌, suc, ℤ, pos, negsuc, sub_ℕ, String, Bool, true, false, not, ◌&&◌,
}
use batch_api_snowflake.Base.{
  Option, none, some, List, [], ◌∷◌, ◌++◌, length, keep, any, map, str_eq, eqb, ℕ_discrete,
}
use batch_api_snowflake.Base.{if◌then◌else◌}
use batch_api_snowflake.Errors.{Result, ok, err, driver_error, ◌>>=◌}
use batch_api_snowflake.Values.{Float}
use batch_api_snowflake.Models.{WeatherObservation}
use batch_api_snowflake.Disk.{LandedRecord}

unfoldable pub ℤ-discrete : Discrete ℤ
ℤ-discrete = hlevel ℕ_discrete

-- A row of RAW.WEATHER_OBSERVATION. A TIMESTAMP_NTZ is the wall-clock reading in microseconds, and
-- a DATE the ordinal of its day.
pub record RawRow : Type 0 where
  pub city_id : String
  pub latitude : Float
  pub longitude : Float
  pub observed_at_utc : ℤ
  pub observation_date : ℤ
  pub temperature_2m_c : Option Float
  pub relative_humidity_2m_pct : Option Float
  pub precipitation_mm : Option Float
  pub wind_speed_10m_kmh : Option Float
  pub weather_code : Option ℤ
  pub ingested_at_utc : ℤ
  pub batch_id : String
  pub source_payload_hash : String
  pub contract_version : ℕ

abbrev micros_per_day : ℕ
micros_per_day = 86400000000

-- `TO_DATE(t)`
unfoldable pub to_date : ℤ → ℤ
to_date (pos n) = pos (suc (n / micros_per_day))
to_date (negsuc n) = sub_ℕ 0 (n / micros_per_day)

-- The SELECT over one staged record.
unfoldable pub select : LandedRecord → RawRow
unfolding to_date
select r = record {
  city_id = r.observation.city_id;
  latitude = r.observation.latitude;
  longitude = r.observation.longitude;
  observed_at_utc = r.observation.observed_at_utc.wall;
  observation_date = to_date r.observation.observed_at_utc.wall;
  temperature_2m_c = r.observation.temperature_2m_c;
  relative_humidity_2m_pct = r.observation.relative_humidity_2m_pct;
  precipitation_mm = r.observation.precipitation_mm;
  wind_speed_10m_kmh = r.observation.wind_speed_10m_kmh;
  weather_code = r.observation.weather_code;
  ingested_at_utc = r.ingested_at_utc.wall;
  batch_id = r.batch_id;
  source_payload_hash = r.source_payload_hash;
  contract_version = r.contract_version;
}

-- The ON condition.
unfoldable pub same_key : RawRow → RawRow → Bool
same_key t s = str_eq t.city_id s.city_id && eqb ℤ-discrete t.observed_at_utc s.observed_at_utc

-- The source rows for which WHEN MATCHED AND ... fires on a target row.
unfoldable pub restatements : List RawRow → RawRow → List RawRow
restatements src t =
    keep (λ s. same_key t s && not (str_eq t.source_payload_hash s.source_payload_hash)) src

-- UPDATE SET: every column but the two of the key.
unfoldable pub updated : RawRow → RawRow → RawRow
updated t s = record s { city_id = t.city_id; observed_at_utc = t.observed_at_utc }

apply_updates : RawRow → List RawRow → Result (RawRow × ℕ)
unfolding updated
apply_updates t [] = ok (t, 0)
apply_updates t (s ∷ []) = ok (updated t s, 1)
apply_updates t (s ∷ s' ∷ more) =
    err (driver_error "100090: Duplicate row detected during DML action")

-- The matched half: a target row with several restatements is an error, as it is in Snowflake
-- where ERROR_ON_NONDETERMINISTIC_MERGE has its default.
unfoldable pub update_rows : List RawRow → List RawRow → Result (List RawRow × ℕ)
unfolding apply_updates
update_rows src [] = ok ([], 0)
update_rows src (t ∷ tgt) = do
  row ← apply_updates t (restatements src t)
  rest ← update_rows src tgt
  ok (row.0 ∷ rest.0, row.1 + rest.1)

-- WHEN NOT MATCHED: the source rows whose key the target lacks.
unfoldable pub insertions : List RawRow → List RawRow → List RawRow
insertions tgt src = keep (λ s. not (any (λ t. same_key t s) tgt)) src

-- The table after the statement, and the rows inserted and updated that the driver reports.
unfoldable pub merge : List RawRow → List RawRow → Result (List RawRow × ℕ × ℕ)
merge tgt src = do
  kept ← update_rows src tgt
  ok (kept.0 ++ insertions tgt src, length (insertions tgt src), kept.1)
