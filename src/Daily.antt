-- ===== src/Daily.antt =====
-- airflow/dags/weather_batch_daily.py: the tasks of the daily DAG that are Python code. Airflow calls
-- them, with the data interval of the run; its scheduler and its retries are left out.
pub mod Target
pub mod Graph
mod Tests
use batch_api_snowflake.Base.{
  ℕ, ◌+◌, ℤ, pos, String, Bool, false, Option, none, some, List, [], ◌∷◌, map, length, is_empty,
  if◌then◌else◌,
}
use batch_api_snowflake.Base.Dict.{Dict}
use batch_api_snowflake.Errors.{Result, ok, err, value_error, ◌>>=◌}
use batch_api_snowflake.Exec.{Exec, lift, ◌>>=◌ as ◌>>>◌}
use batch_api_snowflake.Values.{Value}
use batch_api_snowflake.Calendar.{Date, isoformat, sub_days}
use batch_api_snowflake.Platform.{Platform}
use batch_api_snowflake.Contract.{Contract}
use batch_api_snowflake.Contract.Loading.{load_contract}
use batch_api_snowflake.Models.{City}
use batch_api_snowflake.Catalogue.{load_cities}
use batch_api_snowflake.Warehouse.Session.{World}
use batch_api_snowflake.Run.{sum_of, RunSummary, Settings, run}

-- `SOURCE_LAG_DAYS`
abbrev pub source_lag_days : ℕ
source_lag_days = 2

-- `target_date`, from the date of `data_interval_start`.
unfoldable pub target_date : Date → Result String
unfolding sub_days isoformat
target_date interval_start =
    sub_days interval_start (pos source_lag_days) >>= λ target. ok (isoformat target)

-- `preflight`: the ids of the cities to fan out over, if the contract can be loaded.
unfoldable pub preflight :
    (String → Option ℤ)
    → Dict String (Result Value)
    → Option (Result (List City))
    → Result (List String)
unfolding load_contract load_cities
preflight int_of_text contracts catalogue = do
  contract ← load_contract int_of_text contracts "weather_observation" 1
  cities ← load_cities catalogue none
  if is_empty cities then err value_error else ok (map (λ c. c.city_id) cities)

module _ (parse : String → Result Date) (p : Platform) (c : Contract) (s : Settings)
    (run_id : String) where
  -- The run of one city and one day, which `ingest_city` and the backfill's `ingest_unit` make.
  unfoldable pub ingest_city :
      Date → Option (Result (List City)) → String → String → Bool → Exec World RunSummary
  unfolding run load_cities
  ingest_city today catalogue city_id day full_refresh = lift (parse day) >>> λ target.
      lift (load_cities catalogue (some (city_id ∷ []))) >>> λ cities.
      run p c s run_id today target target cities full_refresh false

pub record Totals : Type 0 where
  pub day : String
  pub cities : ℕ
  pub rows_inserted : ℕ
  pub rows_updated : ℕ
  pub rows_rejected : ℕ
  pub partitions_skipped : ℕ

-- `report`
unfoldable pub report : List RunSummary → String → Totals
report summaries day = record {
  day = day;
  cities = length summaries;
  rows_inserted = sum_of (λ s. s.rows_inserted) summaries;
  rows_updated = sum_of (λ s. s.rows_updated) summaries;
  rows_rejected = sum_of (λ s. s.rows_rejected) summaries;
  partitions_skipped = sum_of (λ s. s.partitions_skipped) summaries;
}
