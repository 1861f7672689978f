-- ===== src/Backfill.antt =====
-- airflow/dags/weather_backfill.py: the tasks of the backfill that are Python code: its plan, the
-- run of a unit of work, and the totals of its report. A day is a text between the tasks.
pub mod Plan
pub mod Units
pub mod Graph
mod Tests
use batch_api_snowflake.Base.{
  ℕ, suc, ◌+◌, ◌-◌, ltb, String, List, [], ◌∷◌, ◌++◌, map, length, Bool, if◌then◌else◌,
}
use batch_api_snowflake.Errors.{Result, ok, err, value_error}
use batch_api_snowflake.Calendar.{Date, isoformat}
use batch_api_snowflake.Models.{City}
use batch_api_snowflake.Run.{sum_of, RunSummary, Settings, run}
use batch_api_snowflake.Base.{Option, some, false}
use batch_api_snowflake.Exec.{Exec, lift, ◌>>=◌}
use batch_api_snowflake.Platform.{Platform}
use batch_api_snowflake.Contract.{Contract}
use batch_api_snowflake.Catalogue.{load_cities}
use batch_api_snowflake.Warehouse.Session.{World}

pub record WorkItem : Type 0 where
  pub city_id : String
  pub day : String

-- `MAX_BACKFILL_DAYS`
abbrev pub max_backfill_days : ℕ
max_backfill_days = 400

-- The work items of one day.
unfoldable pub day_items : List City → Date → List WorkItem
day_items [] day = []
day_items (c ∷ cities) day =
    (record { city_id = c.city_id; day = isoformat day }) ∷ day_items cities day

-- `for offset in range(span)`, with `start.add(days=offset)`.
unfoldable pub work_items : List City → Date → ℕ → List WorkItem
unfolding day_items
work_items cities start ℕ.zero = []
work_items cities start (suc span) = day_items cities start ++ work_items cities (suc start) span

-- `plan`, for the cities that `load_cities` gives.
unfoldable pub plan : Date → Date → Result (List City) → Result (List WorkItem)
unfolding work_items
plan start end cities =
    let span = suc (end - start) in
    if ltb end start
    then err value_error
    else if ltb max_backfill_days span
    then err value_error
    else (elim cities [ err e ↦ err e | ok cs ↦ ok (work_items cs start span) ])

-- `ingest_unit`: a run of the city and the day of the unit alone.
unfoldable pub ingest_unit :
    (String → Result Date)
    → Platform
    → Contract
    → Settings
    → String
    → Date
    → Option (Result (List City))
    → WorkItem
    → Bool
    → Exec World RunSummary
unfolding run load_cities
ingest_unit parse p c s run_id today catalogue u full_refresh = lift (parse u.day) >>= λ day.
    lift (load_cities catalogue (some (u.city_id ∷ []))) >>= λ cities.
    run p c s run_id today day day cities full_refresh false

-- `restatement_window_days`, for a start that is not after the end.
unfoldable pub restatement_window_days : Date → Date → ℕ
restatement_window_days start end = (end - start) + 2

pub record Totals : Type 0 where
  pub units : ℕ
  pub rows_inserted : ℕ
  pub rows_updated : ℕ
  pub partitions_skipped : ℕ
  pub rows_rejected : ℕ

-- `verify`
unfoldable pub verify : List RunSummary → Totals
verify summaries = record {
  units = length summaries;
  rows_inserted = sum_of (λ s. s.rows_inserted) summaries;
  rows_updated = sum_of (λ s. s.rows_updated) summaries;
  partitions_skipped = sum_of (λ s. s.partitions_skipped) summaries;
  rows_rejected = sum_of (λ s. s.rows_rejected) summaries;
}
