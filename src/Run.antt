-- ===== src/Run.antt =====
-- src/pipeline/run.py: fetch, validate, land and load, for every day and every city.
pub mod Window
pub mod Hours
pub mod Clean
pub mod Unique
pub mod OneDay
pub mod Accepted
pub mod Ingest
pub mod Summary
pub mod Again
pub mod Audit
pub mod Tests
mod UniqueTests
use batch_api_snowflake.Base.{
  ℕ, zero, suc, ◌+◌, ◌-◌, ◌==◌, ltb, leb, String, Bool, true, false, not, ◌&&◌,
}
use batch_api_snowflake.Base.{
  Option, none, some, List, [], ◌∷◌, ◌++◌, map, length, keep, contains, is_empty,
}
use batch_api_snowflake.Base.{if◌then◌else◌, String-discrete}
use batch_api_snowflake.Errors.{Error, Result, ok, err, value_error}
use batch_api_snowflake.Exec.{Exec, pure, raise, lift, ◌>>=◌, ◌>>◌}
use batch_api_snowflake.Values.{Datetime, Fields, Row, Value-discrete}
use batch_api_snowflake.Calendar.{Date, sub_days}
use batch_api_snowflake.Platform.{Platform}
use batch_api_snowflake.Contract.{Contract}
use batch_api_snowflake.Models.{City, WeatherObservation, flatten_hourly, payload_hash, model_dump}
use batch_api_snowflake.Client.{fetch_hourly}
use batch_api_snowflake.Disk.{FilePath, Disk}
use batch_api_snowflake.Landing.{LandedBatch, write_batch, clear_partition, cleanup_temp_files}
use batch_api_snowflake.Quality.{QualityReport, check_batch, default_max_reject_ratio}
use batch_api_snowflake.Warehouse.Session.{World, call}
use batch_api_snowflake.Warehouse.Loader.{LoadResult, already_loaded, load_batch}

pub record RunSummary : Type 0 where
  pub partitions_attempted : ℕ
  pub partitions_loaded : ℕ
  pub partitions_skipped : ℕ
  pub rows_inserted : ℕ
  pub rows_updated : ℕ
  pub rows_rejected : ℕ

-- `RunSummary()`
abbrev pub no_partitions : RunSummary
no_partitions = record {
  partitions_attempted = 0;
  partitions_loaded = 0;
  partitions_skipped = 0;
  rows_inserted = 0;
  rows_updated = 0;
  rows_rejected = 0;
}

-- `sum(s.get(key, 0) for s in summaries)`, of the summaries of several runs.
abbrev pub sum_of : (RunSummary → ℕ) → List RunSummary → ℕ
sum_of f [] = 0
sum_of f (s ∷ summaries) = f s + sum_of f summaries

-- The settings that a run reads. The clock shows the same time all through a run.
pub record Settings : Type 0 where
  pub landing_zone_root : FilePath
  pub weather_api_base_url : String
  pub weather_api_max_retries : ℕ
  pub now : Datetime

unfoldable pub dates_from : ℕ → Date → Date → List Date
dates_from zero current end = []
dates_from (suc fuel) current end =
    let rest = dates_from fuel (suc current) end in if leb current end then current ∷ rest else []

-- `date_range`, for an `end` before `date.max`; the fuel is the number of days of the window.
unfoldable pub date_range : Date → Date → List Date
unfolding dates_from
date_range start end = dates_from (suc end - start) start end

-- `max_available_date`
unfoldable pub max_available_date : Date → Contract → Result Date
max_available_date today c = sub_days today c.source_lag_days

pub Row-discrete : Discrete Row
Row-discrete = hlevel (String-discrete, Value-discrete)

-- `[obs for obs in observations if obs.model_dump() in accepted_rows]`
unfoldable pub accepted_among : List Row → List WeatherObservation → List WeatherObservation
unfolding model_dump
accepted_among rows observations =
    keep (λ o. contains Row-discrete rows (model_dump o)) observations

-- A change of the disk, as one of the world.
unfoldable pub on_disk : {A : Type 0} → Exec Disk A → Exec World A
on_disk m w = let (r, d) = m w.disk in (r, record w { disk = d })

-- `client.fetch_hourly(city, day, day)`
unfoldable pub fetch_day : Settings → City → Date → Exec World Fields
unfolding fetch_hourly
fetch_day s city day w =
    let (r, i) =
      fetch_hourly w.server s.weather_api_base_url s.weather_api_max_retries w.requests city day
        day in
    (r, record w { requests = i })

-- `Path(settings.landing_zone_root).parent / "quarantine"`
unfoldable pub quarantine_root : FilePath → FilePath
quarantine_root [] = "quarantine" ∷ []
quarantine_root (x ∷ []) = "quarantine" ∷ []
quarantine_root (x ∷ y ∷ path) = x ∷ quarantine_root (y ∷ path)

-- What a partition adds to the summary.
unfoldable pub add_partition : RunSummary → ℕ × ℕ × ℕ → RunSummary
add_partition t (inserted, updated, rejected) =
    let skipped = inserted == 0 && updated == 0 in
    record {
      partitions_attempted = suc t.partitions_attempted;
      partitions_loaded = if skipped then t.partitions_loaded else suc t.partitions_loaded;
      partitions_skipped = if skipped then suc t.partitions_skipped else t.partitions_skipped;
      rows_inserted = t.rows_inserted + inserted;
      rows_updated = t.rows_updated + updated;
      rows_rejected = t.rows_rejected + rejected;
    }

abbrev pub connect_effect : Exec World (Unit {0})
connect_effect w = (ok tt, record w { current = w.committed })

-- `with snowflake_connection(...)`: closing gives up what is not committed.
unfoldable pub connected_to : {A : Type 0} → Exec World A → Exec World A
unfolding call
connected_to m = do
  call connect_effect
  λ w. let (r, w') = m w in (r, record w' { current = w'.committed })

-- The end of the window, as it is clamped.
unfoldable pub clamp : Date → Date → Date
clamp end ceiling = if ltb ceiling end then ceiling else end

module _ (p : Platform) (c : Contract) (s : Settings) (run_id : String) where
  -- The load of a landed batch, or the return without one when there is no connection.
  unfoldable pub load_landed : Bool → ℕ → QualityReport → LandedBatch → Exec World (ℕ × ℕ × ℕ)
  unfolding load_batch
  load_landed false fetched report batch = pure (0, 0, report.rejected_rows)
  load_landed true fetched report batch = do
    result ← load_batch batch run_id fetched report.rejected_rows s.now s.now
    pure (result.rows_inserted, result.rows_updated, report.rejected_rows)

  -- `ingest_day` from `observations` on, when there are some.
  unfoldable pub land_observations :
      City → Date → String → Bool → Bool → List WeatherObservation → Exec World (ℕ × ℕ × ℕ)
  unfolding on_disk check_batch write_batch clear_partition accepted_among load_landed model_dump
  land_observations city day hash connected full_refresh observations = do
    checked ← on_disk (
        check_batch c (map model_dump observations) city.city_id day
          (quarantine_root s.landing_zone_root) s.now default_max_reject_ratio)
    if full_refresh then on_disk (clear_partition s.landing_zone_root day city.city_id) else pure tt
    batch ← on_disk (
        write_batch p s.landing_zone_root s.now city.city_id day
          (accepted_among checked.0 observations) hash)
    load_landed connected (length observations) checked.1 batch

  -- `ingest_day` after the guard.
  unfoldable pub ingest_payload : City → Date → Fields → Bool → Bool → Exec World (ℕ × ℕ × ℕ)
  unfolding flatten_hourly land_observations
  ingest_payload city day payload connected full_refresh = do
    observations ← lift (flatten_hourly p city payload)
    if is_empty observations
        then raise value_error
        else land_observations city day (payload_hash p payload) connected full_refresh observations

  -- The guard of `ingest_day`: only a run with a connection and without --full-refresh asks.
  unfoldable pub is_unchanged : City → Date → Fields → Bool → Bool → Exec World Bool
  unfolding already_loaded
  is_unchanged city day payload connected full_refresh =
      if connected && not full_refresh
      then already_loaded city.city_id day (payload_hash p payload)
      else pure false

  -- `ingest_day`: the rows inserted, updated and rejected.
  unfoldable pub ingest_day : City → Date → Bool → Bool → Exec World (ℕ × ℕ × ℕ)
  unfolding fetch_day is_unchanged ingest_payload
  ingest_day city day connected full_refresh = do
    payload ← fetch_day s city day
    unchanged ← is_unchanged city day payload connected full_refresh
    if unchanged then pure (0, 0, 0) else ingest_payload city day payload connected full_refresh

  -- The loop over the cities, for one day.
  unfoldable pub run_cities : Date → Bool → Bool → List City → RunSummary → Exec World RunSummary
  unfolding ingest_day add_partition
  run_cities day connected full_refresh [] t = pure t
  run_cities day connected full_refresh (city ∷ cities) t = do
    counts ← ingest_day city day connected full_refresh
    run_cities day connected full_refresh cities (add_partition t counts)

  -- The loop over the days.
  unfoldable pub run_days : List Date → Bool → Bool → List City → RunSummary → Exec World RunSummary
  unfolding run_cities
  run_days [] connected full_refresh cities t = pure t
  run_days (day ∷ days) connected full_refresh cities t = do
    t' ← run_cities day connected full_refresh cities t
    run_days days connected full_refresh cities t'

  -- `run` from `cleanup_temp_files` on.
  unfoldable pub run_window : Date → Date → List City → Bool → Bool → Exec World RunSummary
  unfolding on_disk run_days date_range connected_to cleanup_temp_files
  run_window start end cities full_refresh land_only = do
    removed ← on_disk (cleanup_temp_files s.landing_zone_root)
    if land_only
        then run_days (date_range start end) false full_refresh cities no_partitions
        else connected_to (run_days (date_range start end) true full_refresh cities no_partitions)

  -- `run`, after the contract and the cities are loaded.
  unfoldable pub run : Date → Date → Date → List City → Bool → Bool → Exec World RunSummary
  unfolding max_available_date clamp run_window
  run today start end cities full_refresh land_only = do
    ceiling ← lift (max_available_date today c)
    if ltb (clamp end ceiling) start
        then pure no_partitions
        else run_window start (clamp end ceiling) cities full_refresh land_only
