-- ===== src/Run/Tests.antt =====
-- Runs at a server that fails once.
use batch_api_snowflake.Base.{
  ◌≡◌, refl, List, [], ◌∷◌, map, true, false, all, some, none, suc, ◌+◌, ◌-◌, ◌*◌,
}
use batch_api_snowflake.Base.{String-discrete, length, arith}
use batch_api_snowflake.Errors.{ok}
use batch_api_snowflake.Client.{fetch_hourly}
use batch_api_snowflake.Calendar.{sub_days}
use batch_api_snowflake.Contract.{split_valid, validate_row}
use batch_api_snowflake.Contract.Splitting.{is_valid}
use batch_api_snowflake.Models.{
  flatten_hourly, payload_hash, model_dump, WeatherObservation, observation, point, element_at,
}
use batch_api_snowflake.Models.{coordinate, parse_time, get_field, dict_or_empty, list_or_empty}
use batch_api_snowflake.Disk.{read_file, parquet, remove_where}
use batch_api_snowflake.Landing.{final_path, fits_schema}
use batch_api_snowflake.Quality.{QualityReport, check_batch}
use batch_api_snowflake.Warehouse.Merge.{RawRow, select, merge, update_rows, insertions}
use batch_api_snowflake.Warehouse.Session.{calm}
use batch_api_snowflake.Run.{
  RunSummary, no_partitions, max_available_date, clamp, ingest_day, run_days, run_window, run,
}
use batch_api_snowflake.Landing.Records.{record_of}
use batch_api_snowflake.Run.Ingest.{gate, valid_rows, ingest_day-lands, ingest_day-loads}
use batch_api_snowflake.Run.Summary.{run-counts}
use batch_api_snowflake.Fixtures.{
  platform, two_fields, settings, berlin, august, payload, first_hour, second_hour, empty_world,
}
use batch_api_snowflake.Fixtures.{flaky, root, utc_midnight}

fetched :
    fetch_hourly flaky settings.weather_api_base_url 5 0 berlin august august ≡ (ok payload, 2)
unfolding fetch_hourly dict_or_empty get_field String-discrete list_or_empty
fetched = refl

pub two_hours : flatten_hourly platform berlin payload ≡ ok (first_hour ∷ second_hour ∷ [])
unfolding flatten_hourly String-discrete dict_or_empty get_field list_or_empty observation point
    element_at coordinate parse_time
two_hours = refl

abbrev pub hours : List WeatherObservation
hours = first_hour ∷ second_hour ∷ []

abbrev pub clean : QualityReport
clean = record {
  city_id = "berlin";
  observation_date = august;
  total_rows = 2;
  accepted_rows = 2;
  rejected_rows = 0;
  unknown_fields =
      "latitude" ∷ "longitude" ∷ "observed_at_utc" ∷ "precipitation_mm" ∷ "temperature_2m_c"
      ∷ "weather_code" ∷ "wind_speed_10m_kmh" ∷ [];
  quarantine_path = none;
}

pub passes : (gate two_fields settings berlin august hours []).0 ≡ ok (map model_dump hours, clean)
unfolding check_batch split_valid validate_row model_dump String-discrete
passes = refl

pub fits : all (fits_schema platform) (valid_rows two_fields hours) ≡ true
unfolding fits_schema is_valid validate_row model_dump String-discrete
fits = refl

ingest_day-lands_example :
    let (result, after) =
      ingest_day platform two_fields settings "run" berlin august false false empty_world in
    (result ≡ ok (0, 0, 0))
    × (read_file (final_path platform root "berlin" august) after.disk
        ≡ some (
            parquet (
              map
                (record_of platform utc_midnight "berlin" august (payload_hash platform payload))
                (valid_rows two_fields hours))))
ingest_day-lands_example =
    ingest_day-lands platform two_fields settings "run" berlin august false payload 2 hours
      (map model_dump hours) clean empty_world fetched two_hours (λ e. cc) passes fits

abbrev pub new_rows : List RawRow
new_rows = map select (
    map (record_of platform utc_midnight "berlin" august (payload_hash platform payload))
      (valid_rows two_fields hours))

pub inserted : merge [] new_rows ≡ ok (new_rows, 2, 0)
unfolding merge select String-discrete update_rows insertions is_valid validate_row model_dump
inserted = refl

ingest_day-loads_example :
    let (result, after) =
      ingest_day platform two_fields settings "run" berlin august true false (calm empty_world) in
    (result ≡ ok (2, 0, 0)) × (after.committed.raw ≡ new_rows)
ingest_day-loads_example =
    ingest_day-loads platform two_fields settings "run" berlin august payload 2 hours
      (map model_dump hours) clean new_rows 2 0 empty_world fetched refl two_hours (λ e. cc) passes
      fits inserted

-- The newest day that the producer has two days after 2026-08-20.
pub newest : max_available_date (august + 2) two_fields ≡ ok august
unfolding max_available_date sub_days
newest = refl

abbrev one_skipped : RunSummary
one_skipped = record no_partitions { partitions_attempted = 1; partitions_skipped = 1 }

lands :
    (ingest_day platform two_fields settings "run" berlin august false false empty_world).0
    ≡ ok (0, 0, 0)
lands =
    (ingest_day-lands platform two_fields settings "run" berlin august false payload 2 hours
      (map model_dump hours) clean empty_world fetched two_hours (λ e. cc) passes fits).0

day_landed :
    (run_days platform two_fields settings "run"
      (august ∷ [])
      false
      false
      (berlin ∷ [])
      no_partitions
      empty_world).0
    ≡ ok one_skipped
unfolding run_days
day_landed = rw lands refl

window_landed :
    (run_window platform two_fields settings "run" august august
      (berlin ∷ [])
      false
      true
      empty_world).0
    ≡ ok one_skipped
unfolding run_window remove_where
window_landed = day_landed

landed_only :
    (run platform two_fields settings "run"
      (august + 2)
      august
      (august + 1)
      (berlin ∷ [])
      false
      true
      empty_world).0
    ≡ ok one_skipped
unfolding run
landed_only = rw newest window_landed

run-counts_example :
    (0 + 1 ≡ 1) × (1 ≡ (suc (clamp (august + 1) august) - august) * length (berlin ∷ []))
run-counts_example =
    run-counts platform two_fields settings "run" (august + 2) august (august + 1) august
      (berlin ∷ []) false true empty_world one_skipped newest (unfold clamp in omega arith)
      landed_only
