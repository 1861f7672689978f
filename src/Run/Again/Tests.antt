-- ===== src/Run/Again/Tests.antt =====
-- Two runs at a server that always sends the payload of two hours.
use batch_api_snowflake.Base.{
  ◌≡◌, refl, ap, ℕ, suc, ◌+◌, [], ◌∷◌, map, true, false, arith, some, String-discrete,
}
use batch_api_snowflake.Errors.{ok}
use batch_api_snowflake.Values.{Fields, object}
use batch_api_snowflake.Calendar.{Date}
use batch_api_snowflake.Models.{City, model_dump, get_field, dict_or_empty, list_or_empty}
use batch_api_snowflake.Client.{response, fetch_hourly}
use batch_api_snowflake.Disk.{remove_where}
use batch_api_snowflake.Landing.{cleanup_temp_files}
use batch_api_snowflake.Warehouse.Session.{World, calm, call}
use batch_api_snowflake.Run.{
  RunSummary, no_partitions, date_range, clamp, ingest_day, run_cities, run_days, run_window, run,
  connected_to, on_disk,
}
use batch_api_snowflake.Run.Ingest.{ingest_day-loads}
use batch_api_snowflake.Run.Again.{IsSteadyOver}
use batch_api_snowflake.Run.Again.Twice.{IsComplete, run-IsComplete, run_twice}
use batch_api_snowflake.Run.Tests.{
  newest, two_hours, passes, fits, inserted, hours, clean, new_rows,
}
use batch_api_snowflake.Fixtures.{
  platform, two_fields, settings, berlin, august, payload, empty_world,
}

abbrev pub steady : World
steady = record empty_world { server = λ i asked. response 200 (some (object payload)) }

abbrev pub same_payload : City → Date → Fields
same_payload city day = payload

pub steady_payload :
    (i : ℕ)
    → (fetch_hourly steady.server settings.weather_api_base_url 5 i berlin august august)
      ≡ (ok payload, suc i)
unfolding fetch_hourly dict_or_empty get_field String-discrete list_or_empty
steady_payload i = refl

abbrev pub one_loaded : RunSummary
one_loaded = record no_partitions {
  partitions_attempted = 1;
  partitions_loaded = 1;
  rows_inserted = 2;
}

loads :
    (ingest_day platform two_fields settings "run" berlin august true false (calm steady)).0
    ≡ ok (2, 0, 0)
loads =
    (ingest_day-loads platform two_fields settings "run" berlin august payload 1 hours
      (map model_dump hours) clean new_rows 2 0 steady (steady_payload 0) refl two_hours (λ e. cc)
      passes fits inserted).0

pub window_loaded :
    (run_window platform two_fields settings "run" august august
      (berlin ∷ [])
      false
      false
      (calm steady)).0
    ≡ ok one_loaded
unfolding run_window remove_where run_days run_cities connected_to call on_disk cleanup_temp_files
window_loaded = rw loads refl

august_only : date_range august (clamp (august + 1) august) ≡ august ∷ []
unfolding date_range clamp
august_only = refl

sends_one :
    IsSteadyOver settings steady.server same_payload
      (berlin ∷ [])
      august
      (clamp (august + 1) august)
sends_one = rw august_only ((λ i. ap (λ r. r.0) (steady_payload i), tt), tt)

returns :
    (run platform two_fields settings "run"
      (august + 2)
      august
      (august + 1)
      (berlin ∷ [])
      false
      false
      (calm steady)).0
    ≡ ok one_loaded
unfolding run
returns = rw newest window_loaded

run_twice_example :
    let between =
      (run platform two_fields settings "run"
        (august + 2)
        august
        (august + 1)
        (berlin ∷ [])
        false
        false
        (calm steady)).1 in
    let (again, after) =
      run platform two_fields settings "run again"
        (august + 2)
        august
        (august + 1)
        (berlin ∷ [])
        false
        false
        (calm between) in
    (again ≡ ok (record no_partitions { partitions_attempted = 1; partitions_skipped = 1 }))
    × (after.committed ≡ between.committed)
    × (after.current ≡ between.current)
    × (after.stage ≡ between.stage)
    × (after.disk ≡ (cleanup_temp_files settings.landing_zone_root between.disk).1)
run_twice_example =
    run_twice platform two_fields settings same_payload (berlin ∷ []) "run" "run again" (august + 2)
      august (august + 1) august false (calm steady) one_loaded newest sends_one
      (unfold clamp in omega arith) returns

run-IsComplete_example :
    IsComplete platform same_payload steady.server
      (date_range august (clamp (august + 1) august))
      (berlin ∷ [])
      (run platform two_fields settings "run"
        (august + 2)
        august
        (august + 1)
        (berlin ∷ [])
        false
        false
        (calm steady)).1
run-IsComplete_example =
    run-IsComplete platform two_fields settings same_payload (berlin ∷ []) "run" (august + 2) august
      (august + 1) august false (calm steady) one_loaded newest sends_one
      (unfold clamp in omega arith) returns
