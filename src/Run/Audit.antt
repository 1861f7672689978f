-- ===== src/Run/Audit.antt =====
-- A run and the audit: whatever fails, no row of it is lost.
use batch_api_snowflake.Base.{
  ℕ, String, Bool, true, false, List, [], ◌∷◌, length, is_empty, ltb, if◌then◌else◌,
}
use batch_api_snowflake.Errors.{value_error}
use batch_api_snowflake.Exec.{Exec, pure, raise, lift, Preserves, >>=-Preserves}
use batch_api_snowflake.Values.{Fields}
use batch_api_snowflake.Calendar.{Date}
use batch_api_snowflake.Platform.{Platform}
use batch_api_snowflake.Contract.{Contract}
use batch_api_snowflake.Models.{City, WeatherObservation, flatten_hourly, payload_hash}
use batch_api_snowflake.Disk.{Disk}
use batch_api_snowflake.Landing.{LandedBatch, write_batch, clear_partition, cleanup_temp_files}
use batch_api_snowflake.Quality.{QualityReport}
use batch_api_snowflake.Warehouse.Session.{AuditRow, World, call, select_audit}
use batch_api_snowflake.Warehouse.Loader.{load_batch, already_loaded}
use batch_api_snowflake.Warehouse.Loader.Kept.{Has, Has-IsStable, select_audit-Has}
use batch_api_snowflake.Warehouse.Loader.Stable.{call-Preserves, load_batch-Preserves}
use batch_api_snowflake.Run.{
  Settings, RunSummary, no_partitions, accepted_among, on_disk, fetch_day, is_unchanged,
  load_landed, land_observations, ingest_payload, ingest_day, run_cities, run_days, run_window, run,
  add_partition, date_range, connected_to, connect_effect, max_available_date, clamp,
}
use batch_api_snowflake.Run.Ingest.{gate}

module _ (q : AuditRow → Bool) where
  on_disk-Has : {A : Type 0} (m : Exec Disk A) → Preserves (Has q) (on_disk m)
  unfolding on_disk
  on_disk-Has m w h = record { committed = h.committed; current = h.current }

  module _ (p : Platform) (c : Contract) (s : Settings) (run_id : String) where
    load_landed-Has :
        (connected : Bool) (fetched : ℕ) (report : QualityReport) (b : LandedBatch)
        → Preserves (Has q) (load_landed p c s run_id connected fetched report b)
    unfolding load_landed
    load_landed-Has false fetched report b = λ w h. h
    load_landed-Has true fetched report b =
        >>=-Preserves (Has q) (load_batch b run_id fetched report.rejected_rows s.now s.now) _
          (load_batch-Preserves (Has q) (Has-IsStable q) b run_id fetched report.rejected_rows s.now
            s.now)
          (λ l w h. h)

    refreshed-Has :
        (city : City) (day : Date) (full_refresh : Bool)
        → Preserves (Has q) (
            if full_refresh
            then on_disk (clear_partition s.landing_zone_root day city.city_id)
            else pure tt)
    refreshed-Has city day true = on_disk-Has (clear_partition s.landing_zone_root day city.city_id)
    refreshed-Has city day false = λ w h. h

    land_observations-Has :
        (city : City) (day : Date) (hash : String) (connected full_refresh : Bool)
        (os : List WeatherObservation)
        → Preserves (Has q) (land_observations p c s run_id city day hash connected full_refresh os)
    unfolding land_observations
    land_observations-Has city day hash connected full_refresh os =
        >>=-Preserves (Has q) (on_disk (gate c s city day os)) _
          (on_disk-Has (gate c s city day os))
          (λ checked.
            >>=-Preserves (Has q)
              (if full_refresh
                then on_disk (clear_partition s.landing_zone_root day city.city_id)
                else pure tt)
              _ (refreshed-Has city day full_refresh)
              (λ done.
                let writing =
                  write_batch p s.landing_zone_root s.now city.city_id day
                    (accepted_among checked.0 os) hash in
                >>=-Preserves (Has q) (on_disk writing) _ (on_disk-Has writing)
                  (load_landed-Has connected (length os) checked.1)))

    some_rows-Has :
        (city : City) (day : Date) (hash : String) (connected full_refresh : Bool)
        (os : List WeatherObservation)
        → Preserves (Has q) (
            if is_empty os
            then raise value_error
            else land_observations p c s run_id city day hash connected full_refresh os)
    some_rows-Has city day hash connected full_refresh [] = λ w h. h
    some_rows-Has city day hash connected full_refresh (o ∷ os) =
        land_observations-Has city day hash connected full_refresh (o ∷ os)

    ingest_payload-Has :
        (city : City) (day : Date) (payload : Fields) (connected full_refresh : Bool)
        → Preserves (Has q) (ingest_payload p c s run_id city day payload connected full_refresh)
    unfolding ingest_payload
    ingest_payload-Has city day payload connected full_refresh =
        >>=-Preserves (Has q) (lift (flatten_hourly p city payload)) _ (λ w h. h)
          (some_rows-Has city day (payload_hash p payload) connected full_refresh)

    is_unchanged-Has :
        (city : City) (day : Date) (payload : Fields) (connected full_refresh : Bool)
        → Preserves (Has q) (is_unchanged p c s run_id city day payload connected full_refresh)
    unfolding is_unchanged already_loaded
    is_unchanged-Has city day payload false full_refresh = λ w h. h
    is_unchanged-Has city day payload true true = λ w h. h
    is_unchanged-Has city day payload true false =
        >>=-Preserves (Has q) select_audit _ (select_audit-Has q) (λ rows w h. h)

    unless_unchanged-Has :
        (city : City) (day : Date) (payload : Fields) (connected full_refresh unchanged : Bool)
        → Preserves (Has q) (
            if unchanged
            then pure (0, 0, 0)
            else ingest_payload p c s run_id city day payload connected full_refresh)
    unless_unchanged-Has city day payload connected full_refresh true = λ w h. h
    unless_unchanged-Has city day payload connected full_refresh false =
        ingest_payload-Has city day payload connected full_refresh

    ingest_day-Has :
        (city : City) (day : Date) (connected full_refresh : Bool)
        → Preserves (Has q) (ingest_day p c s run_id city day connected full_refresh)
    unfolding ingest_day fetch_day
    ingest_day-Has city day connected full_refresh =
        >>=-Preserves (Has q) (fetch_day s city day) _
          (λ w h. record { committed = h.committed; current = h.current })
          (λ payload.
            >>=-Preserves (Has q)
              (is_unchanged p c s run_id city day payload connected full_refresh) _
              (is_unchanged-Has city day payload connected full_refresh)
              (unless_unchanged-Has city day payload connected full_refresh))

    run_cities-Has :
        (day : Date) (connected full_refresh : Bool) (cities : List City) (t : RunSummary)
        → Preserves (Has q) (run_cities p c s run_id day connected full_refresh cities t)
    unfolding run_cities
    run_cities-Has day connected full_refresh [] t = λ w h. h
    run_cities-Has day connected full_refresh (city ∷ cities) t =
        >>=-Preserves (Has q) (ingest_day p c s run_id city day connected full_refresh) _
          (ingest_day-Has city day connected full_refresh)
          (λ counts. run_cities-Has day connected full_refresh cities (add_partition t counts))

    run_days-Has :
        (days : List Date) (connected full_refresh : Bool) (cities : List City) (t : RunSummary)
        → Preserves (Has q) (run_days p c s run_id days connected full_refresh cities t)
    unfolding run_days
    run_days-Has [] connected full_refresh cities t = λ w h. h
    run_days-Has (day ∷ days) connected full_refresh cities t =
        >>=-Preserves (Has q) (run_cities p c s run_id day connected full_refresh cities t) _
          (run_cities-Has day connected full_refresh cities t)
          (run_days-Has days connected full_refresh cities)

    connected_to-Has :
        {A : Type 0} (m : Exec World A) → Preserves (Has q) m → Preserves (Has q) (connected_to m)
    unfolding connected_to
    connected_to-Has m own =
        >>=-Preserves (Has q) (call connect_effect) _
          (call-Preserves (Has q) (Has-IsStable q) connect_effect
            (λ w h. record { committed = h.committed; current = h.committed }))
          (λ done w h.
            let kept = own w h in record { committed = kept.committed; current = kept.committed })

    land_or_load-Has :
        (start end : Date) (cities : List City) (full_refresh land_only : Bool)
        → Preserves (Has q) (
            if land_only
            then run_days p c s run_id
                (date_range start end)
                false
                full_refresh
                cities
                no_partitions
            else connected_to (
                run_days p c s run_id
                  (date_range start end)
                  true
                  full_refresh
                  cities
                  no_partitions))
    land_or_load-Has start end cities full_refresh true =
        run_days-Has (date_range start end) false full_refresh cities no_partitions
    land_or_load-Has start end cities full_refresh false =
        connected_to-Has
          (run_days p c s run_id (date_range start end) true full_refresh cities no_partitions)
          (run_days-Has (date_range start end) true full_refresh cities no_partitions)

    run_window-Has :
        (start end : Date) (cities : List City) (full_refresh land_only : Bool)
        → Preserves (Has q) (run_window p c s run_id start end cities full_refresh land_only)
    unfolding run_window
    run_window-Has start end cities full_refresh land_only w h =
        let cleaned = on_disk (cleanup_temp_files s.landing_zone_root) w in
        land_or_load-Has start end cities full_refresh land_only cleaned.1
          (on_disk-Has (cleanup_temp_files s.landing_zone_root) w h)

    unless_done-Has :
        (done : Bool) (start end : Date) (cities : List City) (full_refresh land_only : Bool)
        → Preserves (Has q) (
            if done
            then pure no_partitions
            else run_window p c s run_id start end cities full_refresh land_only)
    unless_done-Has true start end cities full_refresh land_only = λ w h. h
    unless_done-Has false start end cities full_refresh land_only =
        run_window-Has start end cities full_refresh land_only

    -- Whatever a run does and whatever fails in it.
    pub run-Has :
        (today start end : Date) (cities : List City) (full_refresh land_only : Bool)
        → Preserves (Has q) (run p c s run_id today start end cities full_refresh land_only)
    unfolding run
    run-Has today start end cities full_refresh land_only =
        >>=-Preserves (Has q) (lift (max_available_date today c)) _ (λ w h. h)
          (λ ceiling.
            unless_done-Has (ltb (clamp end ceiling) start) start (clamp end ceiling) cities
              full_refresh land_only)
