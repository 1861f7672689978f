-- ===== src/Run/Clean.antt =====
-- A run and the keys of the table: whatever fails, no key gets a second row.
use batch_api_snowflake.Base.{
  ◌≡◌, refl, ap, ℕ, String, Bool, true, false, some, List, [], ◌∷◌, map, all, length, is_empty,
  Bool-cases, Option-cases, inl, inr, if◌then◌else◌,
}
use batch_api_snowflake.Errors.{Result, ok, err, value_error}
use batch_api_snowflake.Exec.{Exec, continue, pure, raise, ◌>>=◌, ◌>>◌}
use batch_api_snowflake.Values.{Fields}
use batch_api_snowflake.Calendar.{Date}
use batch_api_snowflake.Platform.{Platform}
use batch_api_snowflake.Contract.{Contract}
use batch_api_snowflake.Models.{City, WeatherObservation, flatten_hourly, payload_hash, model_dump}
use batch_api_snowflake.Client.{Server}
use batch_api_snowflake.Disk.{Disk, parquet, read_file}
use batch_api_snowflake.Landing.{
  landed_records, write_batch, fits_schema, clear_partition, final_path,
}
use batch_api_snowflake.Landing.Publishing.{landed, write_batch_lem, write_batch_misfit}
use batch_api_snowflake.Quality.{QualityReport, check_batch, default_max_reject_ratio}
use batch_api_snowflake.Warehouse.Session.{World, call, next_fault, select_audit}
use batch_api_snowflake.Warehouse.Loader.{load_batch, already_loaded}
use batch_api_snowflake.Warehouse.Loader.Clean.{
  IsClean, IsKept, continue-IsKept, returned-IsKept, load_batch-IsKept,
}
use batch_api_snowflake.Warehouse.Merge.{RawRow}
use batch_api_snowflake.Run.{
  Settings, accepted_among, quarantine_root, on_disk, is_unchanged, load_landed, land_observations,
  ingest_payload,
}
use batch_api_snowflake.Run.Ingest.{read-landed}
use batch_api_snowflake.Run.Hours.{HasDistinctHours, keep-HasDistinctHours, rows-HasUniqueKeys}

module _ (before : List RawRow) (server : Server) where
  -- A clean world with another disk, number of requests or failures to come is clean.
  pub on_disk-IsKept :
      {A : Type 0} (m : Exec Disk A) (w : World)
      → IsClean before server w
      → IsKept before server (on_disk m w).0 (on_disk m w).1
  unfolding on_disk
  on_disk-IsKept m w v = record {
    unique = v.unique;
    settled = λ a h. v.settled;
    same_server = v.same_server;
    covers = v.covers;
  }

  select_audit-IsKept :
      (w : World)
      → IsClean before server w
      → IsKept before server (select_audit w).0 (select_audit w).1
  unfolding select_audit
  select_audit-IsKept w v = elim (Option-cases (next_fault w.faults)) [
    | inl none_yet ↦
        rw (call, none_yet)
          (record {
            unique = v.unique;
            settled = λ a h. v.settled;
            same_server = v.same_server;
            covers = v.covers;
          })
    | inr (message, fails) ↦
        rw (call, fails)
          (record {
            unique = v.unique;
            settled = λ a h. v.settled;
            same_server = v.same_server;
            covers = v.covers;
          })
  ]

  module _ (p : Platform) (c : Contract) (s : Settings) (run_id : String) (city : City)
      (day : Date) where
    load_landed-IsKept :
        (connected : Bool) (fetched : ℕ) (report : QualityReport) (hash : String)
        (os : List WeatherObservation) (w : World)
        → IsClean before server w
        → HasDistinctHours os
        → read_file (final_path p s.landing_zone_root city.city_id day) w.disk
          ≡ some (parquet (landed_records p s.now city.city_id day hash os))
        → let m =
            load_landed p c s run_id connected fetched report
              (landed p s.landing_zone_root s.now city.city_id day os hash)
              w in
          IsKept before server m.0 m.1
    unfolding load_landed
    load_landed-IsKept false fetched report hash os w v distinct found =
        returned-IsKept before server _ w v
    load_landed-IsKept true fetched report hash os w v distinct found =
        let b = landed p s.landing_zone_root s.now city.city_id day os hash in
        let loading = load_batch b run_id fetched report.rejected_rows s.now s.now w in
        continue-IsKept before server loading.0 _ loading.1
          (load_batch-IsKept before server b run_id fetched report.rejected_rows s.now s.now
            (landed_records p s.now city.city_id day hash os) w v found
            (rows-HasUniqueKeys p s.now city.city_id day hash os distinct))
          (λ l v' clean. returned-IsKept before server _ v' clean)

    -- The writing of the batch, and its load.
    write_and_load-IsKept :
        (connected : Bool) (fetched : ℕ) (report : QualityReport) (hash : String)
        (os : List WeatherObservation) (w : World)
        → IsClean before server w
        → HasDistinctHours os
        → let written =
            on_disk (write_batch p s.landing_zone_root s.now city.city_id day os hash) w in
          let m =
            continue written.0 (load_landed p c s run_id connected fetched report) written.1 in
          IsKept before server m.0 m.1
    unfolding on_disk
    write_and_load-IsKept connected fetched report hash os w v distinct =
        let root = s.landing_zone_root in
        let w' = record w { disk = (write_batch p root s.now city.city_id day os hash w.disk).1 } in
        elim (Bool-cases (all (fits_schema p) os)) [
          | inl fits ↦
              let returned : (write_batch p root s.now city.city_id day os hash w.disk).0
                  ≡ ok (landed p root s.now city.city_id day os hash) =
                ap (λ m. m.0) (write_batch_lem p root s.now city.city_id day os hash w.disk fits) in
              rw returned (
                load_landed-IsKept connected fetched report hash os w'
                  (record {
                    unique = v.unique;
                    settled = v.settled;
                    same_server = v.same_server;
                    covers = v.covers;
                  })
                  distinct (read-landed p root s.now city.city_id day os hash w.disk fits))
          | inr misfit ↦
              rw (write_batch_misfit p root s.now city.city_id day os hash w.disk misfit) (record {
                unique = v.unique;
                settled = λ a h. v.settled;
                same_server = v.same_server;
                covers = v.covers;
              })
        ]

    -- With or without the clearing of the partition before.
    rebuild-IsKept :
        (full_refresh connected : Bool) (fetched : ℕ) (report : QualityReport) (hash : String)
        (os : List WeatherObservation) (w : World)
        → IsClean before server w
        → HasDistinctHours os
        → let m =
            ((if full_refresh
                  then on_disk (clear_partition s.landing_zone_root day city.city_id)
                  else pure tt)
                >> (on_disk (write_batch p s.landing_zone_root s.now city.city_id day os hash)
                    >>= load_landed p c s run_id connected fetched report))
              w in
          IsKept before server m.0 m.1
    rebuild-IsKept false connected fetched report hash os w v distinct =
        write_and_load-IsKept connected fetched report hash os w v distinct
    rebuild-IsKept true connected fetched report hash os w v distinct =
        let clearing = clear_partition s.landing_zone_root day city.city_id in
        continue-IsKept before server (on_disk clearing w).0 _ (on_disk clearing w).1
          (on_disk-IsKept clearing w v)
          (λ t v' clean. write_and_load-IsKept connected fetched report hash os v' clean distinct)

    land_observations-IsKept :
        (hash : String) (connected full_refresh : Bool) (os : List WeatherObservation) (w : World)
        → IsClean before server w
        → HasDistinctHours os
        → let m = land_observations p c s run_id city day hash connected full_refresh os w in
          IsKept before server m.0 m.1
    unfolding land_observations
    land_observations-IsKept hash connected full_refresh os w v distinct =
        let gate =
          check_batch c (map model_dump os) city.city_id day (quarantine_root s.landing_zone_root)
            s.now default_max_reject_ratio in
        continue-IsKept before server (on_disk gate w).0 _ (on_disk gate w).1
          (on_disk-IsKept gate w v)
          (λ checked v' clean.
            rebuild-IsKept full_refresh connected (length os) checked.1 hash
              (accepted_among checked.0 os) v' clean
              (unfold accepted_among in keep-HasDistinctHours _ os distinct))

    flattened-IsKept :
        (r : Result (List WeatherObservation)) (hash : String) (connected full_refresh : Bool)
        (w : World)
        → IsClean before server w
        → ((os : List WeatherObservation) → r ≡ ok os → HasDistinctHours os)
        → let m =
            continue r
              (λ os.
                if is_empty os
                then raise value_error
                else land_observations p c s run_id city day hash connected full_refresh os)
              w in
          IsKept before server m.0 m.1
    flattened-IsKept (err e) hash connected full_refresh w v distinct =
        returned-IsKept before server _ w v
    flattened-IsKept (ok []) hash connected full_refresh w v distinct =
        returned-IsKept before server _ w v
    flattened-IsKept (ok (o ∷ os)) hash connected full_refresh w v distinct =
        land_observations-IsKept hash connected full_refresh (o ∷ os) w v (distinct (o ∷ os) refl)

    pub guarded-IsKept :
        (connected full_refresh : Bool) (payload : Fields) (w : World)
        → IsClean before server w
        → let m = is_unchanged p c s run_id city day payload connected full_refresh w in
          IsKept before server m.0 m.1
    unfolding is_unchanged already_loaded
    guarded-IsKept true false payload w v =
        continue-IsKept before server (select_audit w).0 _ (select_audit w).1
          (select_audit-IsKept w v) (λ audit v' clean. returned-IsKept before server _ v' clean)
    guarded-IsKept true true payload w v = returned-IsKept before server _ w v
    guarded-IsKept false full_refresh payload w v = returned-IsKept before server _ w v

    pub unless_unchanged-IsKept :
        (unchanged connected full_refresh : Bool) (payload : Fields) (w : World)
        → IsClean before server w
        → ((os : List WeatherObservation)
            → flatten_hourly p city payload ≡ ok os
            → HasDistinctHours os)
        → let m =
            (if unchanged
                then pure (0, 0, 0)
                else ingest_payload p c s run_id city day payload connected full_refresh)
              w in
          IsKept before server m.0 m.1
    unfolding ingest_payload
    unless_unchanged-IsKept true connected full_refresh payload w v distinct =
        returned-IsKept before server _ w v
    unless_unchanged-IsKept false connected full_refresh payload w v distinct =
        flattened-IsKept (flatten_hourly p city payload) (payload_hash p payload) connected
          full_refresh w v distinct
