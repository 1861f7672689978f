-- ===== src/Run/Ingest.antt =====
-- `ingest_day`: one city and one day.
use batch_api_snowflake.Base.{◌≡◌, refl, ℕ, String, Bool, true, false, some}
use batch_api_snowflake.Base.{List, [], ◌∷◌, map, if◌then◌else◌, length, keep, all, any, eqb_refl}
use batch_api_snowflake.Base.{◌≢◌}
use batch_api_snowflake.Errors.{ok}
use batch_api_snowflake.Exec.{Exec}
use batch_api_snowflake.Values.{Row, Fields, Datetime}
use batch_api_snowflake.Calendar.{Date}
use batch_api_snowflake.Platform.{Platform}
use batch_api_snowflake.Contract.{Contract}
use batch_api_snowflake.Contract.Splitting.{is_valid}
use batch_api_snowflake.Models.{City, WeatherObservation, model_dump, flatten_hourly, payload_hash}
use batch_api_snowflake.Client.{fetch_hourly}
use batch_api_snowflake.Disk.{FilePath-discrete, parquet, FilePath, Disk, read_file}
use batch_api_snowflake.Landing.{
  landed_records, fits_schema, write_batch, clear_partition, final_path,
}
use batch_api_snowflake.Landing.Records.{record_of, landed_records-eq-map}
use batch_api_snowflake.Landing.Publishing.{landed, write_batch_lem, read_file-write_batch}
use batch_api_snowflake.Quality.{QualityReport, check_batch, default_max_reject_ratio}
use batch_api_snowflake.Quality.Gate.{check_batch-accepts}
use batch_api_snowflake.Warehouse.Merge.{RawRow, select, merge}
use batch_api_snowflake.Warehouse.Session.{World, call, calm, later_faults}
use batch_api_snowflake.Warehouse.Loader.{is_load_of, already_loaded}
use batch_api_snowflake.Warehouse.Loader.Reload.{load_batch-loaded}
use batch_api_snowflake.Run.{Settings, quarantine_root, on_disk, fetch_day, is_unchanged}
use batch_api_snowflake.Run.{load_landed, land_observations, ingest_payload, ingest_day}
use batch_api_snowflake.Run.Accepted.{accepted_among-valid}

-- A partition whose payload was loaded before is left alone, unless --full-refresh is given: the
-- producer is asked, and then nothing is written, neither to the disk nor to the warehouse.
pub ingest_day-unchanged :
    (p : Platform) (c : Contract) (s : Settings) (run_id : String) (city : City) (day : Date)
    (payload : Fields) (i : ℕ) (w : World)
    → fetch_hourly w.server s.weather_api_base_url s.weather_api_max_retries w.requests city day day
      ≡ (ok payload, i)
    → any (is_load_of city.city_id day (payload_hash p payload)) w.current.audit ≡ true
    → ingest_day p c s run_id city day true false (calm w)
      ≡ (ok (0, 0, 0), record (calm w) { requests = i })
unfolding ingest_day is_unchanged fetch_day already_loaded call later_faults
ingest_day-unchanged p c s run_id city day payload i w fetched loaded = rw (fetched, loaded)

-- The observations whose row is valid under the contract.
abbrev pub valid_rows : Contract → List WeatherObservation → List WeatherObservation
valid_rows c observations = keep (λ o. is_valid c (model_dump o)) observations

-- The gate on the rows of the observations.
abbrev pub gate :
    Contract
    → Settings
    → City
    → Date
    → List WeatherObservation
    → Exec Disk (List Row × QualityReport)
gate c s city day observations =
    check_batch c (map model_dump observations) city.city_id day
      (quarantine_root s.landing_zone_root) s.now default_max_reject_ratio

-- The disk after `clear_partition`, if --full-refresh asks for it.
abbrev pub cleared : Settings → City → Date → Bool → Disk → Disk
cleared s city day full_refresh d =
    if full_refresh then (clear_partition s.landing_zone_root day city.city_id d).1 else d

module _ (p : Platform) (c : Contract) (s : Settings) (run_id : String) (city : City) (day : Date)
    (observations : List WeatherObservation) where
  abbrev valid : List WeatherObservation
  valid = valid_rows c observations

  land_observations_lem :
      (hash : String) (connected full_refresh : Bool) (accepted : List Row) (report : QualityReport)
      (w : World)
      → (gate c s city day observations w.disk).0 ≡ ok (accepted, report)
      → all (fits_schema p) valid ≡ true
      → let after =
          (write_batch p s.landing_zone_root s.now city.city_id day valid hash
            (cleared s city day full_refresh (gate c s city day observations w.disk).1)).1 in
        land_observations p c s run_id city day hash connected full_refresh observations w
        ≡ load_landed p c s run_id connected
            (length observations)
            report
            (landed p s.landing_zone_root s.now city.city_id day valid hash)
            (record w { disk = after })
  unfolding land_observations on_disk
  land_observations_lem hash connected true accepted report w passed fits =
      let (same, _, _) =
        check_batch-accepts c (map model_dump observations) city.city_id day
          (quarantine_root s.landing_zone_root) s.now default_max_reject_ratio w.disk accepted
          report passed in
      rw (
        passed,
        same,
        accepted_among-valid (is_valid c) observations,
        write_batch_lem p s.landing_zone_root s.now city.city_id day valid hash
            (cleared s city day true (gate c s city day observations w.disk).1) fits,
      )
  land_observations_lem hash connected false accepted report w passed fits =
      let (same, _, _) =
        check_batch-accepts c (map model_dump observations) city.city_id day
          (quarantine_root s.landing_zone_root) s.now default_max_reject_ratio w.disk accepted
          report passed in
      rw (
        passed,
        same,
        accepted_among-valid (is_valid c) observations,
        write_batch_lem p s.landing_zone_root s.now city.city_id day valid hash
            (cleared s city day false (gate c s city day observations w.disk).1) fits,
      )

pub read-landed :
    (p : Platform) (root : FilePath) (now : Datetime) (city_id : String) (day : Date)
    (observations : List WeatherObservation) (hash : String) (d : Disk)
    → all (fits_schema p) observations ≡ true
    → read_file
        (final_path p root city_id day)
        (write_batch p root now city_id day observations hash d).1
      ≡ some (parquet (landed_records p now city_id day hash observations))
read-landed p root now city_id day observations hash d fits = rw (
  read_file-write_batch p root now city_id day observations hash d (final_path p root city_id day)
      fits,
  eqb_refl FilePath-discrete (final_path p root city_id day),
)

read-record_of :
    (p : Platform) (root : FilePath) (now : Datetime) (city_id : String) (day : Date)
    (observations : List WeatherObservation) (hash : String) (d : Disk)
    → all (fits_schema p) observations ≡ true
    → read_file
        (final_path p root city_id day)
        (write_batch p root now city_id day observations hash d).1
      ≡ some (parquet (map (record_of p now city_id day hash) observations))
read-record_of p root now city_id day observations hash d fits =
    rw (← landed_records-eq-map p now city_id day hash observations)
      (read-landed p root now city_id day observations hash d fits)

-- A run without a connection: when the payload of a partition flattens to some observations, the
-- gate lets them pass and those that are valid under the contract fit the schema (their weather code
-- is absent or an int32), `ingest_day` returns the number of rejected rows, and the final file of
-- the partition has one record for each valid observation, in order, and no other: the observation
-- with the hash of the payload, the time, the batch and the contract's version.
pub ingest_day-lands :
    (p : Platform) (c : Contract) (s : Settings) (run_id : String) (city : City) (day : Date)
    (full_refresh : Bool) (payload : Fields) (i : ℕ) (observations : List WeatherObservation)
    (accepted : List Row) (report : QualityReport) (w : World)
    → fetch_hourly w.server s.weather_api_base_url s.weather_api_max_retries w.requests city day day
      ≡ (ok payload, i)
    → flatten_hourly p city payload ≡ ok observations
    → observations ≢ []
    → (gate c s city day observations w.disk).0 ≡ ok (accepted, report)
    → all (fits_schema p) (valid_rows c observations) ≡ true
    → let (result, after) = ingest_day p c s run_id city day false full_refresh w in
      (result ≡ ok (0, 0, report.rejected_rows))
      × (read_file (final_path p s.landing_zone_root city.city_id day) after.disk
          ≡ some (
              parquet (
                map
                  (record_of p s.now city.city_id day (payload_hash p payload))
                  (valid_rows c observations))))
unfolding ingest_day is_unchanged fetch_day ingest_payload load_landed
ingest_day-lands p c s run_id city day full_refresh payload i [] accepted report w fetched flat
      some_rows passed fits =
    absurd (some_rows refl)
ingest_day-lands p c s run_id city day full_refresh payload i (o ∷ os) accepted report w fetched
      flat some_rows passed fits =
    let hash = payload_hash p payload in
    let d = cleared s city day full_refresh (gate c s city day (o ∷ os) w.disk).1 in
    rw
      (
        fetched,
        flat,
        land_observations_lem p c s run_id city day (o ∷ os) hash false full_refresh accepted report
            (record w { requests = i }) passed fits,
      )
      (
        refl,
        read-record_of p s.landing_zone_root s.now city.city_id day (valid_rows c (o ∷ os)) hash d
            fits,
      )

-- A run with a connection that meets no failure of the driver, on a payload that was not loaded
-- before and flattens to some observations, which the gate lets pass: when those that are valid
-- under the contract fit the schema (their weather code is absent or an int32) and the MERGE of one
-- record for each of them, in order, succeeds, the committed table is the one that it makes, and
-- `ingest_day` returns its counts and the number of rejected rows.
pub ingest_day-loads :
    (p : Platform) (c : Contract) (s : Settings) (run_id : String) (city : City) (day : Date)
    (payload : Fields) (i : ℕ) (observations : List WeatherObservation) (accepted : List Row)
    (report : QualityReport) (raw : List RawRow) (inserted updated : ℕ) (w : World)
    → fetch_hourly w.server s.weather_api_base_url s.weather_api_max_retries w.requests city day day
      ≡ (ok payload, i)
    → any (is_load_of city.city_id day (payload_hash p payload)) w.current.audit ≡ false
    → flatten_hourly p city payload ≡ ok observations
    → observations ≢ []
    → (gate c s city day observations w.disk).0 ≡ ok (accepted, report)
    → all (fits_schema p) (valid_rows c observations) ≡ true
    → merge w.current.raw (
        map select (
          map
            (record_of p s.now city.city_id day (payload_hash p payload))
            (valid_rows c observations)))
      ≡ ok (raw, inserted, updated)
    → let (result, after) = ingest_day p c s run_id city day true false (calm w) in
      (result ≡ ok (inserted, updated, report.rejected_rows)) × (after.committed.raw ≡ raw)
unfolding ingest_day is_unchanged fetch_day ingest_payload load_landed already_loaded call
    later_faults
ingest_day-loads p c s run_id city day payload i [] accepted report raw inserted updated w fetched
      new flat some_rows passed fits merged =
    absurd (some_rows refl)
ingest_day-loads p c s run_id city day payload i (o ∷ os) accepted report raw inserted updated w
      fetched new flat some_rows passed fits merged =
    let hash = payload_hash p payload in
    let root = s.landing_zone_root in
    let valid = valid_rows c (o ∷ os) in
    let d = (gate c s city day (o ∷ os) w.disk).1 in
    let w' = record w {
      requests = i;
      disk = (write_batch p root s.now city.city_id day valid hash d).1;
    } in
    rw
      (
        fetched,
        new,
        flat,
        land_observations_lem p c s run_id city day (o ∷ os) hash true false accepted report
            (record (calm w) { requests = i }) passed fits,
      )
      (rw
        (load_batch-loaded (landed p root s.now city.city_id day valid hash) run_id
          (length (o ∷ os)) report.rejected_rows s.now s.now
          (map (record_of p s.now city.city_id day hash) valid) raw inserted updated w'
          (read-record_of p root s.now city.city_id day valid hash d fits) merged)
        (refl, refl))
