-- ===== src/Run/Unique.antt =====
-- A whole run: it never gives a key of the table a second row.
use batch_api_snowflake.Base.{
  ◌≡◌, refl, subst, ℕ, String, Bool, true, false, List, [], ◌∷◌, if◌then◌else◌, ltb, Option-cases,
  inl, inr,
}
use batch_api_snowflake.Errors.{Result, ok, err}
use batch_api_snowflake.Exec.{Exec, continue, pure, ◌>>=◌}
use batch_api_snowflake.Values.{Fields}
use batch_api_snowflake.Calendar.{Date}
use batch_api_snowflake.Platform.{Platform}
use batch_api_snowflake.Contract.{Contract}
use batch_api_snowflake.Models.{City, WeatherObservation, flatten_hourly}
use batch_api_snowflake.Client.{Server, fetch_hourly}
use batch_api_snowflake.Landing.{cleanup_temp_files}
use batch_api_snowflake.Warehouse.Merge.Keys.{HasUniqueKeys}
use batch_api_snowflake.Warehouse.Session.{World, call, next_fault}
use batch_api_snowflake.Warehouse.Loader.Clean.{Covers, Covers-self}
use batch_api_snowflake.Warehouse.Loader.Clean.{IsClean, IsKept, continue-IsKept, returned-IsKept}
use batch_api_snowflake.Warehouse.Merge.{RawRow}
use batch_api_snowflake.Run.{
  Settings, RunSummary, on_disk, fetch_day, is_unchanged, ingest_payload, ingest_day, run_cities,
  run_days, run_window, run, date_range, connected_to, connect_effect, no_partitions, add_partition,
  max_available_date, clamp,
}
use batch_api_snowflake.Run.Hours.{HasDistinctHours}
use batch_api_snowflake.Run.Clean.{on_disk-IsKept, guarded-IsKept, unless_unchanged-IsKept}

-- The server sends no hour of a day twice: whatever payload a fetch of a day gives, at whatever
-- point of a run, the observations of it are of distinct times.
abbrev pub IsHourly : Platform → String → ℕ → Server → Type 0
IsHourly p base_url retries server =
    (city : City) (day : Date) (i : ℕ) (payload : Fields) (os : List WeatherObservation)
    → (fetch_hourly server base_url retries i city day day).0 ≡ ok payload
    → flatten_hourly p city payload ≡ ok os
    → HasDistinctHours os

module _ (before : List RawRow) (server : Server) (p : Platform) (c : Contract) (s : Settings)
    (run_id : String)
    (hourly : IsHourly p s.weather_api_base_url s.weather_api_max_retries server) where
  fetched-IsKept :
      (r : Result Fields) (city : City) (day : Date) (connected full_refresh : Bool) (w : World)
      → IsClean before server w
      → ((payload : Fields) (os : List WeatherObservation)
          → r ≡ ok payload
          → flatten_hourly p city payload ≡ ok os
          → HasDistinctHours os)
      → let m =
          continue r
            (λ payload.
              is_unchanged p c s run_id city day payload connected full_refresh >>= λ unchanged.
              if unchanged
              then pure (0, 0, 0)
              else ingest_payload p c s run_id city day payload connected full_refresh)
            w in
        IsKept before server m.0 m.1
  fetched-IsKept (err e) city day connected full_refresh w v distinct =
      returned-IsKept before server _ w v
  fetched-IsKept (ok payload) city day connected full_refresh w v distinct =
      let guarded = is_unchanged p c s run_id city day payload connected full_refresh w in
      continue-IsKept before server guarded.0 _ guarded.1
        (guarded-IsKept before server p c s run_id city day connected full_refresh payload w v)
        (λ unchanged v' clean.
          unless_unchanged-IsKept before server p c s run_id city day unchanged connected
            full_refresh payload v' clean (λ os. distinct payload os refl))

  ingest_day-IsKept :
      (city : City) (day : Date) (connected full_refresh : Bool) (w : World)
      → IsClean before server w
      → let m = ingest_day p c s run_id city day connected full_refresh w in
        IsKept before server m.0 m.1
  unfolding ingest_day fetch_day
  ingest_day-IsKept city day connected full_refresh w v =
      let fetched =
        fetch_hourly w.server s.weather_api_base_url s.weather_api_max_retries w.requests city day
          day in
      fetched-IsKept fetched.0 city day connected full_refresh (record w { requests = fetched.1 })
        (record {
          unique = v.unique;
          settled = v.settled;
          same_server = v.same_server;
          covers = v.covers;
        })
        (λ payload os sent flat.
          hourly city day w.requests payload os
            (subst
              (λ f.
                (fetch_hourly f s.weather_api_base_url s.weather_api_max_retries w.requests city day
                  day).0
                ≡ ok payload)
              v.same_server sent)
            flat)

  run_cities-IsKept :
      (day : Date) (connected full_refresh : Bool) (cities : List City) (t : RunSummary) (w : World)
      → IsClean before server w
      → let m = run_cities p c s run_id day connected full_refresh cities t w in
        IsKept before server m.0 m.1
  unfolding run_cities
  run_cities-IsKept day connected full_refresh [] t w v = returned-IsKept before server _ w v
  run_cities-IsKept day connected full_refresh (city ∷ cities) t w v =
      let one = ingest_day p c s run_id city day connected full_refresh w in
      continue-IsKept before server one.0 _ one.1
        (ingest_day-IsKept city day connected full_refresh w v)
        (λ n v' clean.
          run_cities-IsKept day connected full_refresh cities (add_partition t n) v' clean)

  run_days-IsKept :
      (days : List Date) (connected full_refresh : Bool) (cities : List City) (t : RunSummary)
      (w : World)
      → IsClean before server w
      → let m = run_days p c s run_id days connected full_refresh cities t w in
        IsKept before server m.0 m.1
  unfolding run_days
  run_days-IsKept [] connected full_refresh cities t w v = returned-IsKept before server _ w v
  run_days-IsKept (day ∷ days) connected full_refresh cities t w v =
      let one = run_cities p c s run_id day connected full_refresh cities t w in
      continue-IsKept before server one.0 _ one.1
        (run_cities-IsKept day connected full_refresh cities t w v)
        (λ t' v' clean. run_days-IsKept days connected full_refresh cities t' v' clean)

  connect-IsKept :
      (w : World)
      → IsClean before server w
      → IsKept before server (call connect_effect w).0 (call connect_effect w).1
  unfolding call
  connect-IsKept w v = elim (Option-cases (next_fault w.faults)) [
    | inl none_yet ↦
        rw (call, none_yet)
          (record {
            unique = v.unique;
            settled = λ a h. refl;
            same_server = v.same_server;
            covers = v.covers;
          })
    | inr (message, fails) ↦
        rw (call, fails)
          (record {
            unique = v.unique;
            settled = λ a h. v.settled;
            same_server = v.same_server;
            covers = v.covers;
          })
  ]

  -- Closing the session gives up what is pending.
  closed-IsKept :
      {A : Type 0} (r : Result A) (w : World)
      → IsKept before server r w
      → IsKept before server r (record w { current = w.committed })
  closed-IsKept r w v = record {
    unique = v.unique;
    settled = λ a h. refl;
    same_server = v.same_server;
    covers = v.covers;
  }

  connected_to-IsKept :
      (m : Exec World RunSummary) (w : World)
      → IsClean before server w
      → ((v : World) → IsClean before server v → IsKept before server (m v).0 (m v).1)
      → IsKept before server (connected_to m w).0 (connected_to m w).1
  unfolding connected_to
  connected_to-IsKept m w v kept =
      continue-IsKept before server (call connect_effect w).0 _ (call connect_effect w).1
        (connect-IsKept w v) (λ t v' clean. closed-IsKept (m v').0 (m v').1 (kept v' clean))

  run_window-IsKept :
      (start end : Date) (cities : List City) (full_refresh land_only : Bool) (w : World)
      → IsClean before server w
      → let m = run_window p c s run_id start end cities full_refresh land_only w in
        IsKept before server m.0 m.1
  unfolding run_window
  run_window-IsKept start end cities full_refresh true w v =
      let cleaning = cleanup_temp_files s.landing_zone_root in
      continue-IsKept before server (on_disk cleaning w).0 _ (on_disk cleaning w).1
        (on_disk-IsKept before server cleaning w v)
        (λ removed v' clean.
          run_days-IsKept (date_range start end) false full_refresh cities no_partitions v' clean)
  run_window-IsKept start end cities full_refresh false w v =
      let cleaning = cleanup_temp_files s.landing_zone_root in
      continue-IsKept before server (on_disk cleaning w).0 _ (on_disk cleaning w).1
        (on_disk-IsKept before server cleaning w v)
        (λ removed v' clean.
          connected_to-IsKept
            (run_days p c s run_id (date_range start end) true full_refresh cities no_partitions) v'
            clean (run_days-IsKept (date_range start end) true full_refresh cities no_partitions))

  -- The empty summary, or the run of the window.
  unless_done-IsKept :
      (done : Bool) (start end : Date) (cities : List City) (full_refresh land_only : Bool)
      (w : World)
      → IsClean before server w
      → let m =
          (if done
              then pure no_partitions
              else run_window p c s run_id start end cities full_refresh land_only)
            w in
        IsKept before server m.0 m.1
  unless_done-IsKept true start end cities full_refresh land_only w v =
      returned-IsKept before server _ w v
  unless_done-IsKept false start end cities full_refresh land_only w v =
      run_window-IsKept start end cities full_refresh land_only w v

-- Whatever calls of the driver fail and whatever the server answers, as long as it sends no hour of
-- a day twice: a run, of any window and cities, with or without --full-refresh and --land-only, that
-- starts on a table with unique keys and nothing pending leaves the committed table with unique
-- keys, and with a row for every key that it had, whether or not it raises.
pub run-HasUniqueKeys :
    (p : Platform) (c : Contract) (s : Settings) (run_id : String) (today start end : Date)
    (cities : List City) (full_refresh land_only : Bool) (w : World)
    → IsHourly p s.weather_api_base_url s.weather_api_max_retries w.server
    → HasUniqueKeys w.committed.raw
    → w.current.raw ≡ w.committed.raw
    → let after =
        (run p c s run_id today start end cities full_refresh land_only w).1.committed.raw in
      HasUniqueKeys after × Covers w.committed.raw after
unfolding run
run-HasUniqueKeys p c s run_id today start end cities full_refresh land_only w hourly unique
      settled =
    let before = w.committed.raw in
    let v : IsClean before w.server w = record {
      unique = unique;
      settled = settled;
      same_server = refl;
      covers = Covers-self before;
    } in
    let kept =
      continue-IsKept before w.server (max_available_date today c) _ w
        (returned-IsKept before w.server _ w v)
        (λ ceiling v' clean.
          unless_done-IsKept before w.server p c s run_id hourly (ltb (clamp end ceiling) start)
            start (clamp end ceiling) cities full_refresh land_only v' clean) in
    (kept.unique, kept.covers)
