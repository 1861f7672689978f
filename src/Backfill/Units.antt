-- ===== src/Backfill/Units.antt =====
-- The units of a backfill, executed one after the other, where some fail and some are retried.
use batch_api_snowflake.Base.{
  ◌≡◌, refl, ℕ, suc, ◌-◌, ◌≤◌, leb, String, Bool, true, false, Option, some, List, [], ◌∷◌, All,
  All-map, any, arith,
}
use batch_api_snowflake.Errors.{Result, ok}
use batch_api_snowflake.Exec.{lift, Preserves, >>=-Preserves}
use batch_api_snowflake.Values.{Fields}
use batch_api_snowflake.Calendar.{Date}
use batch_api_snowflake.Platform.{Platform}
use batch_api_snowflake.Contract.{Contract}
use batch_api_snowflake.Models.{City, payload_hash}
use batch_api_snowflake.Catalogue.{load_cities}
use batch_api_snowflake.Warehouse.Session.{AuditRow, World}
use batch_api_snowflake.Warehouse.Loader.{is_load_of}
use batch_api_snowflake.Warehouse.Loader.Kept.{Has}
use batch_api_snowflake.Run.{Settings, RunSummary, run, date_range, max_available_date, clamp}
use batch_api_snowflake.Run.Audit.{run-Has}
use batch_api_snowflake.Run.Again.{IsSteady, IsSteadyOver, IsKnown}
use batch_api_snowflake.Run.Again.Twice.{run-IsComplete}
use batch_api_snowflake.Backfill.{WorkItem, ingest_unit}

clamp_self : (day ceiling : ℕ) → day ≤ ceiling → clamp day ceiling ≡ day
unfolding clamp
clamp_self day ceiling h = ground (arith, h)

one_day : (day : ℕ) → date_range day day ≡ day ∷ []
unfolding date_range
one_day day =
    let one : suc day - day ≡ 1 = omega arith in
    let now : leb day day ≡ true = ground arith in rw (one, now) refl

module _ (parse : String → Result Date) (p : Platform) (c : Contract) (s : Settings)
    (catalogue : Option (Result (List City))) where
  -- Units that are executed one after the other, each at a day `today`, under a run id, with or
  -- without --full-refresh and with any failures of the driver, and what comes of each.
  pub data Executed : World → List (WorkItem × Result RunSummary) → World → Type 0 where
    done : (w : World) → Executed w [] w
    next :
        (run_id : String) (today : Date) (u : WorkItem) (full_refresh : Bool)
        (faults : List (Option String)) (w last : World) (log : List (WorkItem × Result RunSummary))
        → Executed
            (ingest_unit parse p c s run_id today catalogue u full_refresh
              (record w { faults = faults })).1
            log
            last
        → Executed w
            ((
              u,
              (ingest_unit parse p c s run_id today catalogue u full_refresh
                  (record w { faults = faults })).0,
            )
              ∷ log)
            last

  ingest_unit-Has :
      (q : AuditRow → Bool) (run_id : String) (today : Date) (u : WorkItem) (full_refresh : Bool)
      → Preserves (Has q) (ingest_unit parse p c s run_id today catalogue u full_refresh)
  unfolding ingest_unit
  ingest_unit-Has q run_id today u full_refresh =
      >>=-Preserves (Has q) (lift (parse u.day)) _ (λ w h. h)
        (λ day.
          >>=-Preserves (Has q) (lift (load_cities catalogue (some (u.city_id ∷ [])))) _ (λ w h. h)
            (λ cities. run-Has q p c s run_id today day day cities full_refresh false))

  Executed-Has :
      (q : AuditRow → Bool) {w last : World} {log : List (WorkItem × Result RunSummary)}
      → Executed w log last
      → Has q w
      → Has q last
  Executed-Has q (done w) h = h
  Executed-Has q (next run_id today u full_refresh faults w last log rest) h = Executed-Has q rest (
      ingest_unit-Has q run_id today u full_refresh (record w { faults = faults })
        (record { committed = h.committed; current = h.current }))

  -- A unit of a day that the source has published, at an API that sends one payload for each of its
  -- partitions whenever it is asked: once the unit has returned, whatever units are executed after
  -- it, under whatever failures of the driver and however they end, the committed audit has the load
  -- of its payload for each city of the unit.
  pub ingest_unit-Executed :
      (payload_of : City → Date → Fields) (run_id : String) (today day ceiling : Date)
      (u : WorkItem) (cities : List City) (full_refresh : Bool) (w last : World) (t : RunSummary)
      (log : List (WorkItem × Result RunSummary))
      → parse u.day ≡ ok day
      → load_cities catalogue (some (u.city_id ∷ [])) ≡ ok cities
      → max_available_date today c ≡ ok ceiling
      → day ≤ ceiling
      → All (IsSteady s w.server payload_of day) cities
      → (ingest_unit parse p c s run_id today catalogue u full_refresh w).0 ≡ ok t
      → Executed (ingest_unit parse p c s run_id today catalogue u full_refresh w).1 log last
      → All
          (λ city.
            any
              (is_load_of city.city_id day (payload_hash p (payload_of city day)))
              last.committed.audit
            ≡ true)
          cities
  unfolding ingest_unit
  ingest_unit-Executed payload_of run_id today day ceiling u cities full_refresh w last t log parsed
        listed newest published steady returned rest =
      let after = run p c s run_id today day day cities full_refresh false w in
      let same_day = clamp_self day ceiling published in
      let steady' : IsSteadyOver s w.server payload_of cities day (clamp day ceiling) =
        rw (same_day, one_day day) (steady, tt) in
      let complete =
        run-IsComplete p c s payload_of cities run_id today day day ceiling full_refresh w t newest
          steady' (omega (arith, same_day)) (rw (parsed, listed) at returned) in
      let known : All (IsKnown p payload_of after.1 day) cities =
        (rw (same_day, one_day day) at complete.known).0 in
      All-map (IsKnown p payload_of after.1 day) _
        (λ city k.
          (Executed-Has (is_load_of city.city_id day (payload_hash p (payload_of city day)))
            (rw (parsed, listed) at rest)
            (record { committed = rw (← complete.settled) k; current = k })).committed)
        cities known
