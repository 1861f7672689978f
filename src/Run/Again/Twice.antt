-- ===== src/Run/Again/Twice.antt =====
-- Two runs over the same window.
use batch_api_snowflake.Base.{
  ◌≡◌, refl, sym, ◌∙◌, ap, subst, fun_ext, ℕ, ◌+◌, ◌*◌, ◌≤◌, String, Bool, false, List, All, length,
  arith, ltb,
}
use batch_api_snowflake.Errors.{ok}
use batch_api_snowflake.Exec.{Ensures, >>=-Ensures}
use batch_api_snowflake.Values.{Fields}
use batch_api_snowflake.Calendar.{Date}
use batch_api_snowflake.Platform.{Platform}
use batch_api_snowflake.Contract.{Contract}
use batch_api_snowflake.Models.{City}
use batch_api_snowflake.Client.{Server}
use batch_api_snowflake.Landing.{cleanup_temp_files}
use batch_api_snowflake.Warehouse.Session.{World, call, calm, next_fault, later_faults}
use batch_api_snowflake.Warehouse.Loader.Returns.{call-Ensures}
use batch_api_snowflake.Run.{
  Settings, RunSummary, no_partitions, on_disk, connected_to, connect_effect, run_window, run,
  date_range, max_available_date, clamp,
}
use batch_api_snowflake.Run.Window.{length-date_range}
use batch_api_snowflake.Run.Summary.{run-counts}
use batch_api_snowflake.Run.Again.{IsSteadyOver, IsKnown}
use batch_api_snowflake.Run.Again.First.{WindowKnown, run_days-Ensures}
use batch_api_snowflake.Run.Again.Second.{skipped, run_days-Skips}

-- After a run of a window: the server is the same, nothing is pending, and every partition of the
-- window has a load in the audit.
pub record IsComplete (p : Platform) (payload_of : City → Date → Fields) (server : Server)
    (days : List Date) (cities : List City) (v : World) : Type 0 where
  pub same_server : v.server ≡ server
  pub settled : v.current ≡ v.committed
  pub known : All (λ day. All (IsKnown p payload_of v day) cities) days

module _ (p : Platform) (c : Contract) (s : Settings) (payload_of : City → Date → Fields)
    (cities : List City) where
  closed :
      (run_id : String) (start end : Date) (w v : World) (r : RunSummary)
      → WindowKnown p c s run_id payload_of w (date_range start end) cities r v
      → IsComplete p payload_of w.server
          (date_range start end)
          cities
          (record v { current = v.committed })
  closed run_id start end w v r (ready, known) = record {
    same_server = ready.after.same_server;
    settled = refl;
    known =
        subst
          (λ t.
            All (λ day. All (IsKnown p payload_of (record v { current = t }) day) cities)
              (date_range start end))
          ready.settled known;
  }

  run_window-Ensures :
      (run_id : String) (start end : Date) (full_refresh : Bool) (w : World)
      → IsSteadyOver s w.server payload_of cities start end
      → Ensures
          (run_window p c s run_id start end cities full_refresh false w)
          (λ r. IsComplete p payload_of w.server (date_range start end) cities)
  unfolding run_window connected_to on_disk
  run_window-Ensures run_id start end full_refresh w steady =
      let Q : RunSummary → World → Type 0 =
        λ r. IsComplete p payload_of w.server (date_range start end) cities in
      let Connected : Unit {0} → World → Type 0 =
        λ done v. (v.server ≡ w.server) × (v.current ≡ v.committed) in
      let v = (on_disk (cleanup_temp_files s.landing_zone_root) w).1 in
      >>=-Ensures Connected Q (call connect_effect) _ v
        (call-Ensures Connected connect_effect v (λ done e. (refl, refl)))
        (λ done u (same_server, settled) r e.
          let steady' =
            subst (λ server. IsSteadyOver s server payload_of cities start end) (sym same_server)
              steady in
          let after = closed run_id start end u _ r (
            run_days-Ensures p c s run_id payload_of (date_range start end) full_refresh cities
              no_partitions u settled steady' r e) in
          record {
            same_server = after.same_server ∙ same_server;
            settled = after.settled;
            known = after.known;
          })

  -- A run over a window of which everything is known.
  run_window-Skips :
      (run_id : String) (start end : Date) (w : World)
      → IsSteadyOver s w.server payload_of cities start end
      → IsComplete p payload_of w.server (date_range start end) cities w
      → (i : ℕ) × (run_window p c s run_id start end cities false false (calm w) ≡ (
        ok (skipped (length (date_range start end) * length cities) no_partitions),
        record (calm w) { disk = (cleanup_temp_files s.landing_zone_root w.disk).1; requests = i },
      ))
  unfolding run_window connected_to on_disk call next_fault later_faults
  run_window-Skips run_id start end w steady complete =
      let v = record w {
        disk = (cleanup_temp_files s.landing_zone_root w.disk).1;
        current = w.committed;
      } in
      let known =
        subst
          (λ t.
            All (λ day. All (IsKnown p payload_of (record v { current = t }) day) cities)
              (date_range start end))
          complete.settled complete.known in
      let (i, rest) =
        run_days-Skips p c s run_id payload_of (date_range start end) cities no_partitions v steady
          known in
      let all_skipped =
        ok (skipped (length (date_range start end) * length cities) no_partitions) in
      (
        i,
        rw rest (
            ap (λ t. (all_skipped, record (calm v) { current = t; requests = i }))
              (sym complete.settled)),
      )

  -- A window that starts no later than the newest day that the producer has.
  run_opened :
      (run_id : String) (today start end ceiling : Date) (full_refresh : Bool)
      → max_available_date today c ≡ ok ceiling
      → start ≤ clamp end ceiling
      → run p c s run_id today start end cities full_refresh false
        ≡ run_window p c s run_id start (clamp end ceiling) cities full_refresh false
  unfolding run
  run_opened run_id today start end ceiling full_refresh newest some_day =
      let not_done : ltb (clamp end ceiling) start ≡ false = ground (arith, some_day) in
      fun_ext (λ w. rw (newest, not_done) refl)

  -- A run with a connection that returns, at an API that sends one payload for each partition of
  -- the window whenever it is asked: whatever driver calls failed, nothing is pending, the API is
  -- the same, and the audit has a load of its payload for every partition of the window.
  pub run-IsComplete :
      (run_id : String) (today start end ceiling : Date) (full_refresh : Bool) (w : World)
      (t : RunSummary)
      → max_available_date today c ≡ ok ceiling
      → IsSteadyOver s w.server payload_of cities start (clamp end ceiling)
      → start ≤ clamp end ceiling
      → (run p c s run_id today start end cities full_refresh false w).0 ≡ ok t
      → IsComplete p payload_of w.server
          (date_range start (clamp end ceiling))
          cities
          (run p c s run_id today start end cities full_refresh false w).1
  run-IsComplete run_id today start end ceiling full_refresh w t newest steady some_day returned =
      let opened = run_opened run_id today start end ceiling full_refresh newest some_day in
      rw opened (
        run_window-Ensures run_id start (clamp end ceiling) full_refresh w steady t
          (rw opened at returned))

  -- Two runs over the same window, the first with or without --full-refresh and whatever driver
  -- calls fail in it, the second without: if the first returns, the driver then works, and the API
  -- sends one payload for each partition of the window whenever it is asked, then the second
  -- returns too, counts every partition of the first as skipped and no row, leaves the tables and
  -- the stage as they were, and only cleans leftover temporary files from the landing zone.
  pub run_twice :
      (run_id run_id' : String) (today start end ceiling : Date) (full_refresh : Bool) (w : World)
      (t : RunSummary)
      → max_available_date today c ≡ ok ceiling
      → IsSteadyOver s w.server payload_of cities start (clamp end ceiling)
      → start ≤ clamp end ceiling
      → (run p c s run_id today start end cities full_refresh false w).0 ≡ ok t
      → let between = (run p c s run_id today start end cities full_refresh false w).1 in
        let (again, after) = run p c s run_id' today start end cities false false (calm between) in
        (again
          ≡ ok (record no_partitions {
            partitions_attempted = t.partitions_attempted;
            partitions_skipped = t.partitions_attempted;
          }))
        × (after.committed ≡ between.committed)
        × (after.current ≡ between.current)
        × (after.stage ≡ between.stage)
        × (after.disk ≡ (cleanup_temp_files s.landing_zone_root between.disk).1)
  run_twice run_id run_id' today start end ceiling full_refresh w t newest steady some_day
        returned =
      let last = clamp end ceiling in
      let first = run_window p c s run_id start last cities full_refresh false w in
      let opened = run_opened run_id today start end ceiling full_refresh newest some_day in
      let opened' = run_opened run_id' today start end ceiling false newest some_day in
      let returned' : first.0 ≡ ok t = rw opened at returned in
      let complete = run_window-Ensures run_id start last full_refresh w steady t returned' in
      let (i, again) =
        run_window-Skips run_id' start last first.1
          (subst (λ server. IsSteadyOver s server payload_of cities start last)
            (sym complete.same_server) steady)
          (record { same_server = refl; settled = complete.settled; known = complete.known }) in
      let (balance, count) =
        run-counts p c s run_id today start end ceiling cities full_refresh false w t newest
          some_day returned in
      let attempted : length (date_range start last) * length cities + 0 ≡ t.partitions_attempted =
        rw (length-date_range start last) (omega (arith, count)) in
      rw (opened, opened', again)
        (
          ap (λ n. ok (record no_partitions { partitions_attempted = n; partitions_skipped = n }))
              attempted,
          refl,
          refl,
          refl,
          refl,
        )
