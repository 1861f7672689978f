-- ===== src/Run/Summary.antt =====
-- The totals of a run.
use batch_api_snowflake.Base.{◌≡◌, refl, ◌∙◌, ℕ, suc, ◌+◌, ◌-◌, ◌*◌, ltb, Bool, true, false}
use batch_api_snowflake.Base.{List, [], ◌∷◌, arith, length, String, ◌++◌, ◌≤◌, ◌<◌, ◌⊎◌}
use batch_api_snowflake.Errors.{Error, Result, ok, err, ok-injective}
use batch_api_snowflake.Exec.{Exec, continue}
use batch_api_snowflake.Calendar.{Date}
use batch_api_snowflake.Platform.{Platform}
use batch_api_snowflake.Contract.{Contract}
use batch_api_snowflake.Models.{City}
use batch_api_snowflake.Warehouse.Session.{World, call}
use batch_api_snowflake.Run.{
  RunSummary, no_partitions, Settings, date_range, ingest_day, add_partition, run_cities,
  connect_effect,
}
use batch_api_snowflake.Landing.{cleanup_temp_files}
use batch_api_snowflake.Run.Window.{length-date_range}
use batch_api_snowflake.Run.{
  on_disk, run_days, connected_to, run_window, run, clamp, max_available_date,
}

-- A chain that returned: its first part returned, and then the rest did.
continue-eq-ok :
    {A B : Type 0} (r : Result A) (f : A → Exec World B) (w : World) (b : B)
    → (continue r f w).0 ≡ ok b
    → (a : A) × (r ≡ ok a) × ((f a w).0 ≡ ok b)
continue-eq-ok (ok a) f w b h = (a, refl, h)
continue-eq-ok (err e) f w b h = cc

-- Every partition attempted is either loaded or skipped.
abbrev pub IsBalanced : RunSummary → Type 0
IsBalanced t = t.partitions_loaded + t.partitions_skipped ≡ t.partitions_attempted

module _ (p : Platform) (c : Contract) (s : Settings) (run_id : String) where
  add_partition-IsBalanced :
      (t : RunSummary) (counts : ℕ × ℕ × ℕ) → IsBalanced t → IsBalanced (add_partition t counts)
  unfolding add_partition
  add_partition-IsBalanced t counts h = ground (arith, h)

  run_cities-counts :
      (day : Date) (connected full_refresh : Bool) (cities : List City) (t r : RunSummary)
      (w : World)
      → IsBalanced t
      → (run_cities p c s run_id day connected full_refresh cities t w).0 ≡ ok r
      → IsBalanced r × (r.partitions_attempted ≡ t.partitions_attempted + length cities)
  unfolding run_cities add_partition
  run_cities-counts day connected full_refresh [] t r w b h =
      let same : t ≡ r = ok-injective h in rw (← same) (b, omega arith)
  run_cities-counts day connected full_refresh (city ∷ cities) t r w b h =
      let first = ingest_day p c s run_id city day connected full_refresh w in
      let (counts, e, h') = continue-eq-ok first.0 _ first.1 r h in
      let t' = add_partition t counts in
      let (b', more) =
        run_cities-counts day connected full_refresh cities t' r first.1
          (add_partition-IsBalanced t counts b) h' in
      (b', omega (arith, more))

  run_days-counts :
      (days : List Date) (connected full_refresh : Bool) (cities : List City) (t r : RunSummary)
      (w : World)
      → IsBalanced t
      → (run_days p c s run_id days connected full_refresh cities t w).0 ≡ ok r
      → IsBalanced r
        × (r.partitions_attempted ≡ t.partitions_attempted + length days * length cities)
  unfolding run_days
  run_days-counts [] connected full_refresh cities t r w b h =
      let same : t ≡ r = ok-injective h in rw (← same) (b, omega arith)
  run_days-counts (day ∷ days) connected full_refresh cities t r w b h =
      let first = run_cities p c s run_id day connected full_refresh cities t w in
      let (t', e, h') = continue-eq-ok first.0 _ first.1 r h in
      let (b', n) = run_cities-counts day connected full_refresh cities t t' w b e in
      let (b'', n') = run_days-counts days connected full_refresh cities t' r first.1 b' h' in
      (b'', grind (arith, n, n'))

  counted :
      (start end n : ℕ) {a : ℕ}
      → a ≡ 0 + length (date_range start end) * n
      → a ≡ (suc end - start) * n
  counted start end n h = rw (length-date_range start end) at h ∙ omega arith

  run_window-counts :
      (start end : Date) (cities : List City) (full_refresh land_only : Bool) (w : World)
      (r : RunSummary)
      → (run_window p c s run_id start end cities full_refresh land_only w).0 ≡ ok r
      → IsBalanced r × (r.partitions_attempted ≡ (suc end - start) * length cities)
  unfolding run_window on_disk connected_to
  run_window-counts start end cities full_refresh true w r h =
      let (b, n) =
        run_days-counts (date_range start end) false full_refresh cities no_partitions r _ refl h in
      (b, counted start end (length cities) n)
  run_window-counts start end cities full_refresh false w r h =
      let days = date_range start end in
      let cleaned = (on_disk (cleanup_temp_files s.landing_zone_root) w).1 in
      let (a, e, h') =
        continue-eq-ok (call connect_effect cleaned).0 _ (call connect_effect cleaned).1 r h in
      let (b, n) =
        run_days-counts days true full_refresh cities no_partitions r
          (call connect_effect cleaned).1 refl h' in
      (b, counted start end (length cities) n)

  -- When `run` returns for a window that is not empty, with the last day clamped to the newest that
  -- the producer has, each day of the window was attempted for each city, once, and each of these
  -- partitions is counted either as loaded or as skipped.
  pub run-counts :
      (today start end ceiling : Date) (cities : List City) (full_refresh land_only : Bool)
      (w : World) (r : RunSummary)
      → max_available_date today c ≡ ok ceiling
      → start ≤ clamp end ceiling
      → (run p c s run_id today start end cities full_refresh land_only w).0 ≡ ok r
      → (r.partitions_loaded + r.partitions_skipped ≡ r.partitions_attempted)
        × (r.partitions_attempted ≡ (suc (clamp end ceiling) - start) * length cities)
  unfolding run
  run-counts today start end ceiling cities full_refresh land_only w r known le h =
      let some_days : ltb (clamp end ceiling) start ≡ false = ground (arith, le) in
      run_window-counts start (clamp end ceiling) cities full_refresh land_only w r
        (rw (known, some_days) at h)

  -- A window that starts after the newest day the producer has, or is empty: `run` returns the
  -- summary with no partitions and leaves everything as it was, leftover files included.
  pub run-nothing_to_do :
      (today start end ceiling : Date) (cities : List City) (full_refresh land_only : Bool)
      (w : World)
      → max_available_date today c ≡ ok ceiling
      → (ceiling < start) ⊎ (end < start)
      → run p c s run_id today start end cities full_refresh land_only w ≡ (ok no_partitions, w)
  unfolding run clamp
  run-nothing_to_do today start end ceiling cities full_refresh land_only w known late =
      rw known (ground (arith, late))

  run_cities-append :
      (day : Date) (connected full_refresh : Bool) (before after : List City) (t : RunSummary)
      (w : World)
      → run_cities p c s run_id day connected full_refresh (before ++ after) t w ≡ (
          let (r, w') = run_cities p c s run_id day connected full_refresh before t w in
          continue r (run_cities p c s run_id day connected full_refresh after) w')
  unfolding run_cities
  run_cities-append day connected full_refresh [] after t w = refl
  run_cities-append day connected full_refresh (x ∷ before) after t w =
      let (r, w') = ingest_day p c s run_id x day connected full_refresh w in
      go (λ n w'. run_cities-append day connected full_refresh before after (add_partition t n) w')
        r w'
    where
      go :
          ((n : ℕ × ℕ × ℕ) (w' : World)
            → run_cities p c s run_id day connected full_refresh
                (before ++ after)
                (add_partition t n)
                w'
              ≡ (let (q, w'') =
                    run_cities p c s run_id day connected full_refresh before
                      (add_partition t n)
                      w' in
                  continue q (run_cities p c s run_id day connected full_refresh after) w''))
          → (r : Result (ℕ × ℕ × ℕ)) (w' : World)
          → continue r
              (λ n.
                run_cities p c s run_id day connected full_refresh
                  (before ++ after)
                  (add_partition t n))
              w'
            ≡ (let (q, w'') =
                  continue r
                    (λ n.
                      run_cities p c s run_id day connected full_refresh before (add_partition t n))
                    w' in
                continue q (run_cities p c s run_id day connected full_refresh after) w'')
      go k (ok n) w' = k n w'
      go k (err e) w' = refl

  -- A partition that raises ends the run of its day with its exception: what the cities before it
  -- have done stays done, and no city after it is attempted.
  pub run_cities-raises :
      (day : Date) (connected full_refresh : Bool) (before after : List City) (city : City)
      (t t' : RunSummary) (w w' w'' : World) (e : Error)
      → run_cities p c s run_id day connected full_refresh before t w ≡ (ok t', w')
      → ingest_day p c s run_id city day connected full_refresh w' ≡ (err e, w'')
      → run_cities p c s run_id day connected full_refresh (before ++ city ∷ after) t w
        ≡ (err e, w'')
  unfolding run_cities
  run_cities-raises day connected full_refresh before after city t t' w w' w'' e h fails =
      rw (run_cities-append day connected full_refresh before (city ∷ after) t w, h, fails)
