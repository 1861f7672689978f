-- ===== src/Run/Again/Second.antt =====
-- The second run: it skips every partition that the first has loaded.
use batch_api_snowflake.Base.{
  ◌≡◌, refl, ◌∙◌, ap, ℕ, suc, ◌+◌, ◌*◌, String, true, false, List, [], ◌∷◌, All, length, arith,
}
use batch_api_snowflake.Errors.{ok}
use batch_api_snowflake.Exec.{Exec}
use batch_api_snowflake.Values.{Fields}
use batch_api_snowflake.Calendar.{Date}
use batch_api_snowflake.Platform.{Platform}
use batch_api_snowflake.Contract.{Contract}
use batch_api_snowflake.Models.{City}
use batch_api_snowflake.Client.{fetch_hourly}
use batch_api_snowflake.Warehouse.Session.{World, calm}
use batch_api_snowflake.Run.{Settings, RunSummary, run_cities, run_days, add_partition}
use batch_api_snowflake.Run.Ingest.{ingest_day-unchanged}
use batch_api_snowflake.Run.Again.{IsSteady, IsKnown}

-- The summary with n more partitions, all skipped.
abbrev pub skipped : ℕ → RunSummary → RunSummary
skipped n t = record t {
  partitions_attempted = n + t.partitions_attempted;
  partitions_skipped = n + t.partitions_skipped;
}

skipped-skipped : (m n : ℕ) (t : RunSummary) → skipped m (skipped n t) ≡ skipped (n + m) t
skipped-skipped m n t =
    let attempted : m + (n + t.partitions_attempted) ≡ n + m + t.partitions_attempted =
      omega arith in
    let left_out : m + (n + t.partitions_skipped) ≡ n + m + t.partitions_skipped = omega arith in
    rw (attempted, left_out) refl

add_partition-skips : (t : RunSummary) → add_partition t (0, 0, 0) ≡ skipped 1 t
unfolding add_partition
add_partition-skips t =
    let inserted : t.rows_inserted + 0 ≡ t.rows_inserted = omega arith in
    let updated : t.rows_updated + 0 ≡ t.rows_updated = omega arith in
    let rejected : t.rows_rejected + 0 ≡ t.rows_rejected = omega arith in
    let attempted : suc t.partitions_attempted ≡ 1 + t.partitions_attempted = omega arith in
    let left_out : suc t.partitions_skipped ≡ 1 + t.partitions_skipped = omega arith in
    rw (inserted, updated, rejected, attempted, left_out) refl

skipped_none : (t : RunSummary) → t ≡ skipped 0 t
skipped_none t =
    let attempted : t.partitions_attempted ≡ 0 + t.partitions_attempted = omega arith in
    let left_out : t.partitions_skipped ≡ 0 + t.partitions_skipped = omega arith in
    rw (← attempted, ← left_out) refl

module _ (p : Platform) (c : Contract) (s : Settings) (run_id : String)
    (payload_of : City → Date → Fields) where
  -- Nothing has changed but the number of requests made.
  abbrev Skips : Exec World RunSummary → ℕ → RunSummary → World → Type 0
  Skips m n t w = (i : ℕ) × (m (calm w) ≡ (ok (skipped n t), record (calm w) { requests = i }))

  run_cities-Skips :
      (day : Date) (cities : List City) (t : RunSummary) (w : World)
      → All (IsSteady s w.server payload_of day) cities
      → All (IsKnown p payload_of w day) cities
      → Skips (run_cities p c s run_id day true false cities t) (length cities) t w
  unfolding run_cities
  run_cities-Skips day [] t w steady known = (w.requests, ap (λ t. (ok t, calm w)) (skipped_none t))
  run_cities-Skips day (city ∷ cities) t w (now, steady) (loaded, known) =
      let (r, i) =
        fetch_hourly w.server s.weather_api_base_url s.weather_api_max_retries w.requests city day
          day in
      let one =
        ingest_day-unchanged p c s run_id city day (payload_of city day) i w
          (ap (λ r. (r, i)) (now w.requests)) loaded in
      let (j, rest) =
        run_cities-Skips day cities (skipped 1 t) (record w { requests = i }) steady known in
      let total : 1 + length cities ≡ suc (length cities) = omega arith in
      (j, rw (one, add_partition-skips t, rest, skipped-skipped (length cities) 1 t, total) refl)

  pub run_days-Skips :
      (days : List Date) (cities : List City) (t : RunSummary) (w : World)
      → All (λ day. All (IsSteady s w.server payload_of day) cities) days
      → All (λ day. All (IsKnown p payload_of w day) cities) days
      → Skips (run_days p c s run_id days true false cities t) (length days * length cities) t w
  unfolding run_days
  run_days-Skips [] cities t w steady known =
      let none_left : 0 ≡ 0 * length cities = omega arith in
      (w.requests, ap (λ t. (ok t, calm w)) (skipped_none t ∙ ap (λ n. skipped n t) none_left))
  run_days-Skips (day ∷ days) cities t w (now, steady) (loaded, known) =
      let (i, one) = run_cities-Skips day cities t w now loaded in
      let (j, rest) =
        run_days-Skips days cities (skipped (length cities) t) (record w { requests = i }) steady
          known in
      let total : length cities + length days * length cities ≡ suc (length days) * length cities =
        grind arith in
      (
        j,
        rw (one, rest, skipped-skipped (length days * length cities) (length cities) t, total) refl,
      )
