-- ===== src/Backfill/Plan.antt =====
-- What a backfill does, against the loops of a run over the same window.
use batch_api_snowflake.Base.{
  true, false, ◌≡◌, refl, ap, ℕ, zero, suc, ◌+◌, ◌-◌, ◌≤◌, ◌<◌, ◌⊎◌, ltb, leb, List, [], ◌∷◌,
  flat_map, arith, map, ◌∙◌,
}
use batch_api_snowflake.Errors.{Result, ok, err, value_error}
use batch_api_snowflake.Calendar.{Date, isoformat}
use batch_api_snowflake.Models.{City}
use batch_api_snowflake.Run.{date_range, dates_from}
use batch_api_snowflake.Backfill.{WorkItem, day_items, work_items, plan, max_backfill_days}

work_items_lem :
    (cities : List City) (span start end : ℕ)
    → span ≡ suc end - start
    → work_items cities start span ≡ flat_map (day_items cities) (dates_from span start end)
unfolding work_items dates_from
work_items_lem cities zero start end e = refl
work_items_lem cities (suc span) start end e =
    let some_day : leb start end ≡ true = ground (arith, e) in
    rw (some_day, work_items_lem cities span (suc start) end (omega (arith, e)))

-- The unit of a city and a day.
abbrev pub unit_of : Date → City → WorkItem
unit_of day city = record { city_id = city.city_id; day = isoformat day }

day_items-eq-map :
    (cities : List City) (day : Date) → day_items cities day ≡ map (unit_of day) cities
unfolding day_items
day_items-eq-map [] day = refl
day_items-eq-map (c ∷ cities) day =
    ap (λ items. unit_of day c ∷ items) (day_items-eq-map cities day)

units_lem :
    (cities : List City) (days : List Date)
    → flat_map (day_items cities) days ≡ flat_map (λ day. map (unit_of day) cities) days
units_lem cities [] = refl
units_lem cities (day ∷ days) = rw (day_items-eq-map cities day, units_lem cities days) refl

-- A window of at most 400 days, the right way round: the plan has one unit for each day of the
-- window and each city, with the identifier of the city and the day in ISO form, day after day as a
-- run over the window takes them, and in each day in the order of the cities.
pub plan-date_range :
    (start end : Date) (cities : List City)
    → start ≤ end
    → end < start + max_backfill_days
    → plan start end (ok cities)
      ≡ ok (flat_map (λ day. map (unit_of day) cities) (date_range start end))
unfolding plan date_range
plan-date_range start end cities le few =
    let forward : ltb end start ≡ false = ground (arith, le) in
    let fits : ltb max_backfill_days (suc (end - start)) ≡ false = ground (arith, few, le) in
    let same : suc (end - start) ≡ suc end - start = omega (arith, le) in
    rw (forward, fits, ← same)
      (ap ok (
        work_items_lem cities (suc (end - start)) start end same
        ∙ units_lem cities (dates_from (suc (end - start)) start end)))

-- A window that ends before it starts, or that has more than 400 days, is refused.
pub plan-refused :
    (start end : Date) (cities : Result (List City))
    → (end < start) ⊎ (start + max_backfill_days ≤ end)
    → plan start end cities ≡ err value_error
unfolding plan
plan-refused start end cities bad = ground (arith, bad)
