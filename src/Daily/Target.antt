-- ===== src/Daily/Target.antt =====
-- The day that a run of the daily DAG is responsible for.
use batch_api_snowflake.Base.{
  ◌≡◌, refl, ℕ, ◌+◌, ◌-◌, ◌≤◌, pos, String, Bool, false, Option, some, List, [], ◌∷◌, arith,
}
use batch_api_snowflake.Errors.{Result, ok}
use batch_api_snowflake.Calendar.{Date, isoformat, max_ordinal}
use batch_api_snowflake.Platform.{Platform}
use batch_api_snowflake.Contract.{Contract}
use batch_api_snowflake.Models.{City}
use batch_api_snowflake.Catalogue.{load_cities}
use batch_api_snowflake.Warehouse.Session.{World}
use batch_api_snowflake.Run.{Settings, run_window}
use batch_api_snowflake.Run.OneDay.{sub_days-checked, run-one_day}
use batch_api_snowflake.Daily.{target_date, ingest_city}

-- Two days before the start of its data interval: a window of one day that the lag of the source
-- never cuts off.
target_date-isoformat :
    (interval_start : Date)
    → 3 ≤ interval_start
    → interval_start ≤ max_ordinal
    → target_date interval_start ≡ ok (isoformat (interval_start - 2))
unfolding target_date
target_date-isoformat interval_start h k = rw (sub_days-checked interval_start 2 h k) refl

-- Whenever a run of the daily DAG is executed, once the source has published the day two days before
-- the start of its data interval: `target_date` gives that day, and `ingest_city` for it lands and
-- loads exactly that day, for the city that it is asked for, without a cut of the window.
pub ingest_city-target :
    (parse : String → Result Date) (p : Platform) (c : Contract) (s : Settings) (run_id : String)
    (interval_start today lag : ℕ) (catalogue : Option (Result (List City))) (city_id : String)
    (cities : List City) (full_refresh : Bool) (w : World)
    → 3 ≤ interval_start
    → interval_start ≤ max_ordinal
    → today ≤ max_ordinal
    → c.source_lag_days ≡ pos lag
    → interval_start - 2 + lag ≤ today
    → parse (isoformat (interval_start - 2)) ≡ ok (interval_start - 2)
    → load_cities catalogue (some (city_id ∷ [])) ≡ ok cities
    → let target = interval_start - 2 in
      (target_date interval_start ≡ ok (isoformat target))
      × (ingest_city parse p c s run_id today catalogue city_id (isoformat target) full_refresh w
          ≡ run_window p c s run_id target target cities full_refresh false w)
unfolding ingest_city
ingest_city-target parse p c s run_id interval_start today lag catalogue city_id cities full_refresh
      w after_start before_end today_ok same_lag published parsed known =
    (
      target_date-isoformat interval_start after_start before_end,
      rw (parsed, known)
          (run-one_day p c s run_id today (interval_start - 2) lag cities full_refresh false w
            same_lag (omega (arith, after_start)) published today_ok),
    )
