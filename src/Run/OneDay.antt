-- ===== src/Run/OneDay.antt =====
-- A run of one day that the source has published.
use batch_api_snowflake.Base.{
  ◌≡◌, refl, ℕ, ◌+◌, ◌-◌, ◌≤◌, pos, String, Bool, false, List, arith, ltb,
}
use batch_api_snowflake.Errors.{ok}
use batch_api_snowflake.Calendar.{sub_days, checked, max_ordinal}
use batch_api_snowflake.Platform.{Platform}
use batch_api_snowflake.Contract.{Contract}
use batch_api_snowflake.Models.{City}
use batch_api_snowflake.Warehouse.Session.{World}
use batch_api_snowflake.Run.{Settings, run, run_window, max_available_date, clamp}

pub sub_days-checked : (d n : ℕ) → 1 + n ≤ d → d ≤ max_ordinal → sub_days d (pos n) ≡ ok (d - n)
unfolding sub_days checked
sub_days-checked d n h k = ground (arith, h, k)

clamp_below : (end ceiling : ℕ) → end ≤ ceiling → clamp end ceiling ≡ end
unfolding clamp
clamp_below end ceiling h = ground (arith, h)

pub ltb_irrefl : (n : ℕ) → ltb n n ≡ false
ltb_irrefl n = ground arith

-- The window of a day that is at least the lag of the source before today is not cut off.
pub run-one_day :
    (p : Platform) (c : Contract) (s : Settings) (run_id : String) (today day lag : ℕ)
    (cities : List City) (full_refresh land_only : Bool) (w : World)
    → c.source_lag_days ≡ pos lag
    → 1 ≤ day
    → day + lag ≤ today
    → today ≤ max_ordinal
    → run p c s run_id today day day cities full_refresh land_only w
      ≡ run_window p c s run_id day day cities full_refresh land_only w
unfolding run max_available_date
run-one_day p c s run_id today day lag cities full_refresh land_only w same_lag some_day published
      before_end =
    let in_time : day ≤ today - lag = omega (arith, published) in
    let ceiling : sub_days today (pos lag) ≡ ok (today - lag) =
      sub_days-checked today lag (omega (arith, some_day, published)) before_end in
    rw (same_lag, ceiling, clamp_below day (today - lag) in_time, ltb_irrefl day) refl
