-- ===== src/Run/Window.antt =====
-- The window of days of a run.
use batch_api_snowflake.Base.{◌≡◌, refl, ℕ, zero, suc, ◌+◌, ◌-◌, ltb, none, some}
use batch_api_snowflake.Base.{get_elem?, length, arith, if◌then◌else◌}
use batch_api_snowflake.Contract.{Contract}
use batch_api_snowflake.Run.{date_range, dates_from}

get_elem?-dates_from :
    (fuel start end i : ℕ)
    → fuel ≡ suc end - start
    → get_elem? (dates_from fuel start end) i
      ≡ (if ltb i (suc end - start) then some (start + i) else none)
unfolding dates_from
get_elem?-dates_from zero start end i e = ground arith
get_elem?-dates_from (suc fuel) start end zero e = ground arith
get_elem?-dates_from (suc fuel) start end (suc i) e =
    ground (arith, get_elem?-dates_from fuel (suc start) end i)

length-dates_from :
    (fuel start end : ℕ)
    → fuel ≡ suc end - start
    → length (dates_from fuel start end) ≡ suc end - start
unfolding dates_from
length-dates_from zero start end e = ground arith
length-dates_from (suc fuel) start end e = ground (arith, length-dates_from fuel (suc start) end)

-- The days of a window, one after the other: the i-th is the one i days after the first, and there
-- are as many as from the first to the last, both included.
pub get_elem?-date_range :
    (start end i : ℕ)
    → get_elem? (date_range start end) i
      ≡ (if ltb i (suc end - start) then some (start + i) else none)
unfolding date_range
get_elem?-date_range start end i = get_elem?-dates_from (suc end - start) start end i refl

pub length-date_range : (start end : ℕ) → length (date_range start end) ≡ suc end - start
unfolding date_range
length-date_range start end = length-dates_from (suc end - start) start end refl
