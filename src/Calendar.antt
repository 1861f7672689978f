-- ===== src/Calendar.antt =====
-- Python's `date`, by its ordinal: day 1 is 0001-01-01, in the proleptic Gregorian calendar. Sums,
-- differences and comparisons of dates are those of ordinals.
pub mod Civil
pub mod Iso
use batch_api_snowflake.Base.{ℕ, suc, ◌+◌, ◌-◌, ◌*◌, ◌/◌, ◌%◌, ◌==◌, ltb, leb, not, Bool}
use batch_api_snowflake.Base.{
  String, ◌<>◌, List, [], ◌∷◌, ◌&&◌, ◌||◌, if◌then◌else◌, ◌≡◌, refl, digit,
}
use batch_api_snowflake.Base.{ℤ, pos, negsuc}
use batch_api_snowflake.Errors.{Result, ok, err, overflow_error}

abbrev pub Date : Type 0
Date = ℕ

-- `date.max.toordinal()`
abbrev pub max_ordinal : ℕ
max_ordinal = 3652059

-- `date + timedelta(days=n)` and `date - timedelta(days=n)`
unfoldable pub checked : ℕ → Result Date
checked n = if ltb 0 n && leb n max_ordinal then ok n else err overflow_error

unfoldable pub sub_days : Date → ℤ → Result Date
unfolding checked
sub_days d (pos n) = checked (d - n)
sub_days d (negsuc n) = checked (d + suc n)

-- The lengths of the months, and the month and the day of the month of a day of the year, which
-- is counted from 0.
unfoldable pub month_lengths : Bool → List ℕ
month_lengths leap =
    31 ∷ (if leap then 29 else 28) ∷ 31 ∷ 30 ∷ 31 ∷ 30 ∷ 31 ∷ 31 ∷ 30 ∷ 31 ∷ 30 ∷ 31 ∷ []

month_day : List ℕ → ℕ → ℕ → ℕ × ℕ
month_day [] month r = (month, r + 1)
month_day (n ∷ ns) month r =
    let later = month_day ns (month + 1) (r - n) in if ltb r n then (month, r + 1) else later

-- Year, month and day of an ordinal: 400, 100, 4 and 1 year at a time.
unfoldable pub civil : Date → ℕ × ℕ × ℕ
unfolding month_day month_lengths
civil d =
    let n = d - 1 in
    let n400 = n / 146097 in
    let r400 = n % 146097 in
    let n100 = r400 / 36524 in
    let r100 = r400 % 36524 in
    let n4 = r100 / 1461 in
    let r4 = r100 % 1461 in
    let n1 = r4 / 365 in
    let year = n400 * 400 + n100 * 100 + n4 * 4 + n1 + 1 in
    let leap = n1 == 3 && (not (n4 == 24) || n100 == 3) in
    let (m, k) = month_day (month_lengths leap) 1 (r4 % 365) in
    if n1 == 4 || n100 == 4 then (year - 1, 12, 31) else (year, m, k)

unfoldable pub two_digits : ℕ → String
unfolding digit
two_digits n = digit (n / 10 % 10) <> digit (n % 10)

-- `d.isoformat()`
unfoldable pub isoformat : Date → String
unfolding civil two_digits
isoformat d =
    let (y, m, k) = civil d in
    two_digits (y / 100) <> (two_digits y <> ("-" <> (two_digits m <> ("-" <> two_digits k))))

-- 2026-08-20, 2024-02-29 and 9999-12-31
isoformat_examples :
    (isoformat 739848 ≡ "2026-08-20")
    × (isoformat 738945 ≡ "2024-02-29")
    × (isoformat max_ordinal ≡ "9999-12-31")
unfolding isoformat
isoformat_examples = (refl, refl, refl)
