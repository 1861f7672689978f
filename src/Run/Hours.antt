-- ===== src/Run/Hours.antt =====
-- Observations of distinct times, and the keys of the rows that they become.
use batch_api_snowflake.Base.{
  ◌≡◌, refl, String, Bool, false, List, [], ◌∷◌, map, keep, All, All-keep, eqb, Bool-cases, inl,
  inr, arith,
}
use batch_api_snowflake.Values.{Datetime}
use batch_api_snowflake.Calendar.{Date}
use batch_api_snowflake.Platform.{Platform}
use batch_api_snowflake.Models.{WeatherObservation}
use batch_api_snowflake.Landing.{landed_records}
use batch_api_snowflake.Warehouse.Merge.{RawRow, select, same_key, ℤ-discrete}
use batch_api_snowflake.Warehouse.Merge.Keys.{HasUniqueKeys}

-- No two of the observations are of the same time.
abbrev pub HasDistinctHours : List WeatherObservation → Type 0
HasDistinctHours [] = Unit
HasDistinctHours (o ∷ os) =
    All (λ o'. eqb ℤ-discrete o.observed_at_utc.wall o'.observed_at_utc.wall ≡ false) os
    × HasDistinctHours os

pub keep-HasDistinctHours :
    (q : WeatherObservation → Bool) (os : List WeatherObservation)
    → HasDistinctHours os
    → HasDistinctHours (keep q os)
keep-HasDistinctHours q [] h = tt
keep-HasDistinctHours q (o ∷ os) (alone, h) = elim (Bool-cases (q o)) [
  | inl kept ↦ rw kept (All-keep _ q os alone, keep-HasDistinctHours q os h)
  | inr dropped ↦ rw dropped (keep-HasDistinctHours q os h)
]

module _ (p : Platform) (now : Datetime) (city_id : String) (day : Date) (hash : String) where
  abbrev pub rows : List WeatherObservation → List RawRow
  rows os = map select (landed_records p now city_id day hash os)

  apart-rows :
      (o : WeatherObservation) (os : List WeatherObservation) (r : RawRow)
      → r.observed_at_utc ≡ o.observed_at_utc.wall
      → All (λ o'. eqb ℤ-discrete o.observed_at_utc.wall o'.observed_at_utc.wall ≡ false) os
      → All (λ s. same_key r s ≡ false) (rows os)
  unfolding landed_records select same_key
  apart-rows o [] r e h = tt
  apart-rows o (o' ∷ os) r e (h, hs) = (ground (arith, e, h), apart-rows o os r e hs)

  pub rows-HasUniqueKeys :
      (os : List WeatherObservation) → HasDistinctHours os → HasUniqueKeys (rows os)
  unfolding landed_records select
  rows-HasUniqueKeys [] h = tt
  rows-HasUniqueKeys (o ∷ os) (alone, h) = (apart-rows o os _ refl alone, rows-HasUniqueKeys os h)
