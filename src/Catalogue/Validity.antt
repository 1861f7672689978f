-- ===== src/Catalogue/Validity.antt =====
-- The cities that `load_cities` gives.
use batch_api_snowflake.Base.{
  ◌≡◌, refl, subst, ℕ, ◌≤◌, ◌==◌, String, Bool, true, false, not, ◌&&◌, ◌⊎◌, inl, inr, Option, none,
  some, List, [], ◌∷◌, All, All-keep, all, length, is_empty, arith, codes, String-discrete,
  Bool-cases, contains,
}
use batch_api_snowflake.Errors.{ok, guard, ◌>>=◌, value_error, >>=-eq-ok, ok-injective}
use batch_api_snowflake.Values.{Float, float_lt}
use batch_api_snowflake.Models.{City}
use batch_api_snowflake.Catalogue.{only_cities, load_cities, missing}
use batch_api_snowflake.Catalogue.Cities.{
  CsvRow, id_char, in_bounds, south, north, west, east, fits_city, make_city, city_of_row,
  read_cities, column, as_float, as_text,
}

-- What `City` promises, without its code.
abbrev pub IsIdChar : ℕ → Type 0
IsIdChar c = ((97 ≤ c) × (c ≤ 122)) ⊎ ((48 ≤ c) × (c ≤ 57)) ⊎ (c ≡ 95)

pub record IsCity (c : City) : Type 0 where
  pub some_id : 1 ≤ length (codes c.city_id)
  pub id_chars : All IsIdChar (codes c.city_id)
  pub two_letters : length (codes c.country_code) ≡ 2
  pub latitude_bounds : (float_lt c.latitude south ≡ false) × (float_lt north c.latitude ≡ false)
  pub longitude_bounds : (float_lt c.longitude west ≡ false) × (float_lt east c.longitude ≡ false)

all-IsIdChar : (cs : List ℕ) → all id_char cs ≡ true → All IsIdChar cs
all-IsIdChar [] h = tt
all-IsIdChar (c ∷ cs) h =
    let first : IsIdChar c = ground (arith, h) in
    let rest : all id_char cs ≡ true = ground (arith, h) in (first, all-IsIdChar cs rest)

some_code : (cs : List ℕ) → not (is_empty cs) ≡ true → 1 ≤ length cs
some_code [] h = cc h
some_code (c ∷ cs) h = omega arith

and_true : (a b : Bool) → (a && b) ≡ true → (a ≡ true) × (b ≡ true)
and_true true b h = (refl, h)
and_true false b h = cc h

not-true : (b : Bool) → not b ≡ true → b ≡ false
not-true false h = refl
not-true true h = cc h

bounds_hold :
    (lower upper x : Float)
    → in_bounds lower upper x ≡ true
    → (float_lt x lower ≡ false) × (float_lt upper x ≡ false)
bounds_hold lower upper x h =
    let (below, above) = and_true (not (float_lt x lower)) (not (float_lt upper x)) h in
    (not-true (float_lt x lower) below, not-true (float_lt upper x) above)

fits_city-IsCity : (c : City) → fits_city c ≡ true → IsCity c
unfolding fits_city
fits_city-IsCity c h =
    let cs = codes c.city_id in
    let letters = length (codes c.country_code) == 2 in
    let id_fits = not (is_empty cs) && all id_char cs in
    let (front, longitude_fits) =
      and_true (id_fits && letters && in_bounds south north c.latitude)
        (in_bounds west east c.longitude) h in
    let (front, latitude_fits) =
      and_true (id_fits && letters) (in_bounds south north c.latitude) front in
    let (front, two) = and_true id_fits letters front in
    let (some_chars, chars) = and_true (not (is_empty cs)) (all id_char cs) front in
    record {
      some_id = some_code cs some_chars;
      id_chars = all-IsIdChar cs chars;
      two_letters = ground (arith, two);
      latitude_bounds = bounds_hold south north c.latitude latitude_fits;
      longitude_bounds = bounds_hold west east c.longitude longitude_fits;
    }

make_city-IsCity : (c c' : City) → make_city c ≡ ok c' → IsCity c'
unfolding make_city
make_city-IsCity c c' h = elim (Bool-cases (fits_city c)) [
  | inl fits ↦ subst IsCity (ok-injective (rw (make_city, fits) at h)) (fits_city-IsCity c fits)
  | inr fails ↦ cc (rw (make_city, fails) at h)
]

module _ (float_of_text : String → Option Float) where
  city_of_row-IsCity : (row : CsvRow) (c : City) → city_of_row float_of_text row ≡ ok c → IsCity c
  unfolding city_of_row
  city_of_row-IsCity row c h =
      let (city_id, _, h) = >>=-eq-ok (column row "city_id") _ h in
      let (name, _, h) = >>=-eq-ok (column row "name") _ h in
      let (country_code, _, h) = >>=-eq-ok (column row "country_code") _ h in
      let (latitude, _, h) = >>=-eq-ok (column row "latitude" >>= as_float float_of_text) _ h in
      let (longitude, _, h) = >>=-eq-ok (column row "longitude" >>= as_float float_of_text) _ h in
      let (timezone_name, _, h) = >>=-eq-ok (column row "timezone_name") _ h in
      let (id, _, h) = >>=-eq-ok (as_text city_id) _ h in
      let (called, _, h) = >>=-eq-ok (as_text name) _ h in
      let (code, _, h) = >>=-eq-ok (as_text country_code) _ h in
      let (zone, _, h) = >>=-eq-ok (as_text timezone_name) _ h in
      let made : City = record {
        city_id = id;
        name = called;
        country_code = code;
        latitude = latitude;
        longitude = longitude;
        timezone_name = zone;
      } in
      make_city-IsCity made c h

  read_cities-IsCity :
      (rows : List CsvRow) (cities : List City)
      → read_cities float_of_text rows ≡ ok cities
      → All IsCity cities
  unfolding read_cities
  read_cities-IsCity [] cities h = subst (All IsCity) (ok-injective h) tt
  read_cities-IsCity (row ∷ rows) cities h =
      let (city, one, h) = >>=-eq-ok (city_of_row float_of_text row) _ h in
      let (others, more, h) = >>=-eq-ok (read_cities float_of_text rows) _ h in
      subst (All IsCity) (ok-injective h)
        (city_of_row-IsCity row city one, read_cities-IsCity rows others more)

  only_cities-IsCity :
      (only : Option (List String)) (cities kept : List City)
      → All IsCity cities
      → only_cities only cities ≡ ok kept
      → All IsCity kept
  unfolding only_cities
  only_cities-IsCity none cities kept all_valid h = subst (All IsCity) (ok-injective h) all_valid
  only_cities-IsCity (some []) cities kept all_valid h =
      subst (All IsCity) (ok-injective h) all_valid
  only_cities-IsCity (some (id ∷ ids)) cities kept all_valid h =
      let (passed, _, h) =
        >>=-eq-ok (guard (is_empty (missing (id ∷ ids) cities)) value_error) _ h in
      subst (All IsCity) (ok-injective h)
        (All-keep IsCity (λ c. contains String-discrete (id ∷ ids) c.city_id) cities all_valid)

  -- Whatever the rows of the catalogue and the ids that are asked for, each city that `load_cities`
  -- returns has an id of one or more of the characters a to z, 0 to 9 and _, so that it is one segment
  -- of a path, a country code of two characters, and a latitude and a longitude that are not outside
  -- of -90 to 90 and -180 to 180.
  pub load_cities-IsCity :
      (rows : List CsvRow) (only : Option (List String)) (cities : List City)
      → load_cities (some (read_cities float_of_text rows)) only ≡ ok cities
      → All IsCity cities
  unfolding load_cities
  load_cities-IsCity rows only cities h =
      let (read, same, h) = >>=-eq-ok (read_cities float_of_text rows) (only_cities only) h in
      only_cities-IsCity only read cities (read_cities-IsCity rows read same) h
