-- ===== src/Models/Alignment.antt =====
-- `flatten_hourly` attaches every value to the hour that it stands at in its own series.
use batch_api_snowflake.Base.{◌≡◌, refl, subst, ◌⊎◌, inl, inr, ℕ, suc, ◌+◌, ◌<◌, ◌==◌, ==_iff}
use batch_api_snowflake.Base.{String, Bool, true, false, some, List, [], ◌∷◌, All, arith}
use batch_api_snowflake.Base.{get_elem?, length, Bool-cases}
use batch_api_snowflake.Errors.{Result, ok, >>=-eq-ok, ok-injective, guard, value_error}
use batch_api_snowflake.Values.{Datetime, Value, null, text, array, object, Fields, nil, cons}
use batch_api_snowflake.Platform.{Platform}
use batch_api_snowflake.Models.{
  City, WeatherObservation, must_be_utc, truthy, get_field, dict_or_empty,
}
use batch_api_snowflake.Models.{
  elements, list_or_empty, element_at, check_one, check_series, point, sources,
}
use batch_api_snowflake.Models.{
  parse_time, optional_float, optional_int, observation, observations_from,
}
use batch_api_snowflake.Models.{nth, flatten_times, flatten_hourly, coordinate}

-- A series is absent, or it has `n` points.
abbrev pub HasPoints : ℕ → Value → Type 0
HasPoints n v = (v ≡ null) ⊎ ((vs : List Value) × (elements v ≡ ok vs) × (length vs ≡ n))

-- The value at position `i` of a series; an absent series has `None` everywhere.
abbrev pub StandsAt : Value → ℕ → Value → Type 0
StandsAt v i x =
    ((v ≡ null) × (x ≡ null))
    ⊎ ((vs : List Value) × (elements v ≡ ok vs) × (get_elem? vs i ≡ some x))

guard-eq-ok : (b : Bool) → guard b value_error ≡ ok tt → b ≡ true
guard-eq-ok true h = refl
guard-eq-ok false h = cc

check_one-HasPoints : (v : Value) (n : ℕ) → check_one v n ≡ ok tt → HasPoints n v
unfolding check_one
check_one-HasPoints null n h = inl refl
check_one-HasPoints v n h =
    let (vs, e, g) = >>=-eq-ok (elements v) (λ points. guard (length points == n) value_error) h in
    inr (vs, e, (==_iff (length vs) n).0 (guard-eq-ok (length vs == n) g))

check_series-HasPoints :
    (hourly : Fields) (n : ℕ) (names : List String)
    → check_series hourly n names ≡ ok tt
    → All (λ s. HasPoints n (get_field hourly s)) names
unfolding check_series
check_series-HasPoints hourly n [] h = tt
check_series-HasPoints hourly n (s ∷ rest) h =
    let (_, e, h') = >>=-eq-ok (check_one (get_field hourly s) n) _ h in
    (check_one-HasPoints (get_field hourly s) n e, check_series-HasPoints hourly n rest h')

-- A sequence that is falsy has no point.
elements_of_falsy :
    (v : Value) (vs : List Value) → truthy v ≡ false → elements v ≡ ok vs → length vs ≡ 0
unfolding truthy elements
elements_of_falsy (text String.[]) vs f e = ground arith
elements_of_falsy (array nil) vs f e = ground arith
elements_of_falsy (object Fields.end) vs f e = ground arith
elements_of_falsy (text (String.◌∷◌ c s)) vs f e = cc
elements_of_falsy (array (cons v l)) vs f e = cc
elements_of_falsy (object (Fields.field k v l)) vs f e = cc
elements_of_falsy _ vs f e = cc

nth-eq-ok : (vs : List Value) (i : ℕ) (x : Value) → nth vs i ≡ ok x → get_elem? vs i ≡ some x
unfolding nth
nth-eq-ok vs i x h = ground arith

element_at-StandsAt : (v : Value) (i : ℕ) (x : Value) → element_at v i ≡ ok x → StandsAt v i x
unfolding element_at
element_at-StandsAt (object fs) i x h = cc
element_at-StandsAt v i x h =
    let (vs, e, g) = >>=-eq-ok (elements v) (λ vs. nth vs i) h in inr (vs, e, nth-eq-ok vs i x g)

-- What `StandsAt` says of a series that `or` replaced: it was absent, or it had no point at all.
falsy-StandsAt :
    (v : Value) (n i : ℕ) → HasPoints n v → i < n → truthy v ≡ false → StandsAt v i null
falsy-StandsAt v n i (inl e) lt f = inl (e, refl)
falsy-StandsAt v n i (inr (vs, e, l)) lt f = absurd (omega (arith, elements_of_falsy v vs f e))

point-StandsAt :
    (hourly : Fields) (s : String) (n i : ℕ) (x : Value)
    → HasPoints n (get_field hourly s)
    → i < n
    → point hourly s i ≡ ok x
    → StandsAt (get_field hourly s) i x
unfolding point
point-StandsAt hourly s n i x has lt h = elim (Bool-cases (truthy (get_field hourly s))) [
  | inl t ↦ element_at-StandsAt (get_field hourly s) i x (rw (t, point) at h)
  | inr f ↦
      let e : null ≡ x = cc (rw (f, point) at h) in
      rw (← e) (falsy-StandsAt (get_field hourly s) n i has lt f)
]

-- A measurement of an observation is pydantic's reading of the value at position `i` of its series.
abbrev pub Reads {ℓ} : {A : Type ℓ} → (Value → Result A) → Fields → String → ℕ → A → Type ℓ
Reads read hourly source i a =
    (v : Value) × StandsAt (get_field hourly source) i v × (read v ≡ ok a)

module _ (p : Platform) (city : City) (payload hourly : Fields) where
  -- An observation is that of hour `i`, whose time is `raw_time`.
  pub record IsHour (i : ℕ) (raw_time : Value) (o : WeatherObservation) : Type 0 where
    pub city_id : o.city_id ≡ city.city_id
    pub latitude : coordinate p payload "latitude" city.latitude ≡ ok o.latitude
    pub longitude : coordinate p payload "longitude" city.longitude ≡ ok o.longitude
    pub time : (t : Datetime) × (parse_time p raw_time ≡ ok t) × (o.observed_at_utc ≡ must_be_utc t)
    pub temperature : Reads (optional_float p) hourly "temperature_2m" i o.temperature_2m_c
    pub humidity :
        Reads (optional_float p) hourly "relative_humidity_2m" i o.relative_humidity_2m_pct
    pub precipitation : Reads (optional_float p) hourly "precipitation" i o.precipitation_mm
    pub wind : Reads (optional_float p) hourly "wind_speed_10m" i o.wind_speed_10m_kmh
    pub code : Reads (optional_int p) hourly "weather_code" i o.weather_code

  observation-IsHour :
      (n i : ℕ) (raw_time : Value) (o : WeatherObservation)
      → All (λ s. HasPoints n (get_field hourly s)) sources
      → i < n
      → observation p city payload hourly i raw_time ≡ ok o
      → IsHour i raw_time o
  unfolding observation
  observation-IsHour n i raw_time o (t, (h, (r, (w, (c, _))))) lt e =
      let (temperature, e1, k1) = >>=-eq-ok (point hourly "temperature_2m" i) _ e in
      let (humidity, e2, k2) = >>=-eq-ok (point hourly "relative_humidity_2m" i) _ k1 in
      let (rain, e3, k3) = >>=-eq-ok (point hourly "precipitation" i) _ k2 in
      let (wind, e4, k4) = >>=-eq-ok (point hourly "wind_speed_10m" i) _ k3 in
      let (code, e5, k5) = >>=-eq-ok (point hourly "weather_code" i) _ k4 in
      let (latitude, e6, k6) = >>=-eq-ok (coordinate p payload "latitude" city.latitude) _ k5 in
      let (longitude, e7, k7) = >>=-eq-ok (coordinate p payload "longitude" city.longitude) _ k6 in
      let (time, e8, k8) = >>=-eq-ok (parse_time p raw_time) _ k7 in
      let (temperature', f1, k9) = >>=-eq-ok (optional_float p temperature) _ k8 in
      let (humidity', f2, k10) = >>=-eq-ok (optional_float p humidity) _ k9 in
      let (rain', f3, k11) = >>=-eq-ok (optional_float p rain) _ k10 in
      let (wind', f4, k12) = >>=-eq-ok (optional_float p wind) _ k11 in
      let (code', f5, k13) = >>=-eq-ok (optional_int p code) _ k12 in
      subst (λ made. IsHour i raw_time made) (ok-injective k13)
        (record {
          city_id = refl;
          latitude = e6;
          longitude = e7;
          time = (time, e8, refl);
          temperature =
              (temperature, point-StandsAt hourly "temperature_2m" n i temperature t lt e1, f1);
          humidity =
              (humidity, point-StandsAt hourly "relative_humidity_2m" n i humidity h lt e2, f2);
          precipitation = (rain, point-StandsAt hourly "precipitation" n i rain r lt e3, f3);
          wind = (wind, point-StandsAt hourly "wind_speed_10m" n i wind w lt e4, f4);
          code = (code, point-StandsAt hourly "weather_code" n i code c lt e5, f5);
        })

  -- The rows from hour `i` on, against the times from hour `i` on.
  abbrev pub Hours : ℕ → List Value → List WeatherObservation → Type 0
  Hours i [] [] = Unit
  Hours i (t ∷ ts) (o ∷ os) = IsHour i t o × Hours (suc i) ts os
  Hours i _ _ = ⊥

  observations_from-Hours :
      (n i : ℕ) (times : List Value) (rows : List WeatherObservation)
      → All (λ s. HasPoints n (get_field hourly s)) sources
      → i + length times ≡ n
      → observations_from p city payload hourly i times ≡ ok rows
      → Hours i times rows
  unfolding observations_from
  observations_from-Hours n i [] rows has len e =
      let made : ◌≡◌ {A = List WeatherObservation} [] rows = ok-injective e in rw (← made) tt
  observations_from-Hours n i (t ∷ ts) rows has len e =
      let (row, e1, k1) = >>=-eq-ok (observation p city payload hourly i t) _ e in
      let (rest, e2, k2) = >>=-eq-ok (observations_from p city payload hourly (suc i) ts) _ k1 in
      subst (λ made. Hours i (t ∷ ts) made) (ok-injective k2)
        (
          observation-IsHour n i t row has (omega arith) e1,
          observations_from-Hours n (suc i) ts rest has (omega arith) e2,
        )

  flatten_times-Hours :
      (times : List Value) (rows : List WeatherObservation)
      → flatten_times p city payload hourly times ≡ ok rows
      → Hours 0 times rows
  unfolding flatten_times
  flatten_times-Hours [] rows e =
      let made : ◌≡◌ {A = List WeatherObservation} [] rows = ok-injective e in rw (← made) tt
  flatten_times-Hours (t ∷ ts) rows e =
      let n = length (t ∷ ts) in
      let (_, checked, k) = >>=-eq-ok (check_series hourly n sources) _ e in
      observations_from-Hours n 0 (t ∷ ts) rows (check_series-HasPoints hourly n sources checked)
        (omega arith) k

-- When `flatten_hourly` returns, there is exactly one row for each entry of `time`, in its order:
-- row i has the i-th time, read as UTC, the payload's coordinates or else the city's, and each of
-- its five measurements is the reading of the i-th value of its own series, or null where that
-- series is absent.
pub flatten_hourly-Hours :
    (p : Platform) (city : City) (payload hourly : Fields) (times : List Value)
    (rows : List WeatherObservation)
    → dict_or_empty (get_field payload "hourly") ≡ ok hourly
    → list_or_empty (get_field hourly "time") ≡ ok times
    → flatten_hourly p city payload ≡ ok rows
    → Hours p city payload hourly 0 times rows
unfolding flatten_hourly
flatten_hourly-Hours p city payload hourly times rows eh et e =
    flatten_times-Hours p city payload hourly times rows (rw (eh, et) at e)
