-- ===== src/Client/Answers.antt =====
-- What `fetch_hourly` asks for, and what it makes of the answer.
use batch_api_snowflake.Base.{
  ◌≡◌, refl, inl, inr, ℕ, suc, ◌+◌, ◌-◌, ◌≤◌, ◌<◌, ◌==◌, leb, ltb, false, String, ◌<>◌,
}
use batch_api_snowflake.Base.{Option, none, some, arith, Bool-cases, join, rstrip_slash}
use batch_api_snowflake.Errors.{Result, ok, err, permanent_api_error, ◌>>=◌}
use batch_api_snowflake.Calendar.{Date, isoformat}
use batch_api_snowflake.Models.{City, get_field, dict_or_empty, list_or_empty, elements, truthy}
use batch_api_snowflake.Values.{Value, Items, Fields, object, array, nil, cons}
use batch_api_snowflake.Client.{
  Request, Response, transport_failure, response, get_once, Server, request, fetch_hourly,
  read_payload, read_json,
}
use batch_api_snowflake.Client.Retries.{
  IsTransient, transport, rate_limited, server_error, not_json, get-settled,
}

-- The request for the hours of a city from a first to a last day.
abbrev pub archive_request : String → City → Date → Date → Request
archive_request base_url city start end = record {
  url = rstrip_slash base_url <> "/archive";
  latitude = city.latitude;
  longitude = city.longitude;
  start_date = isoformat start;
  end_date = isoformat end;
  hourly = "temperature_2m,relative_humidity_2m,precipitation,wind_speed_10m,weather_code";
  timezone = "UTC";
}

request_lem :
    (base_url : String) (city : City) (start end : Date)
    → request base_url city start end ≡ archive_request base_url city start end
unfolding request join
request_lem base_url city start end = refl

-- A payload with an object of hourly series that has an array of times.
abbrev pub IsWhole : Value → Type 0
IsWhole v =
    (payload : Fields) × (hourly : Fields) × (times : Items) × (v ≡ object payload)
    × (get_field payload "hourly" ≡ object hourly)
    × (get_field hourly "time" ≡ array times)

-- What an answer that is no transient failure is read as: a status from 400 on is refused, the body
-- of another is returned where it is whole, and is left to `read_payload` where it is not.
pub data Reads : Response → Result Fields → Type 0 where
  refused :
      (b : Option Value) (s : ℕ) → 400 ≤ s → Reads (response s b) (err (permanent_api_error s))
  whole :
      (payload : Fields) (s : ℕ)
      → s < 400
      → IsWhole (object payload)
      → Reads (response s (some (object payload))) (ok payload)
  misshapen :
      (v : Value) (s : ℕ) → s < 400 → ¬ IsWhole v → Reads (response s (some v)) (read_payload v)

array_times :
    (payload hourly : Fields) (times : Items)
    → get_field payload "hourly" ≡ object hourly
    → get_field hourly "time" ≡ array times
    → read_payload (object payload) ≡ ok payload
unfolding read_payload dict_or_empty list_or_empty elements truthy
array_times payload hourly nil h t = rw (h, t) refl
array_times payload hourly (cons v vs) h t = rw (h, t) refl

is_whole : (v : Value) → Dec (IsWhole v)
is_whole (object payload) = go (get_field payload "hourly") refl
  where
    go : (v : Value) → get_field payload "hourly" ≡ v → Dec (IsWhole (object payload))
    go (object hourly) h = times (get_field hourly "time") refl
      where
        times : (v : Value) → get_field hourly "time" ≡ v → Dec (IsWhole (object payload))
        times (array ts) t = yes (payload, hourly, ts, refl, h, t)
        times v t = no (λ (payload', hourly', ts', e, h', t'). cc)
    go v h = no (λ (payload', hourly', ts', e, h', t'). cc)
is_whole v = no (λ (payload, hourly, times, e, h, t). cc)

Reads-read_payload : (v : Value) (s : ℕ) → s < 400 → Reads (response s (some v)) (read_payload v)
Reads-read_payload v s low = elim (is_whole v) [
  | no n ↦ misshapen v s low n
  | yes (payload, hourly, times, e, h, t) ↦
      rw (e, array_times payload hourly times h t)
        (whole payload s low (payload, hourly, times, refl, h, t))
]

-- A body under a status below 400.
body :
    (b : Option Value) {s : ℕ}
    → s < 400
    → ¬ IsTransient (response s b)
    → Reads (response s b) (read_json b >>= read_payload)
unfolding read_json
body none {s} low n = absurd (n (not_json none s low refl))
body (some v) {s} low n = Reads-read_payload v s low

settled-Reads : (r : Response) → ¬ IsTransient r → Reads r (get_once r >>= read_payload)
unfolding get_once
settled-Reads transport_failure n = absurd (n transport)
settled-Reads (response s b) n = elim (Bool-cases (s == 429)) [
  | inl e ↦ absurd (n (rate_limited b s (ground (arith, e))))
  | inr e ↦ elim (Bool-cases (leb 500 s)) [
    | inl f ↦ absurd (n (server_error b s (ground (arith, f))))
    | inr f ↦ elim (Bool-cases (leb 400 s)) [
      | inl g ↦ rw (e, f, g) (refused b s (ground (arith, g)))
      | inr g ↦ rw (e, f, g) (body b (ground (arith, g)) n)
    ]
  ]
]

-- `fetch_hourly` of days that are in order asks for the five hourly series at the coordinates of the
-- city, from the first to the last day, in UTC, by one request, however often. When the m-th request of a run is the first from the i-th on that does not fail transiently,
-- and one of the `max_retries` that are allowed (of 1, when `max_retries` is 0), it is the
-- last request that is made, and the result is what its answer is read as: the payload, or the error
-- of a status from 400 on, where a body that has no array of times is left to `read_payload`.
pub fetch_hourly-settled :
    (server : Server) (base_url : String) (max_retries i m : ℕ) (city : City) (start end : Date)
    → start ≤ end
    → i ≤ m
    → m ≤ i + (max_retries - 1)
    → ((j : ℕ) → i ≤ j → j < m → IsTransient (server j (archive_request base_url city start end)))
    → ¬ IsTransient (server m (archive_request base_url city start end))
    → let (result, next) = fetch_hourly server base_url max_retries i city start end in
      Reads (server m (archive_request base_url city start end)) result × (next ≡ suc m)
unfolding fetch_hourly
fetch_hourly-settled server base_url max_retries i m city start end in_order le bound before now =
    let answers = λ (n : ℕ). server n (archive_request base_url city start end) in
    let not_late : ltb end start ≡ false = ground (arith, in_order) in
    rw
      (
        not_late,
        request_lem base_url city start end,
        get-settled answers max_retries i m le bound before now,
      )
      (settled-Reads (answers m) now, refl)
