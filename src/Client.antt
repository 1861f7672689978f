-- ===== src/Client.antt =====
-- src/pipeline/api/client.py: the HTTP client. The server is a parameter: what the n-th request of
-- the run gets, by the request. The waits between attempts (`wait_exponential_jitter`) are not modelled.
pub mod Retries
pub mod Answers
mod Tests
use batch_api_snowflake.Base.{
  ℕ, zero, suc, ◌-◌, ◌==◌, ltb, leb, Bool, true, false, Option, none, some, String,
}
use batch_api_snowflake.Base.{if◌then◌else◌, List, [], ◌∷◌, ◌<>◌, join, rstrip_slash}
use batch_api_snowflake.Errors.{
  Error, Result, ok, err, ◌>>=◌, ◌>>◌, guard, value_error, attribute_error,
}
use batch_api_snowflake.Errors.{transient_api_error, permanent_api_error}
use batch_api_snowflake.Values.{Float, Value, object, Fields}
use batch_api_snowflake.Calendar.{Date, isoformat}
use batch_api_snowflake.Models.{City, get_field, dict_or_empty, list_or_empty}

-- A GET request: its URL and its query parameters.
pub record Request : Type 0 where
  pub url : String
  pub latitude : Float
  pub longitude : Float
  pub start_date : String
  pub end_date : String
  pub hourly : String
  pub timezone : String

-- What a request gets: a transport failure (httpx.TimeoutException, httpx.TransportError), or a
-- response with its status code and its body, if that is JSON.
pub data Response : Type 0 where
  transport_failure : Response
  response : ℕ → Option Value → Response

unfoldable pub read_json : Option Value → Result Value
read_json none = err transient_api_error
read_json (some v) = ok v

-- The API: what its n-th request gets.
abbrev pub Server : Type 0
Server = ℕ → Request → Response

-- `HOURLY_VARIABLES`
abbrev pub hourly_variables : List String
hourly_variables =
    "temperature_2m" ∷ "relative_humidity_2m" ∷ "precipitation" ∷ "wind_speed_10m" ∷ "weather_code"
    ∷ []

-- The request of `fetch_hourly`, by a client for `base_url`.
unfoldable pub request : String → City → Date → Date → Request
unfolding rstrip_slash isoformat join
request base_url city start end = record {
  url = rstrip_slash base_url <> "/archive";
  latitude = city.latitude;
  longitude = city.longitude;
  start_date = isoformat start;
  end_date = isoformat end;
  hourly = join "," hourly_variables;
  timezone = "UTC";
}

-- `_get_once`, on the response.
unfoldable pub get_once : Response → Result Value
unfolding read_json
get_once transport_failure = err transient_api_error
get_once (response status body) =
    if status == 429
    then err transient_api_error
    else if leb 500 status
    then err transient_api_error
    else if leb 400 status
    then err (permanent_api_error status)
    else read_json body

-- `retry_if_exception_type(TransientApiError)`
unfoldable pub is_transient : Result Value → Bool
is_transient (err transient_api_error) = true
is_transient _ = false

-- The attempts of `_get`, of which `more` may follow the first: the result that is returned or
-- reraised, and the number of the next request.
unfoldable pub attempts : (ℕ → Response) → ℕ → ℕ → Result Value × ℕ
unfolding is_transient get_once
attempts server zero i = (get_once (server i), suc i)
attempts server (suc more) i =
    let again = attempts server more (suc i) in
    if is_transient (get_once (server i)) then again else (get_once (server i), suc i)

-- `_get`: `stop_after_attempt(n)` stops after attempt n, and after the first one if n is 0.
unfoldable pub get : (ℕ → Response) → ℕ → ℕ → Result Value × ℕ
unfolding attempts
get server max_retries i = attempts server (max_retries - 1) i

-- What `fetch_hourly` reads of the payload for its log line, which raises on other shapes.
unfoldable pub read_payload : Value → Result Fields
read_payload (object payload) = do
  hourly ← dict_or_empty (get_field payload "hourly")
  times ← list_or_empty (get_field hourly "time")
  ok payload
read_payload v = err attribute_error

-- `fetch_hourly`, of a client for `base_url`: every attempt makes the same request.
unfoldable pub fetch_hourly : Server → String → ℕ → ℕ → City → Date → Date → Result Fields × ℕ
unfolding get read_payload request
fetch_hourly server base_url max_retries i city start end =
    let (r, i') = get (λ n. server n (request base_url city start end)) max_retries i in
    if ltb end start then (err value_error, i) else (r >>= read_payload, i')
