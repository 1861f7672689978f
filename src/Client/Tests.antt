-- ===== src/Client/Tests.antt =====
-- The client at a server that fails once.
use batch_api_snowflake.Base.{◌≡◌, ℕ, zero, suc, ◌≤◌, ◌<◌, arith}
use batch_api_snowflake.Errors.{err, transient_api_error}
use batch_api_snowflake.Base.{refl, ◌+◌}
use batch_api_snowflake.Client.{Response, request, transport_failure, get, fetch_hourly}
use batch_api_snowflake.Client.Retries.{
  IsTransient, transport, rate_limited, server_error, not_json, get-exhausted,
}
use batch_api_snowflake.Client.Answers.{archive_request, Reads, fetch_hourly-settled}
use batch_api_snowflake.Fixtures.{flaky, berlin, august}

-- The answers of the server to one request.
abbrev answers : ℕ → Response
answers i = flaky i (archive_request "https://archive-api.open-meteo.com/v1/" berlin august august)

first_fails : (j : ℕ) → 0 ≤ j → j < 1 → IsTransient (answers j)
first_fails zero le lt = transport
first_fails (suc j) le lt = absurd (omega arith)

second_answers : ¬ IsTransient (answers 1)
second_answers (rate_limited body s e) = omega arith
second_answers (server_error body s le) = omega arith
second_answers (not_json body s lt e) = cc

fetch_hourly-settled_example :
    let (result, next) =
      fetch_hourly flaky "https://archive-api.open-meteo.com/v1/" 5 0 berlin august august in
    Reads (answers 1) result × (next ≡ 2)
fetch_hourly-settled_example =
    fetch_hourly-settled flaky "https://archive-api.open-meteo.com/v1/" 5 0 1 berlin august august
      (omega arith) (omega arith) (omega arith) first_fails second_answers

get-exhausted_example : get (λ i. transport_failure) 5 0 ≡ (err transient_api_error, 5)
get-exhausted_example = get-exhausted (λ i. transport_failure) 5 0 (λ j le le'. transport)

asks : request "https://archive-api.open-meteo.com/v1/" berlin august (august + 1) ≡ record {
  url = "https://archive-api.open-meteo.com/v1/archive";
  latitude = berlin.latitude;
  longitude = berlin.longitude;
  start_date = "2026-08-20";
  end_date = "2026-08-21";
  hourly = "temperature_2m,relative_humidity_2m,precipitation,wind_speed_10m,weather_code";
  timezone = "UTC";
}
unfolding request
asks = refl
