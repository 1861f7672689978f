-- ===== src/Fixtures.antt =====
-- Concrete data for the runs and the witnesses: two of the fields of
-- contracts/weather_observation.v1.yml, one city, and a payload of two hours.
use Prim.Native.String
use batch_api_snowflake.Base.{
  String, ◌<>◌, zero, suc, ◌*◌, ◌+◌, ℤ, pos, true, false, Option, none, some,
}
use batch_api_snowflake.Base.{[], ◌∷◌, str_eq, if◌then◌else◌}
use batch_api_snowflake.Values.{
  Float, fin, Datetime, Value, null, text, float, integer, array, object, nil,
}
use batch_api_snowflake.Values.{cons, Fields, Row}
use batch_api_snowflake.Calendar.{Date}
use batch_api_snowflake.Platform.{Platform}
use batch_api_snowflake.Contract.{FieldSpec, Contract}
use batch_api_snowflake.Models.{City, WeatherObservation}
use batch_api_snowflake.Client.{Server, transport_failure, response}
use batch_api_snowflake.Disk.{FilePath}
use batch_api_snowflake.Warehouse.Session.{World, Tables}
use batch_api_snowflake.Run.{Settings}

abbrev pub city_id_spec : FieldSpec
city_id_spec = record {
  name = "city_id";
  type_name = "string";
  required = true;
  min = none;
  max = none;
  description = some "Stable slug we assign, not supplied by the API.";
}

abbrev pub humidity_spec : FieldSpec
humidity_spec = record {
  name = "relative_humidity_2m_pct";
  type_name = "float";
  required = false;
  min = some (fin (pos 0));
  max = some (fin (pos 100));
  description = none;
}

abbrev pub two_fields : Contract
two_fields = record {
  name = "weather_observation";
  version = 1;
  grain = "one row per (city_id, observed_at_utc)";
  primary_key = "city_id" ∷ "observed_at_utc" ∷ [];
  partition_key = "observation_date";
  source_lag_days = pos 2;
  fields = city_id_spec ∷ humidity_spec ∷ [];
  unknown_field_action = "warn_and_keep";
}

abbrev pub good_row : Row
good_row = ("city_id", text "berlin") ∷ ("relative_humidity_2m_pct", float (fin (pos 60))) ∷ []

abbrev pub wet_row : Row
wet_row = ("city_id", text "berlin") ∷ ("relative_humidity_2m_pct", float (fin (pos 940))) ∷ []

-- 2026-08-20
abbrev pub august : Date
august = 739848

abbrev pub midnight : Datetime
midnight = record { wall = pos (739847 * 86400000000); offset = none }

abbrev pub one_oclock : Datetime
one_oclock = record { wall = pos (739847 * 86400000000 + 3600000000); offset = none }

abbrev pub utc_midnight : Datetime
utc_midnight = record { wall = pos (739847 * 86400000000); offset = some (pos 0) }

abbrev pub utc_one_oclock : Datetime
utc_one_oclock = record { wall = pos (739847 * 86400000000 + 3600000000); offset = some (pos 0) }

abbrev read_time : String → Option Datetime
read_time s =
    if str_eq s "2026-08-20T00:00"
    then some midnight
    else if str_eq s "2026-08-20T01:00"
    then some one_oclock
    else none

abbrev read_float : Value → Option Float
read_float (float x) = some x
read_float _ = none

abbrev read_int : Value → Option ℤ
read_int (integer n) = some n
read_int _ = none

-- A digest of 64 characters, of which the first are those of the text.
abbrev pub platform : Platform
platform = record {
  sha256_hex = λ s.
      String.slice (s <> "0000000000000000000000000000000000000000000000000000000000000000") 0 64;
  dumps = λ payload. "payload";
  from_iso = read_time;
  float_of_text = λ s. none;
  float_field = read_float;
  int_field = read_int;
  int32_fits = λ n. true;
}

abbrev pub berlin : City
berlin = record {
  city_id = "berlin";
  name = "Berlin";
  country_code = "DE";
  latitude = fin (pos 52);
  longitude = fin (pos 13);
  timezone_name = "Europe/Berlin";
}

abbrev pub times : Value
times = array (cons (text "2026-08-20T00:00") (cons (text "2026-08-20T01:00") nil))

abbrev pub hourly : Fields
hourly =
    Fields.field "time" times (
      Fields.field "temperature_2m" (array (cons (float (fin (pos 20))) (cons null nil)))
        Fields.end)

abbrev pub payload : Fields
payload = Fields.field "hourly" (object hourly) Fields.end

-- One point for two hours.
abbrev pub ragged_hourly : Fields
ragged_hourly =
    Fields.field "time" times
      (Fields.field "temperature_2m" (array (cons (float (fin (pos 20))) nil)) Fields.end)

abbrev pub ragged : Fields
ragged = Fields.field "hourly" (object ragged_hourly) Fields.end

abbrev pub observed : Datetime → Option Float → WeatherObservation
observed t temperature = record {
  city_id = "berlin";
  latitude = fin (pos 52);
  longitude = fin (pos 13);
  observed_at_utc = t;
  temperature_2m_c = temperature;
  relative_humidity_2m_pct = none;
  precipitation_mm = none;
  wind_speed_10m_kmh = none;
  weather_code = none;
}

abbrev pub first_hour : WeatherObservation
first_hour = observed utc_midnight (some (fin (pos 20)))

abbrev pub second_hour : WeatherObservation
second_hour = observed utc_one_oclock none

-- The server of a run: one transport failure, then the payload.
abbrev pub flaky : Server
flaky zero asked = transport_failure
flaky (suc i) asked = response 200 (some (object payload))

abbrev pub no_tables : Tables
no_tables = record { raw = []; audit = [] }

abbrev pub root : FilePath
root = "data" ∷ "landing" ∷ []

abbrev pub settings : Settings
settings = record {
  landing_zone_root = root;
  weather_api_base_url = "https://archive-api.open-meteo.com/v1";
  weather_api_max_retries = 5;
  now = utc_midnight;
}

abbrev pub empty_world : World
empty_world = record {
  disk = [];
  stage = [];
  committed = no_tables;
  current = no_tables;
  autocommit = true;
  faults = [];
  server = flaky;
  requests = 0;
}
