-- ===== src/Models.antt =====
-- src/pipeline/models.py: the observation rows, made of the columnar payload.
pub mod Alignment
pub mod Ragged
mod Tests
use Prim.Native.Nat.{compare, Ordering}
use Prim.Native.String
use batch_api_snowflake.Base.{
  ℕ, zero, suc, ◌==◌, String, ◌<>◌, Bool, true, false, not, Option, none, some,
}
use batch_api_snowflake.Base.{ℤ, pos, ◌-ℤ◌, ltb_ℤ, List, [], ◌∷◌, get_elem?, length, take, is_empty}
use batch_api_snowflake.Base.{String-discrete, codes, if◌then◌else◌, ◌&&◌}
use batch_api_snowflake.Base.Dict.{Dict, lookup}
use batch_api_snowflake.Errors.{Result, ok, err, ◌>>=◌, ◌>>◌, guard, value_error, type_error}
use batch_api_snowflake.Errors.{key_error, index_error, attribute_error, validation_error}
use batch_api_snowflake.Values.{
  Float, nan, neg_inf, pos_inf, fin, Datetime, Value, null, boolean, integer, float, text,
}
use batch_api_snowflake.Values.{
  stamp, array, object, Items, nil, cons, Fields, items, fields, Row, float_of_int,
}
use batch_api_snowflake.Calendar.{Date, isoformat}
use batch_api_snowflake.Platform.{Platform}

abbrev pub contract_version : ℕ
contract_version = 1

pub record City : Type 0 where
  pub city_id : String
  pub name : String
  pub country_code : String
  pub latitude : Float
  pub longitude : Float
  pub timezone_name : String

pub record WeatherObservation : Type 0 where
  pub city_id : String
  pub latitude : Float
  pub longitude : Float
  pub observed_at_utc : Datetime
  pub temperature_2m_c : Option Float
  pub relative_humidity_2m_pct : Option Float
  pub precipitation_mm : Option Float
  pub wind_speed_10m_kmh : Option Float
  pub weather_code : Option ℤ

-- `_must_be_utc`: a naive reading is taken as UTC, an aware one is moved to UTC. Readings within
-- a day of the ends of the calendar, where `astimezone` overflows, are not told apart.
unfoldable pub must_be_utc : Datetime → Datetime
must_be_utc t = elim t.offset [
  | none ↦ record t { offset = some (pos 0) }
  | some o ↦ record { wall = t.wall -ℤ o; offset = some (pos 0) }
]

-- `bool(v)`
unfoldable pub truthy : Value → Bool
truthy null = false
truthy (boolean b) = b
truthy (integer (pos zero)) = false
truthy (integer n) = true
truthy (float (fin (pos zero))) = false
truthy (float x) = true
truthy (text String.[]) = false
truthy (text s) = true
truthy (stamp t) = true
truthy (array nil) = false
truthy (array vs) = true
truthy (object Fields.end) = false
truthy (object fs) = true

-- `d.get(key)` on a dict of the payload, where a missing key reads as `None`.
unfoldable pub get_field : Fields → String → Value
unfolding lookup fields
get_field fs key = elim (lookup String-discrete key (fields fs)) [ none ↦ null | some v ↦ v ]

-- `v or {}`, on which `.get` is then called.
unfoldable pub dict_or_empty : Value → Result Fields
unfolding truthy
dict_or_empty (object fs) = ok fs
dict_or_empty v = if truthy v then err attribute_error else ok Fields.end

characters : String → List Value
characters String.[] = []
characters (String.◌∷◌ c s) = text (String.◌∷◌ c String.[]) ∷ characters s

key_texts : Fields → List Value
key_texts Fields.end = []
key_texts (Fields.field k v fs) = text k ∷ key_texts fs

-- `list(v)`: what `len`, `enumerate` and the test for emptiness see of `v`.
unfoldable pub elements : Value → Result (List Value)
unfolding characters key_texts items
elements (text s) = ok (characters s)
elements (array vs) = ok (items vs)
elements (object fs) = ok (key_texts fs)
elements v = err type_error

-- `v or []`, as a sequence.
unfoldable pub list_or_empty : Value → Result (List Value)
unfolding truthy elements
list_or_empty v = if truthy v then elements v else ok []

nth : List Value → ℕ → Result Value
nth vs i = elim (get_elem? vs i) [ none ↦ err index_error | some x ↦ ok x ]

-- `v[i]` for a natural number `i`; a dict of JSON has no integer keys.
unfoldable pub element_at : Value → ℕ → Result Value
unfolding elements nth
element_at (object fs) i = err key_error
element_at v i = elements v >>= λ vs. nth vs i

-- The sources of `mapping`, which is in the order of the fields of an observation.
abbrev pub sources : List String
sources =
    "temperature_2m" ∷ "relative_humidity_2m" ∷ "precipitation" ∷ "wind_speed_10m" ∷ "weather_code"
    ∷ []

-- The test of one series: one that is there has as many points as `time`.
unfoldable pub check_one : Value → ℕ → Result (Unit {0})
unfolding elements
check_one null n = ok tt
check_one series n = elements series >>= λ points. guard (length points == n) value_error

-- The loop over `mapping.values()`.
unfoldable pub check_series : Fields → ℕ → List String → Result (Unit {0})
unfolding check_one
check_series hourly n [] = ok tt
check_series hourly n (source ∷ rest) = do
  check_one (get_field hourly source) n
  check_series hourly n rest

-- `(hourly.get(source) or [None] * len(times))[index]`
unfoldable pub point : Fields → String → ℕ → Result Value
unfolding truthy
point hourly source i =
    let series = get_field hourly source in if truthy series then element_at series i else ok null

module _ (p : Platform) where
  -- `float(v)`
  unfoldable pub to_float : Value → Result Float
  unfolding float_of_int
  to_float (float x) = ok x
  to_float (integer n) = ok (float_of_int n)
  to_float (boolean b) = ok (float_of_int (pos (if b then 1 else 0)))
  to_float (text s) = elim (p.float_of_text s) [ none ↦ err value_error | some x ↦ ok x ]
  to_float v = err type_error

  -- `float(payload.get(key, default))`: a key that is there with `null` is a TypeError.
  unfoldable pub coordinate : Fields → String → Float → Result Float
  unfolding to_float
  coordinate payload key default = elim (lookup String-discrete key (fields payload)) [
    | none ↦ ok default
    | some v ↦ to_float v
  ]

  -- `datetime.fromisoformat(raw_time)`
  unfoldable pub parse_time : Value → Result Datetime
  parse_time (text s) = elim (p.from_iso s) [ none ↦ err value_error | some t ↦ ok t ]
  parse_time v = err type_error

  -- pydantic on a field of type `float | None`, and `int | None`
  unfoldable pub optional_float : Value → Result (Option Float)
  optional_float null = ok none
  optional_float v = elim (p.float_field v) [ none ↦ err validation_error | some x ↦ ok (some x) ]

  unfoldable pub optional_int : Value → Result (Option ℤ)
  optional_int null = ok none
  optional_int v = elim (p.int_field v) [ none ↦ err validation_error | some n ↦ ok (some n) ]

  -- One round of the loop over `times`: the dict `values`, then the observation.
  unfoldable pub observation : City → Fields → Fields → ℕ → Value → Result WeatherObservation
  unfolding optional_float optional_int must_be_utc
  observation city payload hourly i raw_time = do
    temperature ← point hourly "temperature_2m" i
    humidity ← point hourly "relative_humidity_2m" i
    precipitation ← point hourly "precipitation" i
    wind ← point hourly "wind_speed_10m" i
    code ← point hourly "weather_code" i
    latitude ← coordinate payload "latitude" city.latitude
    longitude ← coordinate payload "longitude" city.longitude
    observed_at ← parse_time raw_time
    temperature' ← optional_float temperature
    humidity' ← optional_float humidity
    precipitation' ← optional_float precipitation
    wind' ← optional_float wind
    code' ← optional_int code
    ok (record {
      city_id = city.city_id;
      latitude = latitude;
      longitude = longitude;
      observed_at_utc = must_be_utc observed_at;
      temperature_2m_c = temperature';
      relative_humidity_2m_pct = humidity';
      precipitation_mm = precipitation';
      wind_speed_10m_kmh = wind';
      weather_code = code';
    })

  -- `for index, raw_time in enumerate(times)`, from `i` on.
  unfoldable pub observations_from :
      City → Fields → Fields → ℕ → List Value → Result (List WeatherObservation)
  observations_from city payload hourly i [] = ok []
  observations_from city payload hourly i (raw_time ∷ times) = do
    row ← observation city payload hourly i raw_time
    rows ← observations_from city payload hourly (suc i) times
    ok (row ∷ rows)

  -- `flatten_hourly`, after `times` is read.
  unfoldable pub flatten_times :
      City → Fields → Fields → List Value → Result (List WeatherObservation)
  unfolding observations_from check_series
  flatten_times city payload hourly [] = ok []
  flatten_times city payload hourly times = do
    check_series hourly (length times) sources
    observations_from city payload hourly 0 times

  unfoldable pub flatten_hourly : City → Fields → Result (List WeatherObservation)
  unfolding flatten_times
  flatten_hourly city payload = do
    hourly ← dict_or_empty (get_field payload "hourly")
    times ← list_or_empty (get_field hourly "time")
    flatten_times city payload hourly times

  -- `payload_hash`
  unfoldable pub payload_hash : Fields → String
  payload_hash payload = p.sha256_hex (p.dumps payload)

-- The text that `batch_id` hashes, under CONTRACT_VERSION.
unfoldable pub batch_key : String → Date → String
batch_key city_id day = city_id <> ("|" <> (isoformat day <> "|v1"))

-- `batch_id`
unfoldable pub batch_id : Platform → String → Date → String
unfolding batch_key
batch_id p city_id day = String.slice (p.sha256_hex (batch_key city_id day)) 0 32

abbrev pub float_or_null : Option Float → Value
float_or_null none = null
float_or_null (some x) = float x

abbrev pub int_or_null : Option ℤ → Value
int_or_null none = null
int_or_null (some n) = integer n

-- `obs.model_dump()`
unfoldable pub model_dump : WeatherObservation → Row
model_dump o =
    ("city_id", text o.city_id)
    ∷ ("latitude", float o.latitude)
    ∷ ("longitude", float o.longitude)
    ∷ ("observed_at_utc", stamp o.observed_at_utc)
    ∷ ("temperature_2m_c", float_or_null o.temperature_2m_c)
    ∷ ("relative_humidity_2m_pct", float_or_null o.relative_humidity_2m_pct)
    ∷ ("precipitation_mm", float_or_null o.precipitation_mm)
    ∷ ("wind_speed_10m_kmh", float_or_null o.wind_speed_10m_kmh)
    ∷ ("weather_code", int_or_null o.weather_code)
    ∷ []
