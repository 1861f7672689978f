-- ===== src/Config.antt =====
-- src/pipeline/config.py: the settings, by their environment variables. What pydantic-settings finds
-- for a field in the environment or in `.env`, as a text, is a dict by the field's name, and how it
-- reads a text as a number is a parameter.
mod Tests
use batch_api_snowflake.Base.{
  ◌≡◌, refl, ℕ, ℤ, pos, negsuc, String, ◌<>◌, Bool, true, false, Option, none, some, List, [], ◌∷◌,
  contains, String-discrete,
}
use batch_api_snowflake.Base.Dict.{Dict, lookup}
use batch_api_snowflake.Errors.{Result, ok, err, validation_error, guard, ◌>>=◌, ◌>>◌}
use batch_api_snowflake.Values.{Float, Datetime, float_of_int}
use batch_api_snowflake.Disk.{FilePath}
use batch_api_snowflake.Run as Run

-- The fields of `Settings`; a secret is its text, and the root of the landing zone is a relative
-- path, by its segments.
pub record Settings : Type 0 where
  pub weather_api_base_url : String
  pub weather_api_timeout_seconds : Float
  pub weather_api_max_retries : ℤ
  pub source_lag_days : ℤ
  pub landing_zone_root : FilePath
  pub snowflake_account : String
  pub snowflake_user : String
  pub snowflake_password : String
  pub snowflake_role : String
  pub snowflake_warehouse : String
  pub snowflake_database : String
  pub snowflake_raw_schema : String
  pub pipeline_env : String
  pub log_level : String
  pub contracts_dir : String

-- `raw_fqn`
unfoldable pub raw_fqn : Settings → String
raw_fqn s = s.snowflake_database <> ("." <> s.snowflake_raw_schema)

-- How pydantic reads the text of a number and of a path; `none` is a ValidationError.
pub record Readers : Type 0 where
  pub read_int : String → Option ℤ
  pub read_float : String → Option Float
  pub read_path : String → FilePath

read_as : {A : Type 0} → Option A → Result A
read_as none = err validation_error
read_as (some a) = ok a

field_value : {A : Type 0} → (String → Option A) → A → Option String → Result A
unfolding read_as
field_value read default none = ok default
field_value read default (some s) = read_as (read s)

module _ (r : Readers) (env : Dict String String) where
  -- A field: what the environment has for it, or its default.
  unfoldable pub setting : {A : Type 0} → (String → Option A) → String → A → Result A
  unfolding field_value lookup
  setting read name default = field_value read default (lookup String-discrete name env)

  abbrev text_setting : String → String → Result String
  text_setting = setting some

  -- `Settings()`
  unfoldable pub settings : Result Settings
  unfolding setting
  settings = do
    base_url ← text_setting "weather_api_base_url" "https://archive-api.open-meteo.com/v1"
    timeout ← setting r.read_float "weather_api_timeout_seconds" (float_of_int (pos 30))
    max_retries ← setting r.read_int "weather_api_max_retries" (pos 5)
    lag_days ← setting r.read_int "source_lag_days" (pos 2)
    root ← setting (λ s. some (r.read_path s)) "landing_zone_root" ("data" ∷ "landing" ∷ [])
    account ← text_setting "snowflake_account" ""
    user ← text_setting "snowflake_user" ""
    password ← text_setting "snowflake_password" ""
    role ← text_setting "snowflake_role" "TRANSFORMER"
    warehouse ← text_setting "snowflake_warehouse" "WH_INGEST_XS"
    database ← text_setting "snowflake_database" "WEATHER"
    raw_schema ← text_setting "snowflake_raw_schema" "RAW"
    pipeline_env ← text_setting "pipeline_env" "dev"
    guard (contains String-discrete ("dev" ∷ "ci" ∷ "prod" ∷ []) pipeline_env) validation_error
    log_level ← text_setting "log_level" "INFO"
    contracts_dir ← text_setting "contracts_dir" "contracts"
    ok (record {
      weather_api_base_url = base_url;
      weather_api_timeout_seconds = timeout;
      weather_api_max_retries = max_retries;
      source_lag_days = lag_days;
      landing_zone_root = root;
      snowflake_account = account;
      snowflake_user = user;
      snowflake_password = password;
      snowflake_role = role;
      snowflake_warehouse = warehouse;
      snowflake_database = database;
      snowflake_raw_schema = raw_schema;
      pipeline_env = pipeline_env;
      log_level = log_level;
      contracts_dir = contracts_dir;
    })

remember : Result Settings → Result Settings × Option Settings
remember (ok s) = (ok s, some s)
remember (err e) = (err e, none)

-- `get_settings`, with its `lru_cache` of one entry, which keeps a value and never an exception.
unfoldable pub get_settings :
    Readers → Dict String String → Option Settings → Result Settings × Option Settings
unfolding settings remember
get_settings r env none = remember (settings r env)
get_settings r env (some s) = (ok s, some s)

-- `stop_after_attempt` stops a negative number of retries where it stops none.
attempts_of : ℤ → ℕ
attempts_of (pos n) = n
attempts_of (negsuc n) = 0

-- The settings that a run reads, at a time of the clock.
unfoldable pub run_settings : Settings → Datetime → Run.Settings
unfolding attempts_of
run_settings s now = record {
  landing_zone_root = s.landing_zone_root;
  weather_api_base_url = s.weather_api_base_url;
  weather_api_max_retries = attempts_of s.weather_api_max_retries;
  now = now;
}
