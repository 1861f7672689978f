-- ===== src/Config/Tests.antt =====
-- The settings of an empty environment, and of one that names no known one.
use batch_api_snowflake.Base.{◌≡◌, refl, none, [], ◌∷◌, String-discrete}
use batch_api_snowflake.Base.Dict.{lookup}
use batch_api_snowflake.Errors.{ok, err, validation_error, ◌>>=◌}
use batch_api_snowflake.Config.{Readers, Settings, settings, run_settings, raw_fqn}
use batch_api_snowflake.Base.{String}
use batch_api_snowflake.Run as Run
use batch_api_snowflake.Fixtures as Fixtures

-- Readers that read nothing.
abbrev no_readers : Readers
no_readers = record { read_int = λ s. none; read_float = λ s. none; read_path = λ s. [] }

abbrev run_of : Settings → Run.Settings × String
run_of s = (run_settings s Fixtures.utc_midnight, raw_fqn s)

-- The defaults, under which a run reads the settings of the other tests.
defaults_run :
    settings no_readers [] >>= (λ s. ok (run_of s)) ≡ ok (Fixtures.settings, "WEATHER.RAW")
unfolding settings String-discrete lookup run_settings raw_fqn
defaults_run = refl

unknown_env : settings no_readers (("pipeline_env", "staging") ∷ []) ≡ err validation_error
unfolding settings String-discrete lookup
unknown_env = refl
