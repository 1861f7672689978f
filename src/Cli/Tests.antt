-- ===== src/Cli/Tests.antt =====
-- The commands at small inputs.
use batch_api_snowflake.Base.{
  ◌≡◌, refl, ◌+◌, ◌-◌, String, false, none, some, pos, List, [], ◌∷◌, Option, arith,
  String-discrete, decimal, codes,
}
use batch_api_snowflake.Errors.{
  Result, ok, err, value_error, type_error, data_quality_error, driver_error,
}
use batch_api_snowflake.Exec.{Exec}
use batch_api_snowflake.Values.{text}
use batch_api_snowflake.Calendar.{Date, sub_days}
use batch_api_snowflake.Models.{City}
use batch_api_snowflake.Catalogue.{load_cities}
use batch_api_snowflake.Contract.Documents.{document}
use batch_api_snowflake.Ddl.{Text, split_statements}
use batch_api_snowflake.Run.{run_window}
use batch_api_snowflake.Cli.{exit_code, traceback, exit_of}
use batch_api_snowflake.Cli.Commands.{
  IngestOptions, ingest, resolve_run_id, only_of, check_contract, apply_ddl_command,
}
use batch_api_snowflake.Cli.Newest.{ingest-newest}
use batch_api_snowflake.Fixtures.{platform, two_fields, settings, berlin, august, empty_world}

refused : exit_of (err (data_quality_error 1 24)) ≡ exit_code 2
unfolding exit_of
refused = refl

abbrev parse_date : String → Result Date
parse_date s = err value_error

abbrev catalogue : Option (Result (List City))
catalogue = some (ok (berlin ∷ []))

abbrev no_dates : IngestOptions
no_dates = record {
  start = none;
  end = none;
  day = none;
  cities = some ("berlin" ∷ []);
  full_refresh = false;
  land_only = false;
  run_id = some "";
}

-- A run id that is empty is replaced.
named : resolve_run_id no_dates.run_id "0123456789abcdef" ≡ "manual__0123456789ab"
unfolding resolve_run_id
named = refl

-- A date that cannot be read ends the process before anything is done.
unreadable :
    ingest platform two_fields settings "uuid" parse_date
      (pos 2)
      (august + 2)
      catalogue
      (record no_dates { day = some "20 August" })
      empty_world
    ≡ (traceback value_error, empty_world)
unfolding ingest
unreadable = refl

no_list :
    ingest platform two_fields settings "uuid" parse_date
      (pos 2)
      (august + 2)
      catalogue
      (record no_dates { cities = none })
      empty_world
    ≡ (traceback type_error, empty_world)
unfolding ingest sub_days
no_list = refl

berlin_only : load_cities catalogue (only_of ("berlin" ∷ [])) ≡ ok (berlin ∷ [])
unfolding load_cities only_of String-discrete
berlin_only = refl

ingest-newest_example :
    let day = august + 3 - 2 in
    let (r, w') =
      run_window platform two_fields settings
        (resolve_run_id (some "") "uuid")
        day
        day
        (berlin ∷ [])
        false
        false
        empty_world in
    ingest platform two_fields settings "uuid" parse_date
      (pos 2)
      (august + 3)
      catalogue
      no_dates
      empty_world
    ≡ (exit_of r, w')
ingest-newest_example =
    ingest-newest parse_date platform two_fields settings "uuid" 2 2 (august + 3) catalogue no_dates
      ("berlin" ∷ []) (berlin ∷ []) empty_world refl refl refl refl (omega arith) (omega arith)
      (omega arith) berlin_only

shape :
    check_contract
      (λ s. none)
      (("weather_observation.v1.yml", ok (document two_fields)) ∷ [])
      "weather_observation"
      1
    ≡ ok (record {
      name = text "weather_observation";
      version = pos 1;
      grain = text "one row per (city_id, observed_at_utc)";
      primary_key = "city_id, observed_at_utc";
      field_count = 2;
    })
unfolding check_contract String-discrete decimal
shape = refl

-- A statement that fails: nothing is committed, and the session is closed. The state is the list of
-- what was done.
abbrev refuse : Text → Exec (List String) (Unit {0})
refuse statement log = (err (driver_error "no privileges"), "execute" ∷ log)

closed_after_failure :
    apply_ddl_command
      (λ log. (ok tt, "connect" ∷ log))
      (λ log. "close" ∷ log)
      refuse
      (λ log. (ok tt, "commit" ∷ log))
      ((codes "001_a.sql", codes "A;B") ∷ [])
      []
    ≡ (err (driver_error "no privileges"), "close" ∷ "execute" ∷ "connect" ∷ [])
unfolding apply_ddl_command split_statements
closed_after_failure = refl
