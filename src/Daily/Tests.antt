-- ===== src/Daily/Tests.antt =====
-- The run of the daily DAG for the interval that starts on 2026-08-22, executed on the day after.
use batch_api_snowflake.Base.{
  ◌≡◌, refl, ◌+◌, ◌-◌, String-discrete, str_eq, String, decimal, none, some, false, [], ◌∷◌,
  if◌then◌else◌, arith, Option, List,
}
use batch_api_snowflake.Errors.{Result, ok, err, value_error}
use batch_api_snowflake.Calendar.{Date, isoformat}
use batch_api_snowflake.Models.{City}
use batch_api_snowflake.Catalogue.{load_cities}
use batch_api_snowflake.Contract.Documents.{document}
use batch_api_snowflake.Run.{run_window}
use batch_api_snowflake.Daily.{target_date, preflight, ingest_city}
use batch_api_snowflake.Daily.Target.{ingest_city-target}
use batch_api_snowflake.Fixtures.{platform, two_fields, settings, berlin, august, empty_world}

abbrev parse : String → Result Date
parse s = if str_eq s (isoformat august) then ok august else err value_error

reads_date : parse (isoformat (august + 2 - 2)) ≡ ok august
unfolding isoformat String-discrete
reads_date = refl

abbrev catalogue : Option (Result (List City))
catalogue = some (ok (berlin ∷ []))

berlin_only : load_cities catalogue (some ("berlin" ∷ [])) ≡ ok (berlin ∷ [])
unfolding load_cities String-discrete
berlin_only = refl

targets : target_date (august + 2) ≡ ok "2026-08-20"
unfolding target_date
targets = refl

ready :
    preflight (λ s. none) (("weather_observation.v1.yml", ok (document two_fields)) ∷ []) catalogue
    ≡ ok ("berlin" ∷ [])
unfolding preflight String-discrete decimal
ready = refl

no_cities :
    preflight
      (λ s. none)
      (("weather_observation.v1.yml", ok (document two_fields)) ∷ [])
      (some (ok []))
    ≡ err value_error
unfolding preflight String-discrete decimal
no_cities = refl

ingest_city-target_example :
    (target_date (august + 2) ≡ ok (isoformat (august + 2 - 2)))
    × (ingest_city parse platform two_fields settings "run"
          (august + 3)
          catalogue
          "berlin"
          (isoformat (august + 2 - 2))
          false
          empty_world
        ≡ run_window platform two_fields settings "run"
            (august + 2 - 2)
            (august + 2 - 2)
            (berlin ∷ [])
            false
            false
            empty_world)
ingest_city-target_example =
    ingest_city-target parse platform two_fields settings "run" (august + 2) (august + 3) 2
      catalogue "berlin" (berlin ∷ []) false empty_world (omega arith) (omega arith) (omega arith)
      refl (omega arith) reads_date berlin_only
