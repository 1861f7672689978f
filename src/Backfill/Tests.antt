-- ===== src/Backfill/Tests.antt =====
-- A backfill of a week, and a unit that is executed, then another that cannot be read.
use batch_api_snowflake.Base.{
  refl, ap, String, true, false, Option, some, str_eq, if◌then◌else◌, List, All, any,
  String-discrete,
}
use batch_api_snowflake.Errors.{Result, err, value_error}
use batch_api_snowflake.Calendar.{Date, isoformat}
use batch_api_snowflake.Models.{City, payload_hash}
use batch_api_snowflake.Catalogue.{load_cities, missing}
use batch_api_snowflake.Warehouse.Session.{calm}
use batch_api_snowflake.Warehouse.Loader.{is_load_of}
use batch_api_snowflake.Run.{run, clamp}
use batch_api_snowflake.Run.Tests.{newest}
use batch_api_snowflake.Run.Again.Tests.{
  steady, same_payload, steady_payload, one_loaded, window_loaded,
}
use batch_api_snowflake.Backfill.{WorkItem, ingest_unit}
use batch_api_snowflake.Backfill.Units.{done, next, ingest_unit-Executed}
use batch_api_snowflake.Base.{◌≡◌, ◌+◌, [], ◌∷◌, flat_map, map, arith}
use batch_api_snowflake.Errors.{ok}
use batch_api_snowflake.Run.{date_range}
use batch_api_snowflake.Backfill.{plan}
use batch_api_snowflake.Backfill.Plan.{unit_of, plan-date_range}
use batch_api_snowflake.Fixtures.{platform, two_fields, settings, berlin, august}

plan-date_range_example :
    plan august (august + 6) (ok (berlin ∷ []))
    ≡ ok (flat_map (λ day. map (unit_of day) (berlin ∷ [])) (date_range august (august + 6)))
plan-date_range_example =
    plan-date_range august (august + 6) (berlin ∷ []) (omega arith) (omega arith)

abbrev parse : String → Result Date
parse s = if str_eq s (isoformat august) then ok august else err value_error

abbrev catalogue : Option (Result (List City))
catalogue = some (ok (berlin ∷ []))

abbrev first_unit : WorkItem
first_unit = record { city_id = "berlin"; day = isoformat august }

abbrev bad_unit : WorkItem
bad_unit = record { city_id = "berlin"; day = "yesterday" }

reads_day : parse (isoformat august) ≡ ok august
unfolding isoformat String-discrete
reads_day = refl

lists_berlin : load_cities catalogue (some ("berlin" ∷ [])) ≡ ok (berlin ∷ [])
unfolding load_cities missing String-discrete
lists_berlin = refl

returns :
    (ingest_unit parse platform two_fields settings "run"
      (august + 2)
      catalogue
      first_unit
      false
      (calm steady)).0
    ≡ ok one_loaded
unfolding ingest_unit run clamp
returns = rw (reads_day, lists_berlin, newest) window_loaded

ingest_unit-Executed_example :
    let after =
      (ingest_unit parse platform two_fields settings "run"
        (august + 2)
        catalogue
        first_unit
        false
        (calm steady)).1 in
    let last =
      (ingest_unit parse platform two_fields settings "retry"
        (august + 2)
        catalogue
        bad_unit
        true
        (record after { faults = some "250001" ∷ [] })).1 in
    All
      (λ city.
        any
          (is_load_of city.city_id august (payload_hash platform (same_payload city august)))
          last.committed.audit
        ≡ true)
      (berlin ∷ [])
ingest_unit-Executed_example =
    ingest_unit-Executed parse platform two_fields settings catalogue same_payload "run"
      (august + 2) august august first_unit (berlin ∷ []) false (calm steady) _ one_loaded _
      reads_day lists_berlin newest (omega arith) ((λ i. ap (λ r. r.0) (steady_payload i)), tt)
      returns (next "retry" (august + 2) bad_unit true (some "250001" ∷ []) _ _ [] (done _))
