-- ===== src/Run/UniqueTests.antt =====
-- A run at a server that always sends the payload of two hours.
use batch_api_snowflake.Base.{◌≡◌, refl, List, [], ◌∷◌, true, false, some, ◌+◌}
use batch_api_snowflake.Base.{ℕ, sym, ap, subst, ◌∙◌, ℕ_discrete}
use batch_api_snowflake.Values.{object}
use batch_api_snowflake.Errors.{ok-injective}
use batch_api_snowflake.Models.{City}
use batch_api_snowflake.Warehouse.Merge.{ℤ-discrete}
use batch_api_snowflake.Warehouse.Merge.Keys.{HasUniqueKeys}
use batch_api_snowflake.Run.OneDay.{ltb_irrefl}
use batch_api_snowflake.Run.Hours.{HasDistinctHours}
use batch_api_snowflake.Warehouse.Loader.Clean.{Covers}
use batch_api_snowflake.Warehouse.Session.{Tables}
use batch_api_snowflake.Warehouse.Merge.{select}
use batch_api_snowflake.Landing.{landed_records}
use batch_api_snowflake.Base.{map}
use batch_api_snowflake.Fixtures.{utc_midnight}
use batch_api_snowflake.Run.Unique.{IsHourly, run-HasUniqueKeys}
use batch_api_snowflake.Base.{String-discrete}
use batch_api_snowflake.Errors.{ok}
use batch_api_snowflake.Client.{response, fetch_hourly}
use batch_api_snowflake.Models.{flatten_hourly, WeatherObservation, observation, point, element_at}
use batch_api_snowflake.Models.{coordinate, parse_time, get_field, dict_or_empty, list_or_empty}
use batch_api_snowflake.Warehouse.Session.{World}
use batch_api_snowflake.Run.{run}
use batch_api_snowflake.Fixtures.{
  platform, two_fields, settings, berlin, august, payload, first_hour, second_hour, empty_world,
}

-- A server that always sends the payload of two hours.
abbrev steady : World
steady = record empty_world { server = λ i asked. response 200 (some (object payload)) }

steady_payload :
    (c : City) (day i : ℕ)
    → (fetch_hourly steady.server settings.weather_api_base_url 5 i c day day).0 ≡ ok payload
unfolding fetch_hourly dict_or_empty get_field String-discrete list_or_empty
steady_payload c day i = rw (ltb_irrefl day) refl

-- The table has the first hour, under another payload.
abbrev old_tables : Tables
old_tables = record {
  raw = map select (landed_records platform utc_midnight "berlin" august "old" (first_hour ∷ []));
  audit = [];
}

abbrev loaded : World
loaded = record steady { committed = old_tables; current = old_tables }

abbrev hours_of : City → List WeatherObservation
hours_of c =
    (record first_hour { city_id = c.city_id; latitude = c.latitude; longitude = c.longitude })
    ∷ (record second_hour { city_id = c.city_id; latitude = c.latitude; longitude = c.longitude })
    ∷ []

two_hours_of : (c : City) → flatten_hourly platform c payload ≡ ok (hours_of c)
unfolding flatten_hourly String-discrete dict_or_empty get_field list_or_empty observation point
    element_at coordinate parse_time
two_hours_of c = refl

hours_distinct : (c : City) → HasDistinctHours (hours_of c)
unfolding ℤ-discrete ℕ_discrete
hours_distinct c = ((refl, tt), (tt, tt))

steady-IsHourly : IsHourly platform settings.weather_api_base_url 5 steady.server
steady-IsHourly c day i sent os fetched_it flat =
    let same : payload ≡ sent = ok-injective (cc (steady_payload c day i, fetched_it)) in
    let hours_same : hours_of c ≡ os =
      ok-injective (sym (two_hours_of c) ∙ ap (flatten_hourly platform c) same ∙ flat) in
    subst HasDistinctHours hours_same (hours_distinct c)

run-HasUniqueKeys_example :
    let after =
      (run platform two_fields settings "run"
        (august + 2)
        august
        (august + 1)
        (berlin ∷ [])
        true
        false
        loaded).1.committed.raw in
    HasUniqueKeys after × Covers loaded.committed.raw after
unfolding landed_records
run-HasUniqueKeys_example =
    run-HasUniqueKeys platform two_fields settings "run" (august + 2) august (august + 1)
      (berlin ∷ []) true false loaded steady-IsHourly (tt, tt) refl
