-- ===== src/Catalogue/Tests.antt =====
-- A catalogue of one city, and lines of the file that are refused.
use batch_api_snowflake.Base.{◌≡◌, ◌↔◌, [], ◌∷◌, keep, contains, some, String-discrete}
use batch_api_snowflake.Errors.{ok}
use batch_api_snowflake.Base.{refl, pos, String, Option, none, All, str_eq, if◌then◌else◌}
use batch_api_snowflake.Base.Dict.{lookup}
use batch_api_snowflake.Errors.{err, value_error, validation_error}
use batch_api_snowflake.Values.{Float, fin, float_lt, float_of_int}
use batch_api_snowflake.Catalogue.Cities.{CsvRow, column, as_float, as_text, fits_city, read_cities}
use batch_api_snowflake.Catalogue.Validity.{IsCity, load_cities-IsCity}
use batch_api_snowflake.Catalogue.{only_cities, load_cities}
use batch_api_snowflake.Catalogue.Filter.{AreKnown, only_cities_iff}
use batch_api_snowflake.Fixtures.{berlin}

only_cities_iff_example : (only_cities (some ("berlin" ∷ [])) (berlin ∷ []) ≡ ok (berlin ∷ [])) ↔ (
    AreKnown ("berlin" ∷ []) (berlin ∷ [])
    × (keep (λ c. contains String-discrete ("berlin" ∷ []) c.city_id) (berlin ∷ []) ≡ berlin ∷ []))
only_cities_iff_example = only_cities_iff "berlin" [] (berlin ∷ []) (berlin ∷ [])

-- Of texts, "52" and "13" are read as floats.
abbrev read_degrees : String → Option Float
read_degrees s =
    if str_eq s "52"
    then some (fin (pos 52))
    else if str_eq s "13"
    then some (fin (pos 13))
    else none

abbrev line_of : String → String → CsvRow
line_of city_id latitude =
    ("city_id", some city_id)
    ∷ ("name", some "Berlin")
    ∷ ("country_code", some "DE")
    ∷ ("latitude", some latitude)
    ∷ ("longitude", some "13")
    ∷ ("timezone_name", some "Europe/Berlin")
    ∷ []

reads_berlin :
    load_cities (some (read_cities read_degrees (line_of "berlin" "52" ∷ []))) none
    ≡ ok (berlin ∷ [])
unfolding load_cities read_cities column as_float as_text fits_city lookup String-discrete float_lt
    float_of_int
reads_berlin = refl

slash_in_id : read_cities read_degrees (line_of "ber/lin" "52" ∷ []) ≡ err validation_error
unfolding read_cities column as_float as_text fits_city lookup String-discrete float_lt
slash_in_id = refl

no_latitude : read_cities read_degrees (line_of "berlin" "north" ∷ []) ≡ err value_error
unfolding read_cities column as_float as_text fits_city lookup String-discrete
no_latitude = refl

load_cities-IsCity_example : All IsCity (berlin ∷ [])
load_cities-IsCity_example =
    load_cities-IsCity read_degrees (line_of "berlin" "52" ∷ []) none (berlin ∷ []) reads_berlin
