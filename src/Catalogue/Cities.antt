-- ===== src/Catalogue/Cities.antt =====
-- src/pipeline/catalogue.py: the rows of the catalogue, and src/pipeline/models.py: the constraints
-- of City. A row is what `csv.DictReader` gives: a text for each column, or None where the line is
-- too short. How `float` reads a text is a parameter. A nan, which compares with nothing, is taken to
-- pass pydantic's bounds.
use batch_api_snowflake.Base.{
  ℕ, pos, negsuc, ◌==◌, leb, String, Bool, not, ◌&&◌, ◌||◌, Option, none, some, List, [], ◌∷◌, all,
  length, is_empty, codes, String-discrete,
}
use batch_api_snowflake.Base.Dict.{Dict, lookup}
use batch_api_snowflake.Errors.{
  Result, ok, err, guard, ◌>>=◌, ◌>>◌, key_error, type_error, value_error, validation_error,
}
use batch_api_snowflake.Values.{Float, float_lt, float_of_int}
use batch_api_snowflake.Models.{City}

abbrev pub CsvRow : Type 0
CsvRow = Dict String (Option String)

found : Option (Option String) → Result (Option String)
found none = err key_error
found (some v) = ok v

-- `row[name]`
unfoldable pub column : CsvRow → String → Result (Option String)
unfolding found lookup
column row name = found (lookup String-discrete name row)

number : Option Float → Result Float
number none = err value_error
number (some x) = ok x

-- `float(v)`
unfoldable pub as_float : (String → Option Float) → Option String → Result Float
unfolding number
as_float float_of_text none = err type_error
as_float float_of_text (some s) = number (float_of_text s)

-- A field of type `str`.
unfoldable pub as_text : Option String → Result String
as_text none = err validation_error
as_text (some s) = ok s

-- `[a-z0-9_]`
abbrev pub id_char : ℕ → Bool
id_char c = (leb 97 c && leb c 122) || (leb 48 c && leb c 57) || (c == 95)

abbrev pub in_bounds : Float → Float → Float → Bool
in_bounds lower upper x = not (float_lt x lower) && not (float_lt upper x)

abbrev pub south : Float
south = float_of_int (negsuc 89)

abbrev pub north : Float
north = float_of_int (pos 90)

abbrev pub west : Float
west = float_of_int (negsuc 179)

abbrev pub east : Float
east = float_of_int (pos 180)

-- The constraints of the fields of `City`.
unfoldable pub fits_city : City → Bool
fits_city c =
    (not (is_empty (codes c.city_id)) && all id_char (codes c.city_id))
    && (length (codes c.country_code) == 2)
    && in_bounds south north c.latitude
    && in_bounds west east c.longitude

-- `City(...)`, of the values for its fields.
unfoldable pub make_city : City → Result City
unfolding fits_city
make_city c = guard (fits_city c) validation_error >> ok c

module _ (float_of_text : String → Option Float) where
  unfoldable pub city_of_row : CsvRow → Result City
  unfolding column as_float as_text make_city
  city_of_row row = do
    city_id ← column row "city_id"
    name ← column row "name"
    country_code ← column row "country_code"
    latitude ← column row "latitude" >>= as_float float_of_text
    longitude ← column row "longitude" >>= as_float float_of_text
    timezone_name ← column row "timezone_name"
    city_id ← as_text city_id
    name ← as_text name
    country_code ← as_text country_code
    timezone_name ← as_text timezone_name
    make_city (record {
      city_id = city_id;
      name = name;
      country_code = country_code;
      latitude = latitude;
      longitude = longitude;
      timezone_name = timezone_name;
    })

  -- The cities of the rows, in their order.
  unfoldable pub read_cities : List CsvRow → Result (List City)
  unfolding city_of_row
  read_cities [] = ok []
  read_cities (row ∷ rows) = do
    city ← city_of_row row
    cities ← read_cities rows
    ok (city ∷ cities)
