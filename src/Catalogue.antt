-- ===== src/Catalogue.antt =====
-- src/pipeline/catalogue.py: the cities of a run.
pub mod Filter
pub mod Cities
pub mod Validity
mod Tests
use batch_api_snowflake.Base.{
  String, Bool, not, Option, none, some, List, [], ◌∷◌, keep, contains, is_empty, String-discrete,
  if◌then◌else◌,
}
use batch_api_snowflake.Errors.{Result, ok, err, value_error, file_not_found, guard, ◌>>=◌, ◌>>◌}
use batch_api_snowflake.Models.{City}

abbrev city_ids : List City → List String
city_ids [] = []
city_ids (c ∷ cities) = c.city_id ∷ city_ids cities

-- `wanted - {c.city_id for c in cities}`
unfoldable pub missing : List String → List City → List String
missing wanted cities = keep (λ id. not (contains String-discrete (city_ids cities) id)) wanted

-- The filter of `load_cities` by the ids that are asked for; none or no id asks for all cities.
unfoldable pub only_cities : Option (List String) → List City → Result (List City)
unfolding missing
only_cities none cities = ok cities
only_cities (some []) cities = ok cities
only_cities (some wanted) cities = do
  guard (is_empty (missing wanted cities)) value_error
  ok (keep (λ c. contains String-discrete wanted c.city_id) cities)

-- `load_cities`: the file, if it is there, gives the cities of its rows (Catalogue/Cities), or the
-- exception of one that is refused.
unfoldable pub load_cities : Option (Result (List City)) → Option (List String) → Result (List City)
unfolding only_cities
load_cities none only = err file_not_found
load_cities (some rows) only = rows >>= only_cities only
