-- ===== src/Catalogue/Filter.antt =====
-- Which cities `load_cities` gives for the ids that are asked for.
use batch_api_snowflake.Base.{
  ◌≡◌, refl, ◌↔◌, String, true, some, List, [], ◌∷◌, All, keep, contains, is_empty, String-discrete,
  Bool-cases, inl, inr, sym, ap, ◌∙◌,
}
use batch_api_snowflake.Errors.{ok, value_error, guard, >>=-eq-ok, ok-injective}
use batch_api_snowflake.Models.{City}
use batch_api_snowflake.Catalogue.{city_ids, missing, only_cities}

-- Every id is the id of a city.
abbrev pub AreKnown : List String → List City → Type 0
AreKnown wanted cities = All (λ id. contains String-discrete (city_ids cities) id ≡ true) wanted

no_missing :
    (wanted : List String) (cities : List City)
    → AreKnown wanted cities
    → missing wanted cities ≡ []
unfolding missing
no_missing [] cities k = refl
no_missing (id ∷ wanted) cities (k, ks) = rw (k, no_missing wanted cities ks)

missing-eq-nil :
    (wanted : List String) (cities : List City)
    → missing wanted cities ≡ []
    → AreKnown wanted cities
unfolding missing
missing-eq-nil [] cities e = tt
missing-eq-nil (id ∷ wanted) cities e =
    elim (Bool-cases (contains String-discrete (city_ids cities) id)) [
      | inl known ↦ (known, missing-eq-nil wanted cities (rw known at e))
      | inr unknown ↦ absurd (cc (rw unknown at e))
    ]

known-only_cities :
    (id : String) (ids : List String) (cities : List City)
    → AreKnown (id ∷ ids) cities
    → only_cities (some (id ∷ ids)) cities
      ≡ ok (keep (λ c. contains String-discrete (id ∷ ids) c.city_id) cities)
unfolding only_cities missing
known-only_cities id ids cities k = rw (no_missing (id ∷ ids) cities k)

is_empty-eq-nil : (xs : List String) → guard (is_empty xs) value_error ≡ ok tt → xs ≡ []
is_empty-eq-nil [] h = refl
is_empty-eq-nil (x ∷ xs) h = cc

only_cities-AreKnown :
    (id : String) (ids : List String) (cities found : List City)
    → only_cities (some (id ∷ ids)) cities ≡ ok found
    → AreKnown (id ∷ ids) cities
unfolding only_cities
only_cities-AreKnown id ids cities found h =
    let (_, passed, _) = >>=-eq-ok (guard (is_empty (missing (id ∷ ids) cities)) value_error) _ h in
    missing-eq-nil (id ∷ ids) cities (is_empty-eq-nil (missing (id ∷ ids) cities) passed)

-- Asked for some ids, the filter returns exactly when all of them are ids of the catalogue, and
-- then gives the cities whose id is asked for, in the order of the catalogue.
pub only_cities_iff :
    (id : String) (ids : List String) (cities found : List City)
    → (only_cities (some (id ∷ ids)) cities ≡ ok found) ↔ (
        AreKnown (id ∷ ids) cities
        × (keep (λ c. contains String-discrete (id ∷ ids) c.city_id) cities ≡ found))
only_cities_iff id ids cities found = (
  λ h.
      let known = only_cities-AreKnown id ids cities found h in
      (known, ok-injective (sym (known-only_cities id ids cities known) ∙ h)),
  λ (known, same). known-only_cities id ids cities known ∙ ap ok same,
)
