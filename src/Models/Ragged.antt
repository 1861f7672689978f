-- ===== src/Models/Ragged.antt =====
-- Payloads whose series do not fit their times.
use batch_api_snowflake.Base.{◌≡◌, refl, ap, ◌≢◌, ◌⊎◌, inl, inr, ℕ, ◌==◌, ==_iff, String}
use batch_api_snowflake.Base.{List, [], ◌∷◌, All, Some, arith, length}
use batch_api_snowflake.Errors.{ok, err, ◌>>=◌, guard, value_error}
use batch_api_snowflake.Values.{Value, null, Fields}
use batch_api_snowflake.Platform.{Platform}
use batch_api_snowflake.Models.{City, get_field, dict_or_empty, elements, list_or_empty, check_one}
use batch_api_snowflake.Models.{check_series, sources, flatten_hourly}

-- A series is absent, or it has a length.
abbrev pub IsCountable : Value → Type 0
IsCountable v = (v ≡ null) ⊎ ((vs : List Value) × (elements v ≡ ok vs))

-- A series is there and its length is not `n`.
abbrev pub IsRagged : ℕ → Value → Type 0
IsRagged n v = (v ≢ null) × ((vs : List Value) × (elements v ≡ ok vs) × (length vs ≢ n))

points_of :
    (v : Value) (n : ℕ) (vs : List Value)
    → v ≢ null
    → elements v ≡ ok vs
    → check_one v n ≡ guard (length vs == n) value_error
unfolding check_one
points_of null n vs h e = absurd (h refl)
points_of v n vs h e = ap (λ r. r >>= λ points. guard (length points == n) value_error) e

check_one-ragged : (v : Value) (n : ℕ) → IsRagged n v → check_one v n ≡ err value_error
check_one-ragged v n (there, (vs, e, differs)) =
    rw (points_of v n vs there e) (ground (arith, ==_iff (length vs) n))

null_or_not : (v : Value) → (v ≡ null) ⊎ (v ≢ null)
null_or_not null = inl refl
null_or_not v = inr (λ e. cc)

check_one-IsCountable :
    (v : Value) (n : ℕ)
    → IsCountable v
    → (check_one v n ≡ ok tt) ⊎ (check_one v n ≡ err value_error)
check_one-IsCountable v n (inl e) = inl (rw e (unfold check_one in refl))
check_one-IsCountable v n (inr (vs, e)) = elim (null_or_not v) [
  | inl z ↦ inl (rw z (unfold check_one in refl))
  | inr there ↦ rw (points_of v n vs there e) (ground (arith, ==_iff (length vs) n))
]

check_series-ragged :
    (hourly : Fields) (n : ℕ) (names : List String)
    → All (λ s. IsCountable (get_field hourly s)) names
    → Some (λ s. IsRagged n (get_field hourly s)) names
    → check_series hourly n names ≡ err value_error
unfolding check_series
check_series-ragged hourly n [] c h = elim h [ ]
check_series-ragged hourly n (s ∷ rest) (c, cs) (inl r) =
    rw (check_one-ragged (get_field hourly s) n r)
check_series-ragged hourly n (s ∷ rest) (c, cs) (inr r) =
    elim (check_one-IsCountable (get_field hourly s) n c) [
      | inl e ↦ rw e (check_series-ragged hourly n rest cs r)
      | inr e ↦ rw e
    ]

-- With at least one time, series that are each absent or countable, and one that is there with
-- another number of points than `time`, `flatten_hourly` raises a ValueError and gives no row.
pub flatten_hourly-ragged :
    (p : Platform) (city : City) (payload hourly : Fields) (t : Value) (times : List Value)
    → dict_or_empty (get_field payload "hourly") ≡ ok hourly
    → list_or_empty (get_field hourly "time") ≡ ok (t ∷ times)
    → All (λ s. IsCountable (get_field hourly s)) sources
    → Some (λ s. IsRagged (length (t ∷ times)) (get_field hourly s)) sources
    → flatten_hourly p city payload ≡ err value_error
unfolding flatten_hourly
flatten_hourly-ragged p city payload hourly t times eh et c r =
    rw (eh, et, check_series-ragged hourly (length (t ∷ times)) sources c r)
