-- ===== src/Run/Accepted.antt =====
-- The observations that `ingest_day` accepts.
use batch_api_snowflake.Base.{◌≡◌, refl, Bool, true, false, ◌&&◌, ◌||◌}
use batch_api_snowflake.Base.{
  List, [], ◌∷◌, map, arith, keep, All, All-map, contains, eqb, eqb_iff, eqb_refl,
}
use batch_api_snowflake.Values.{Row}
use batch_api_snowflake.Models.{WeatherObservation, model_dump}
use batch_api_snowflake.Run.{Row-discrete, accepted_among}

or_true : (b : Bool) → (b || true) ≡ true
or_true true = refl
or_true false = refl

module _ {A : Type 0} (d : Discrete A) where
  contains-keep :
      (v : A → Bool) (xs : List A) (x : A) → contains d (keep v xs) x ≡ (contains d xs x && v x)
  contains-keep v [] x = refl
  contains-keep v (y ∷ ys) x = elim (d x y) [
    | yes same ↦ rw (← same, eqb_refl d x) (ground (arith, contains-keep v ys x, eqb_refl d x))
    | no differ ↦ ground (arith, contains-keep v ys x, eqb_iff d x y)
  ]

  contains-map :
      {B : Type 0} (f : B → A) (bs : List B) → All (λ b. contains d (map f bs) (f b) ≡ true) bs
  contains-map f [] = tt
  contains-map f (b ∷ bs) = (
    rw (eqb_refl d (f b)),
    All-map _ _ (λ b' h. rw h (or_true (eqb d (f b') (f b)))) bs (contains-map f bs),
  )

keep-cong :
    {A : Type 0} (p q : A → Bool) (xs : List A) → All (λ x. p x ≡ q x) xs → keep p xs ≡ keep q xs
keep-cong p q [] h = refl
keep-cong p q (x ∷ xs) (h, hs) = rw (h, keep-cong p q xs hs)

-- The observations that are landed are those whose row satisfies the contract, in their order.
pub accepted_among-valid :
    (v : Row → Bool) (observations : List WeatherObservation)
    → accepted_among (keep v (map model_dump observations)) observations
      ≡ keep (λ o. v (model_dump o)) observations
unfolding accepted_among
accepted_among-valid v observations =
    let rows = map model_dump observations in
    keep-cong (λ o. contains Row-discrete (keep v rows) (model_dump o)) (λ o. v (model_dump o))
      observations
      (All-map (λ o. contains Row-discrete rows (model_dump o) ≡ true)
        (λ o. contains Row-discrete (keep v rows) (model_dump o) ≡ v (model_dump o))
        (λ o h. rw (contains-keep Row-discrete v rows (model_dump o), h)) observations
        (contains-map Row-discrete model_dump observations))
