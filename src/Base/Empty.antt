-- ===== src/Base/Empty.antt =====
-- When a list that is put together of others is empty.
use mathlib.Core.Path.{◌≡◌, refl}
use mathlib.Core.Bool.{Bool, true, not}
use mathlib.Core.Logic.{◌↔◌, inl, inr}
use mathlib.Core.List.{List, [], ◌∷◌, ◌++◌}
use native.Mathlib.Omega.{arith}
use batch_api_snowflake.Base.Compare.{Bool-cases}
use batch_api_snowflake.Base.Lists.{keep, is_empty, flat_map, All}

module _ {ℓ} {A : Type ℓ} where
  pub append-eq-nil_iff : (xs ys : List A) → (xs ++ ys ≡ []) ↔ (xs ≡ []) × (ys ≡ [])
  append-eq-nil_iff [] ys = (λ e. (refl, e), λ e. e.1)
  append-eq-nil_iff (x ∷ xs) ys = (λ e. cc, λ e. cc e.0)

  pub append_iff {κ μ} :
      {P : Type κ} {Q : Type μ} {xs ys : List A}
      → ((xs ≡ []) ↔ P)
      → ((ys ≡ []) ↔ Q)
      → ((xs ++ ys) ≡ []) ↔ (P × Q)
  append_iff {xs = xs} {ys = ys} (p, p') (q, q') =
      let (apart, together) = append-eq-nil_iff xs ys in
      (λ e. let (h, k) = apart e in (p h, q k), λ (h, k). together (p' h, q' k))

module _ {ℓ} {A : Type ℓ} where
  pub keep-eq-nil_iff :
      (p : A → Bool) (xs : List A)
      → (is_empty (keep (λ x. not (p x)) xs) ≡ true) ↔ All (λ x. p x ≡ true) xs
  keep-eq-nil_iff p [] = (λ e. tt, λ h. refl)
  keep-eq-nil_iff p (x ∷ xs) = elim (Bool-cases (p x)) [
    | inl e ↦ rw e (λ h. (refl, (keep-eq-nil_iff p xs).0 h), λ h. (keep-eq-nil_iff p xs).1 h.1)
    | inr e ↦ rw e (λ h. ground (arith, h), λ h. ground (arith, h.0))
  ]

  pub flat_map-eq-nil_iff {κ μ} :
      {B : Type κ} {P : A → Type μ} (f : A → List B)
      → ((x : A) → (f x ≡ []) ↔ P x)
      → (xs : List A) → (flat_map f xs ≡ []) ↔ All P xs
  flat_map-eq-nil_iff f h [] = (λ e. tt, λ e. refl)
  flat_map-eq-nil_iff f h (x ∷ xs) =
      let (apart, together) = append-eq-nil_iff (f x) (flat_map f xs) in
      (
        λ e. ((h x).0 (apart e).0, (flat_map-eq-nil_iff f h xs).0 (apart e).1),
        λ k. together ((h x).1 k.0, (flat_map-eq-nil_iff f h xs).1 k.1),
      )
