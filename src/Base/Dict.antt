-- ===== src/Base/Dict.antt =====
-- A dict in insertion order, keyed by any type whose equality can be decided.
use mathlib.Core.Path.{◌≡◌}
use mathlib.Core.Bool.{Bool}
use mathlib.Core.Option.{Option, none, some}
use mathlib.Core.List.{List, [], ◌∷◌}
use native.Mathlib.Omega.{arith}
use batch_api_snowflake.Base.Compare.{if◌then◌else◌}
use batch_api_snowflake.Base.Equality.{eqb}

abbrev pub Dict {ℓ κ} : Type ℓ → Type κ → Type (ℓ ⊔ κ)
Dict K V = List (K × V)

abbrev pub keys {ℓ κ} : {K : Type ℓ} {V : Type κ} → Dict K V → List K
keys [] = []
keys ((k, v) ∷ m) = k ∷ keys m

module _ {ℓ κ} {K : Type ℓ} {V : Type κ} (d : Discrete K) where
  -- `m.get(k)`
  unfoldable pub lookup : K → Dict K V → Option V
  lookup k [] = none
  lookup k ((j, v) ∷ m) = if eqb d k j then some v else lookup k m

  -- `m[k] = v`
  unfoldable pub insert : K → V → Dict K V → Dict K V
  insert k v [] = (k, v) ∷ []
  insert k v ((j, w) ∷ m) = if eqb d k j then (k, v) ∷ m else (j, w) ∷ insert k v m

  -- Drops every entry whose key passes the test.
  unfoldable pub discard : (K → Bool) → Dict K V → Dict K V
  discard p [] = []
  discard p ((j, w) ∷ m) = let rest = discard p m in if p j then rest else (j, w) ∷ rest

  pub lookup-insert :
      (j k : K) (v : V) (m : Dict K V)
      → lookup j (insert k v m) ≡ (if eqb d j k then some v else lookup j m)
  unfolding lookup insert
  lookup-insert j k v [] = ground arith
  lookup-insert j k v ((i, w) ∷ m) = ground (arith, lookup-insert j k v m)

  pub lookup-discard :
      (p : K → Bool) (j : K) (m : Dict K V)
      → lookup j (discard p m) ≡ (if p j then none else lookup j m)
  unfolding lookup discard
  lookup-discard p j [] = ground arith
  lookup-discard p j ((i, w) ∷ m) = ground (arith, lookup-discard p j m)
