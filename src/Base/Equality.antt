-- ===== src/Base/Equality.antt =====
-- Python's `==` and `in`, for every type whose equality can be decided.
use Prim.Native.String.{String}
use mathlib.Core.Path.{◌≡◌, sym, ◌∙◌}
use mathlib.Core.Logic.{◌≢◌, ◌↔◌, ite, dite}
use mathlib.Core.Bool.{Bool, true, false, ◌||◌, Bool-discrete, false≢true}
use mathlib.Core.List.{List, [], ◌∷◌}
use native.Mathlib.Omega.{arith}
use text.Mathlib.Text
use text.Mathlib.TextEquality.{eq_iff}

-- Shut in proofs, where a split on `eqb String-discrete s t` yields the equation or its negation.
unfoldable pub String-discrete : Discrete String
String-discrete s t =
    dite (Bool-discrete (Text.◌==◌ s t) true) (λ same. yes ((eq_iff s t).0 same))
      (λ differ. no (λ p. differ ((eq_iff s t).1 p)))

module _ {ℓ} {A : Type ℓ} (d : Discrete A) where
  abbrev pub eqb : A → A → Bool
  eqb a b = ite (d a b) true false

  -- `a in xs`
  abbrev pub contains : List A → A → Bool
  contains [] a = false
  contains (x ∷ xs) a = eqb a x || contains xs a

  pub eqb_refl : (a : A) → eqb a a ≡ true
  eqb_refl a = ground arith

  pub eqb_iff : (a b : A) → (eqb a b ≡ true) ↔ (a ≡ b)
  eqb_iff a b = ground arith

abbrev pub str_eq : String → String → Bool
str_eq = eqb String-discrete

-- Two literals that differ, by evaluation: the last argument is `refl`.
pub ne_of_literals : (s t : String) → Text.◌==◌ s t ≡ false → s ≢ t
ne_of_literals s t differ e = absurd (false≢true (sym differ ∙ (eq_iff s t).1 e))
