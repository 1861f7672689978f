-- ===== src/Base/Text.antt =====
-- Text two ways: the native `String` where whole texts are compared or joined, and its list of code
-- points where a text is walked.
use Prim.Native.Nat.{ℕ, zero, suc, ◌/◌, ◌%◌}
use Prim.Native.Char.{code}
use Prim.Native.String.{String}
use Prim.Native.String
use Prim.Native.String.append
use mathlib.Core.Path.{◌≡◌, refl, ap}
use mathlib.Core.Bool.{Bool, true, false, ◌&&◌}
use mathlib.Core.List.{List, [], ◌∷◌, ◌++◌, reverse, reverse-append}
use native.Mathlib.Omega.{arith}
use batch_api_snowflake.Base.Compare.{◌==◌, ltb, if◌then◌else◌}

abbrev pub codes : String → List ℕ
codes String.[] = []
codes (String.◌∷◌ c s) = code c ∷ codes s

pub codes-append : (s t : String) → codes (String.◌++◌ s t) ≡ codes s ++ codes t
codes-append String.[] t = rw append.nil
codes-append (String.◌∷◌ c s) t = rw append.cons (ap (λ r. code c ∷ r) (codes-append s t))

-- `prefix` stands at the front of the second list.
abbrev pub is_prefix : List ℕ → List ℕ → Bool
is_prefix [] ys = true
is_prefix (x ∷ xs) [] = false
is_prefix (x ∷ xs) (y ∷ ys) = x == y && is_prefix xs ys

pub is_prefix-append : (xs ys : List ℕ) → is_prefix xs (xs ++ ys) ≡ true
is_prefix-append [] ys = refl
is_prefix-append (x ∷ xs) ys = ground (arith, is_prefix-append xs ys)

-- `s.startswith(p)`
unfoldable pub begins_with : String → String → Bool
begins_with s p = is_prefix (codes p) (codes s)

-- `s.endswith(p)`
unfoldable pub ends_with : String → String → Bool
ends_with s p = is_prefix (reverse (codes p)) (reverse (codes s))

pub begins_with-append : (s t : String) → begins_with (String.◌++◌ s t) s ≡ true
unfolding begins_with
begins_with-append s t = rw codes-append (is_prefix-append (codes s) (codes t))

pub ends_with-append : (s t : String) → ends_with (String.◌++◌ s t) t ≡ true
unfolding ends_with
ends_with-append s t =
    rw (codes-append, reverse-append) (is_prefix-append (reverse (codes t)) (reverse (codes s)))

-- `s.rstrip("/")`
unfoldable pub rstrip_slash : String → String
rstrip_slash String.[] = ""
rstrip_slash (String.◌∷◌ c s) =
    let rest = rstrip_slash s in
    if is_prefix (codes rest) [] && code c == 47 then "" else String.◌∷◌ c rest

rstrip_slash_examples :
    (rstrip_slash "https://a/v1//" ≡ "https://a/v1")
    × (rstrip_slash "https://a/v1" ≡ "https://a/v1")
    × (rstrip_slash "//" ≡ "")
unfolding rstrip_slash
rstrip_slash_examples = (refl, refl, refl)

-- `separator.join(parts)`
unfoldable pub join : String → List String → String
join separator [] = ""
join separator (part ∷ []) = part
join separator (part ∷ next ∷ parts) =
    String.◌++◌ part (String.◌++◌ separator (join separator (next ∷ parts)))

unfoldable pub digit : ℕ → String
digit zero = "0"
digit (suc zero) = "1"
digit (suc (suc zero)) = "2"
digit (suc (suc (suc zero))) = "3"
digit (suc (suc (suc (suc zero)))) = "4"
digit (suc (suc (suc (suc (suc zero))))) = "5"
digit (suc (suc (suc (suc (suc (suc zero)))))) = "6"
digit (suc (suc (suc (suc (suc (suc (suc zero))))))) = "7"
digit (suc (suc (suc (suc (suc (suc (suc (suc zero)))))))) = "8"
digit (suc (suc (suc (suc (suc (suc (suc (suc (suc n))))))))) = "9"

-- The decimal digits of a number, with one more unit of fuel than it has digits.
decimal_digits : ℕ → ℕ → String
unfolding digit
decimal_digits zero n = ""
decimal_digits (suc fuel) n =
    let front = decimal_digits fuel (n / 10) in
    if ltb n 10 then digit n else String.◌++◌ front (digit (n % 10))

-- `str(n)`
unfoldable pub decimal : ℕ → String
unfolding decimal_digits
decimal n = decimal_digits (suc n) n

decimal_examples : (decimal 0 ≡ "0") × (decimal 7 ≡ "7") × (decimal 1024 ≡ "1024")
unfolding decimal
decimal_examples = (refl, refl, refl)
