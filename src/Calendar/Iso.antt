-- ===== src/Calendar/Iso.antt =====
-- `isoformat` takes no two dates to one text.
use batch_api_snowflake.Base.{
  ◌≡◌, refl, sym, ◌∙◌, ap, ℕ, zero, suc, ◌+◌, ◌-◌, ◌*◌, ◌/◌, ◌%◌, ◌≤◌, ◌<◌, String, ◌<>◌, List, [],
  ◌∷◌, arith, digit, codes, codes-append,
}
use batch_api_snowflake.Calendar.{Date, civil, two_digits, isoformat, max_ordinal}
use batch_api_snowflake.Calendar.Civil.{civil-IsDateOf, civil-injective}

codes-digit : (n : ℕ) → n < 10 → codes (digit n) ≡ (48 + n) ∷ []
unfolding digit
codes-digit zero h = refl
codes-digit (suc zero) h = refl
codes-digit (suc (suc zero)) h = refl
codes-digit (suc (suc (suc zero))) h = refl
codes-digit (suc (suc (suc (suc zero)))) h = refl
codes-digit (suc (suc (suc (suc (suc zero))))) h = refl
codes-digit (suc (suc (suc (suc (suc (suc zero)))))) h = refl
codes-digit (suc (suc (suc (suc (suc (suc (suc zero))))))) h = refl
codes-digit (suc (suc (suc (suc (suc (suc (suc (suc zero)))))))) h = refl
codes-digit (suc (suc (suc (suc (suc (suc (suc (suc (suc zero))))))))) h = refl
codes-digit (suc (suc (suc (suc (suc (suc (suc (suc (suc (suc n)))))))))) h =
    absurd (omega (arith, h))

codes-two_digits : (n : ℕ) → codes (two_digits n) ≡ (48 + n / 10 % 10) ∷ (48 + n % 10) ∷ []
unfolding two_digits
codes-two_digits n =
    rw (codes-append, codes-digit (n / 10 % 10) (omega arith), codes-digit (n % 10) (omega arith))
      refl

codes_two :
    (n : ℕ) (rest : String)
    → codes (two_digits n <> rest) ≡ (48 + n / 10 % 10) ∷ (48 + n % 10) ∷ codes rest
codes_two n rest = rw (codes-append (two_digits n) rest, codes-two_digits n) refl

codes_dash : (rest : String) → codes ("-" <> rest) ≡ 45 ∷ codes rest
codes_dash rest = rw (codes-append "-" rest) refl

-- The year, the month and the day that the codes of a date spell.
abbrev spelled : List ℕ → ℕ × ℕ × ℕ
spelled (a ∷ b ∷ c ∷ e ∷ h ∷ m ∷ m' ∷ h' ∷ k ∷ k' ∷ []) = (
  (a - 48) * 1000 + (b - 48) * 100 + (c - 48) * 10 + (e - 48),
  (m - 48) * 10 + (m' - 48),
  (k - 48) * 10 + (k' - 48),
)
spelled _ = (0, 0, 0)

spelled-isoformat : (d : Date) → 1 ≤ d → d ≤ max_ordinal → spelled (codes (isoformat d)) ≡ civil d
unfolding isoformat
spelled-isoformat d h le =
    let (y, m, k) = civil d in
    let v = civil-IsDateOf d h in
    let year : (48 + y / 100 / 10 % 10 - 48) * 1000
          + (48 + y / 100 % 10 - 48) * 100
          + (48 + y / 10 % 10 - 48) * 10
          + (48 + y % 10 - 48)
        ≡ y =
      omega (arith, v.year_bound, le) in
    let month : (48 + m / 10 % 10 - 48) * 10 + (48 + m % 10 - 48) ≡ m =
      omega (arith, v.month_bound) in
    let day : (48 + k / 10 % 10 - 48) * 10 + (48 + k % 10 - 48) ≡ k = omega (arith, v.day_bound) in
    rw
      (
        codes_two (y / 100) (two_digits y <> ("-" <> (two_digits m <> ("-" <> two_digits k)))),
        codes_two y ("-" <> (two_digits m <> ("-" <> two_digits k))),
        codes_dash (two_digits m <> ("-" <> two_digits k)),
        codes_two m ("-" <> two_digits k),
        codes_dash (two_digits k),
        codes-two_digits k,
        year,
        month,
        day,
      )
      refl

-- The dates of the years 1 to 9999 have distinct texts.
pub isoformat-injective :
    (d d' : Date)
    → 1 ≤ d
    → d ≤ max_ordinal
    → 1 ≤ d'
    → d' ≤ max_ordinal
    → isoformat d ≡ isoformat d'
    → d ≡ d'
isoformat-injective d d' h le h' le' same = civil-injective d d' h h' (
    sym (spelled-isoformat d h le) ∙ ap (λ s. spelled (codes s)) same ∙ spelled-isoformat d' h' le')
