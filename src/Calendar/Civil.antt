-- ===== src/Calendar/Civil.antt =====
-- The dates of a year, month and day: `civil` takes no two ordinals to one date.
use batch_api_snowflake.Base.{
  ◌≡◌, refl, sym, ◌∙◌, ap, ℕ, zero, suc, ◌+◌, ◌-◌, ◌*◌, ◌/◌, ◌%◌, ◌==◌, ◌≤◌, ◌<◌, ltb, not, Bool,
  true, false, ◌&&◌, ◌||◌, List, [], ◌∷◌, All, length, arith, Bool-cases, inl, inr,
}
use batch_api_snowflake.Calendar.{Date, month_lengths, month_day, civil}

abbrev pub sum : List ℕ → ℕ
sum [] = 0
sum (n ∷ ns) = n + sum ns

-- The days of the first i months.
abbrev pub days_before : List ℕ → ℕ → ℕ
days_before ns zero = 0
days_before [] (suc i) = 0
days_before (n ∷ ns) (suc i) = n + days_before ns i

month_day_lem :
    (ns : List ℕ) (month r : ℕ)
    → All (λ n. n ≤ 31) ns
    → r < sum ns
    → (i : ℕ) × (k : ℕ) × (month_day ns month r ≡ (month + i, k))
      × (days_before ns i + k ≡ r + 1)
      × (k ≤ 31)
      × (i < length ns)
unfolding month_day
month_day_lem [] month r short lt = absurd (omega (arith, lt))
month_day_lem (n ∷ ns) month r (le, short) lt = elim (Bool-cases (ltb r n)) [
  | inl now ↦
      let here : month ≡ month + 0 = omega arith in
      (0, r + 1, rw (now, ← here) refl, omega arith, ground (arith, now, le), omega arith)
  | inr later ↦
      let past : n ≤ r = ground (arith, later) in
      let (i, k, found, total, le', lt') =
        month_day_lem ns (month + 1) (r - n) short (omega (arith, past, lt)) in
      let shifted : month + 1 + i ≡ month + suc i = omega arith in
      (
        suc i,
        k,
        rw (later, found, shifted) refl,
        omega (arith, total, past),
        le',
        omega (arith, lt'),
      )
]

abbrev pub is_leap : ℕ → ℕ → ℕ → Bool
is_leap e c b = e == 3 && (not (c == 24) || b == 3)

-- The ordinal of a year, month and day.
abbrev pub ordinal_of : ℕ × ℕ × ℕ → ℕ
ordinal_of (y, m, k) =
    let z = y - 1 in
    let a = z / 400 in
    let b = z % 400 / 100 in
    let c = z % 100 / 4 in
    let e = z % 4 in
    146097 * a
    + 36524 * b
    + 1461 * c
    + 365 * e
    + days_before (month_lengths (is_leap e c b)) (m - 1)
    + k

-- The parts of a year: its place in the blocks of 400, 100 and 4 years.
ordinal_of-parts :
    (a b c e m k : ℕ)
    → b ≤ 3
    → c ≤ 24
    → e ≤ 3
    → ordinal_of (a * 400 + b * 100 + c * 4 + e + 1, m, k)
      ≡ 146097 * a
        + 36524 * b
        + 1461 * c
        + 365 * e
        + days_before (month_lengths (is_leap e c b)) (m - 1)
        + k
ordinal_of-parts a b c e m k hb hc he =
    let z = a * 400 + b * 100 + c * 4 + e + 1 - 1 in
    let same_a : z / 400 ≡ a = omega (arith, hb, hc, he) in
    let same_b : z % 400 / 100 ≡ b = omega (arith, hb, hc, he) in
    let same_c : z % 100 / 4 ≡ c = omega (arith, hb, hc, he) in
    let same_e : z % 4 ≡ e = omega (arith, hb, hc, he) in rw (same_a, same_b, same_c, same_e) refl

short_months : (leap : Bool) → All (λ n. n ≤ 31) (month_lengths leap)
unfolding month_lengths
short_months true = ground arith
short_months false = ground arith

sum-month_lengths : (leap : Bool) → 365 ≤ sum (month_lengths leap)
unfolding month_lengths
sum-month_lengths true = omega arith
sum-month_lengths false = omega arith

twelve_months : (leap : Bool) → length (month_lengths leap) ≡ 12
unfolding month_lengths
twelve_months true = refl
twelve_months false = refl

-- What an ordinal and its date have to do with each other.
pub record IsDateOf (d : Date) (y m k : ℕ) : Type 0 where
  pub same : ordinal_of (y, m, k) ≡ d
  pub year_bound : 146097 * y ≤ 400 * d + 146288
  pub month_bound : m ≤ 12
  pub day_bound : k ≤ 31

-- The last day of a leap year.
leap_end : days_before (month_lengths true) (12 - 1) ≡ 335
unfolding month_lengths
leap_end = refl

last-IsDateOf :
    (a b c d : ℕ)
    → b ≤ 3
    → c ≤ 24
    → is_leap 3 c b ≡ true
    → 146097 * a + 36524 * b + 1461 * c + 365 * 3 + 366 ≡ d
    → IsDateOf d (a * 400 + b * 100 + c * 4 + 3 + 1) 12 31
last-IsDateOf a b c d hb hc leap whole = record {
  same =
      ordinal_of-parts a b c 3 12 31 hb hc (omega arith)
      ∙ (rw (leap, leap_end) (omega (arith, whole)));
  year_bound = omega (arith, whole, hb, hc);
  month_bound = omega arith;
  day_bound = omega arith;
}

pub civil-IsDateOf : (d : Date) → 1 ≤ d → let (y, m, k) = civil d in IsDateOf d y m k
unfolding civil
civil-IsDateOf d some_day =
    let n = d - 1 in
    let a = n / 146097 in
    let b = n % 146097 / 36524 in
    let c = n % 146097 % 36524 / 1461 in
    let r = n % 146097 % 36524 % 1461 in
    let e = r / 365 in
    let whole : 146097 * a + 36524 * b + 1461 * c + 365 * e + r % 365 + 1 ≡ d =
      omega (arith, some_day) in
    elim (Bool-cases (e == 4 || b == 4)) [
      | inl last ↦ elim (Bool-cases (b == 4)) [
        | inl century ↦
            let year : a * 400 + b * 100 + c * 4 + e + 1 - 1 ≡ a * 400 + 3 * 100 + 24 * 4 + 3 + 1 =
              ground (arith, century) in
            let total : 146097 * a + 36524 * 3 + 1461 * 24 + 365 * 3 + 366 ≡ d =
              ground (arith, century, whole) in
            rw (last, year) (last-IsDateOf a 3 24 d (omega arith) (omega arith) refl total)
        | inr other ↦
            let four : e ≡ 4 = ground (arith, last, other) in
            let hb : b ≤ 3 = ground (arith, other) in
            let hc : c < 24 = omega (arith, four) in
            let year : a * 400 + b * 100 + c * 4 + e + 1 - 1 ≡ a * 400 + b * 100 + c * 4 + 3 + 1 =
              omega (arith, four) in
            let total : 146097 * a + 36524 * b + 1461 * c + 365 * 3 + 366 ≡ d =
              omega (arith, whole, four) in
            rw (last, year)
              (last-IsDateOf a b c d hb (omega (arith, hc)) (ground (arith, hc)) total)
      ]
      | inr inside ↦
          let (i, k, found, total, le, lt) =
            month_day_lem (month_lengths (is_leap e c b)) 1 (r % 365) (short_months (is_leap e c b))
              (omega (arith, sum-month_lengths (is_leap e c b))) in
          let hb : b ≤ 3 = ground (arith, inside) in
          let hc : c ≤ 24 = omega arith in
          let he : e ≤ 3 = ground (arith, inside) in
          let month : 1 + i - 1 ≡ i = omega arith in
          rw (inside, found)
            (record {
              same =
                  ordinal_of-parts a b c e (1 + i) k hb hc he
                  ∙ rw month (omega (arith, whole, total));
              year_bound = omega (arith, whole, hb, hc, he);
              month_bound = omega (arith, lt, twelve_months (is_leap e c b));
              day_bound = le;
            })
    ]

-- No two ordinals have one year, month and day.
pub civil-injective : (d d' : Date) → 1 ≤ d → 1 ≤ d' → civil d ≡ civil d' → d ≡ d'
civil-injective d d' h h' same =
    sym (civil-IsDateOf d h).same ∙ ap ordinal_of same ∙ (civil-IsDateOf d' h').same
