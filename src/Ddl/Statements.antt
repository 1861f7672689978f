-- ===== src/Ddl/Statements.antt =====
-- The shape of the statements that `split_statements` gives.
use batch_api_snowflake.Base.{
  ◌≡◌, refl, ◌≢◌, ℕ, ◌==◌, Bool, false, not, List, [], ◌∷◌, keep, any, is_empty, if◌then◌else◌, All,
  All-keep, any-append, arith, ◌&&◌, Bool-cases, inl, inr,
}
use batch_api_snowflake.Ddl.{
  Text, chunks, push, cleaned, split_lines, is_break, join_lines, strip, lstrip, rstrip, is_comment,
  statements_of, split_statements,
}

abbrev has_semicolon : Text → Bool
has_semicolon text = any (λ c. c == 59) text

push-clean :
    (c : ℕ) (parts : List Text)
    → (c == 59) ≡ false
    → All (λ part. has_semicolon part ≡ false) parts
    → All (λ part. has_semicolon part ≡ false) (push c parts)
unfolding push
push-clean c [] other k = (ground (arith, other), tt)
push-clean c (part ∷ parts) other (k, ks) = (ground (arith, other, k), ks)

chunks-clean : (text : Text) → All (λ part. has_semicolon part ≡ false) (chunks text)
unfolding chunks
chunks-clean [] = (refl, tt)
chunks-clean (c ∷ text) = elim (Bool-cases (c == 59)) [
  | inl semicolon ↦ rw semicolon (refl, chunks-clean text)
  | inr other ↦ rw other (push-clean c (chunks text) other (chunks-clean text))
]

lstrip-clean : (text : Text) → has_semicolon text ≡ false → has_semicolon (lstrip text) ≡ false
unfolding lstrip
lstrip-clean [] h = refl
lstrip-clean (c ∷ text) h = ground (arith, lstrip-clean text, h)

rstrip-clean : (text : Text) → has_semicolon text ≡ false → has_semicolon (rstrip text) ≡ false
unfolding rstrip
rstrip-clean [] h = refl
rstrip-clean (c ∷ text) h = ground (arith, rstrip-clean text, h)

split_lines-clean :
    (text : Text)
    → has_semicolon text ≡ false
    → All (λ line. has_semicolon line ≡ false) (split_lines text)
unfolding split_lines
split_lines-clean [] h = tt
split_lines-clean (c ∷ []) h = elim (Bool-cases (is_break c)) [
  | inl breaks ↦ rw breaks (refl, tt)
  | inr within ↦ rw within (h, tt)
]
split_lines-clean (c ∷ c' ∷ text) h =
    let rest : has_semicolon (c' ∷ text) ≡ false = ground (arith, h) in
    let other : (c == 59) ≡ false = ground (arith, h) in
    let ih = split_lines-clean (c' ∷ text) rest in
    elim (Bool-cases (c == 13 && c' == 10)) [
      | inl pair ↦ rw pair ih
      | inr single ↦ elim (Bool-cases (is_break c)) [
        | inl breaks ↦ rw (single, breaks) (refl, ih)
        | inr within ↦ rw (single, within) (push-clean c (split_lines (c' ∷ text)) other ih)
      ]
    ]

join_lines-clean :
    (lines : List Text)
    → All (λ line. has_semicolon line ≡ false) lines
    → has_semicolon (join_lines lines) ≡ false
unfolding join_lines
join_lines-clean [] k = refl
join_lines-clean (line ∷ []) (k, ks) = k
join_lines-clean (line ∷ line' ∷ lines) (k, ks) =
    rw (any-append (λ c. c == 59) line, k, join_lines-clean (line' ∷ lines) ks)

cleaned-clean : (chunk : Text) → has_semicolon chunk ≡ false → has_semicolon (cleaned chunk) ≡ false
unfolding cleaned strip
cleaned-clean chunk h =
    let lines = keep (λ line. not (is_comment line)) (split_lines chunk) in
    rstrip-clean (lstrip (join_lines lines)) (
      lstrip-clean (join_lines lines) (
        join_lines-clean lines (
          All-keep _ (λ line. not (is_comment line)) (split_lines chunk)
            (split_lines-clean chunk h))))

-- A text that is not empty and has no semicolon.
abbrev pub IsStatement : Text → Type 0
IsStatement text = (text ≢ []) × (has_semicolon text ≡ false)

statements_of-IsStatement :
    (parts : List Text)
    → All (λ part. has_semicolon part ≡ false) parts
    → All IsStatement (statements_of parts)
unfolding statements_of
statements_of-IsStatement [] k = tt
statements_of-IsStatement (part ∷ parts) (k, ks) =
    go (cleaned part) (cleaned-clean part k) (statements_of-IsStatement parts ks)
  where
    go :
        (text : Text)
        → has_semicolon text ≡ false
        → All IsStatement (statements_of parts)
        → All IsStatement
            (if is_empty text then statements_of parts else text ∷ statements_of parts)
    go [] clean rest = rest
    go (c ∷ text) clean rest = (((λ e. cc), clean), rest)

-- Every statement that `split_statements` gives is non-empty and has no semicolon, so the driver,
-- which runs one statement for each call, never gets two at once.
pub split_statements-IsStatement : (script : Text) → All IsStatement (split_statements script)
unfolding split_statements
split_statements-IsStatement script =
    statements_of-IsStatement (chunks script) (chunks-clean script)
