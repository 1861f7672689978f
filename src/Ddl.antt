-- ===== src/Ddl.antt =====
-- src/pipeline/warehouse/connection.py: the statements of a script of DDL. A text is the list of
-- the codes of its characters.
pub mod Statements
pub mod Apply
mod Names
pub mod Order
pub mod Listing
pub mod Migrations
mod Tests
use batch_api_snowflake.Base.{
  ℕ, ◌==◌, leb, Bool, true, false, not, ◌&&◌, ◌||◌, List, [], ◌∷◌, ◌++◌, keep, is_empty,
  if◌then◌else◌,
}

abbrev pub Text : Type 0
Text = List ℕ

-- `str.isspace`, of a character.
unfoldable pub is_space : ℕ → Bool
is_space c =
    (leb 9 c && leb c 13)
    || (leb 28 c && leb c 32)
    || c == 133
    || c == 160
    || c == 5760
    || (leb 8192 c && leb c 8202)
    || c == 8232
    || c == 8233
    || c == 8239
    || c == 8287
    || c == 12288

-- The characters at which `splitlines` splits.
unfoldable pub is_break : ℕ → Bool
is_break c = (leb 10 c && leb c 13) || (leb 28 c && leb c 30) || c == 133 || c == 8232 || c == 8233

-- A character in front of the first of several parts.
push : ℕ → List Text → List Text
push c [] = (c ∷ []) ∷ []
push c (part ∷ parts) = (c ∷ part) ∷ parts

-- `script.split(";")`
unfoldable pub chunks : Text → List Text
unfolding push
chunks [] = [] ∷ []
chunks (c ∷ text) = let rest = chunks text in if c == 59 then [] ∷ rest else push c rest

-- `splitlines`, where a carriage return and a line feed together end one line, and the end of the
-- text ends a line only if there is something in it.
unfoldable pub split_lines : Text → List Text
unfolding push is_break
split_lines [] = []
split_lines (c ∷ []) = if is_break c then [] ∷ [] else (c ∷ []) ∷ []
split_lines (c ∷ c' ∷ text) =
    let rest = split_lines (c' ∷ text) in
    if c == 13 && c' == 10 then rest else if is_break c then [] ∷ rest else push c rest

-- `strip`, from the left and then from the right.
unfoldable pub lstrip : Text → Text
unfolding is_space
lstrip [] = []
lstrip (c ∷ text) = let rest = lstrip text in if is_space c then rest else c ∷ text

unfoldable pub rstrip : Text → Text
unfolding is_space
rstrip [] = []
rstrip (c ∷ text) = let rest = rstrip text in if is_empty rest && is_space c then [] else c ∷ rest

unfoldable pub strip : Text → Text
unfolding lstrip rstrip
strip text = rstrip (lstrip text)

-- `startswith("--")`
starts_comment : Text → Bool
starts_comment (a ∷ b ∷ text) = a == 45 && b == 45
starts_comment text = false

-- `line.strip().startswith("--")`
unfoldable pub is_comment : Text → Bool
unfolding strip starts_comment
is_comment line = starts_comment (strip line)

-- `"\n".join(lines)`
unfoldable pub join_lines : List Text → Text
join_lines [] = []
join_lines (line ∷ []) = line
join_lines (line ∷ line' ∷ lines) = line ++ 10 ∷ join_lines (line' ∷ lines)

-- What a chunk is cleaned to.
unfoldable pub cleaned : Text → Text
unfolding split_lines is_comment join_lines strip
cleaned chunk = strip (join_lines (keep (λ line. not (is_comment line)) (split_lines chunk)))

statements_of : List Text → List Text
unfolding cleaned
statements_of [] = []
statements_of (chunk ∷ rest) =
    let more = statements_of rest in if is_empty (cleaned chunk) then more else cleaned chunk ∷ more

-- `split_statements`
unfoldable pub split_statements : Text → List Text
unfolding statements_of chunks
split_statements script = statements_of (chunks script)
