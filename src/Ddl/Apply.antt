-- ===== src/Ddl/Apply.antt =====
-- src/pipeline/warehouse/connection.py, `apply_ddl`: the numbered scripts of a directory, in order.
-- The driver is a parameter: what it does for a statement and for a commit. Closing the cursor is
-- taken to do nothing. A file is its name and its text.
use batch_api_snowflake.Base.{ℕ, suc, ◌==◌, leb, ltb, Bool, true, false, ◌&&◌, ◌||◌}
use batch_api_snowflake.Base.{List, [], ◌∷◌, keep, length, is_prefix, codes, if◌then◌else◌}
use batch_api_snowflake.Exec.{Exec, pure, ◌>>=◌, ◌>>◌}
use batch_api_snowflake.Ddl.{Text, split_statements}

abbrev pub Script : Type 0
Script = Text × Text

-- Whether a part stands somewhere in a text: `part in text`.
unfoldable pub occurs : Text → Text → Bool
occurs part [] = is_prefix part []
occurs part (c ∷ text) = is_prefix part (c ∷ text) || occurs part text

-- `text.endswith(part)`
unfoldable pub ends : Text → Text → Bool
ends part [] = is_prefix part []
ends part (c ∷ text) =
    (is_prefix part (c ∷ text) && length part == length (c ∷ text)) || ends part text

is_digit : ℕ → Bool
is_digit c = leb 48 c && leb c 57

-- Whether a name matches the pattern of `glob`: three digits, an underscore, and `.sql` at the end.
unfoldable pub is_numbered : Text → Bool
unfolding is_digit ends
is_numbered (a ∷ b ∷ c ∷ d ∷ rest) =
    is_digit a && is_digit b && is_digit c && d == 95 && ends (codes ".sql") rest
is_numbered name = false

-- `path.stem`, of a name that ends in `.sql`.
unfoldable pub stem : Text → Text
stem [] = []
stem (c ∷ text) = let rest = stem text in if leb (length text) 3 then [] else c ∷ rest

-- The scripts that are left out: templates, not migrations.
unfoldable pub is_template : Text → Bool
unfolding ends occurs stem
is_template name = ends (codes "_merge.sql") name || occurs (codes "merge") (stem name)

-- The order of names: by their characters.
unfoldable pub comes_before : Text → Text → Bool
comes_before [] name = true
comes_before (a ∷ left) [] = false
comes_before (a ∷ left) (b ∷ right) = ltb a b || (a == b && comes_before left right)

unfoldable pub insert_script : Script → List Script → List Script
unfolding comes_before
insert_script s [] = s ∷ []
insert_script s (t ∷ ts) =
    let rest = insert_script s ts in if comes_before s.0 t.0 then s ∷ t ∷ ts else t ∷ rest

-- `sorted`, of paths in one directory.
unfoldable pub in_order : List Script → List Script
unfolding insert_script
in_order [] = []
in_order (s ∷ ss) = insert_script s (in_order ss)

module _ {S : Type 0} (execute : Text → Exec S (Unit {0})) where
  -- The loop over the statements of a script, with the count so far.
  unfoldable pub apply_statements : List Text → ℕ → Exec S ℕ
  apply_statements [] applied = pure applied
  apply_statements (s ∷ ss) applied = do execute s; apply_statements ss (suc applied)

  -- The loop over the scripts.
  unfoldable pub apply_scripts : List Script → ℕ → Exec S ℕ
  unfolding apply_statements is_template
  apply_scripts [] applied = pure applied
  apply_scripts ((name, script) ∷ scripts) applied =
      if is_template name
      then apply_scripts scripts applied
      else apply_statements (split_statements script) applied >>= apply_scripts scripts

  -- `apply_ddl`, on the files of the directory in any order.
  unfoldable pub apply_ddl : Exec S (Unit {0}) → List Script → Exec S ℕ
  unfolding apply_scripts in_order is_numbered
  apply_ddl commit directory = do
    applied ← apply_scripts (in_order (keep (λ s. is_numbered s.0) directory)) 0
    commit
    pure applied
