-- ===== src/Ddl/Tests.antt =====
-- A script whose comment has a semicolon, as two comments of 002_raw_objects.sql have.
use mathlib.Core.List.{Perm}
use batch_api_snowflake.Base.{◌≡◌, refl, [], ◌∷◌, ◌++◌, codes}
use batch_api_snowflake.Base.{◌≢◌, List, length, flat_map}
use batch_api_snowflake.Errors.{ok}
use batch_api_snowflake.Exec.{Exec, pure, ◌>>◌}
use batch_api_snowflake.Ddl.Apply.{Script, apply_ddl}
use batch_api_snowflake.Ddl.Order.{execute_all}
use batch_api_snowflake.Ddl.Migrations.{Selects, IsAscending, apply_ddl-migrations}
use batch_api_snowflake.Ddl.Listing.{exchange, apply_ddl-Relisted}
use batch_api_snowflake.Ddl.{Text, split_statements}

abbrev script : Text
script = codes "-- one; two" ++ 10 ∷ codes "SELECT 1;"

-- The rest of the comment is taken for a part of the statement.
comment_leaks : split_statements script ≡ (codes "two" ++ 10 ∷ codes "SELECT 1") ∷ []
unfolding split_statements
comment_leaks = refl

-- The scripts of the directory, listed with the last one first, and a driver that keeps what it was
-- given.
abbrev merge_script : Script
merge_script = (codes "003_merge.sql", codes "MERGE;")

abbrev objects_script : Script
objects_script = (codes "002_raw_objects.sql", codes "CREATE B; CREATE C;")

abbrev roles_script : Script
roles_script = (codes "001_roles.sql", codes "CREATE A;")

abbrev directory : List Script
directory = merge_script ∷ objects_script ∷ roles_script ∷ (codes "README.md", []) ∷ []

abbrev log_statement : Text → Exec (List Text) (Unit {0})
log_statement s log = (ok tt, s ∷ log)

abbrev log_commit : Exec (List Text) (Unit {0})
log_commit log = (ok tt, codes "commit" ∷ log)

in_sequence :
    apply_ddl log_statement log_commit directory []
    ≡ (ok 3, codes "commit" ∷ codes "CREATE C" ∷ codes "CREATE B" ∷ codes "CREATE A" ∷ [])
unfolding apply_ddl split_statements
in_sequence = refl

apply_ddl-migrations_example :
    (chosen : List Script) × (scripts : List Script) × Selects directory chosen
    × Perm scripts chosen
    × IsAscending scripts
    × (apply_ddl log_statement log_commit directory ≡ (
        execute_all log_statement (flat_map (λ s. split_statements s.1) scripts)
        >> (log_commit >> pure (length (flat_map (λ s. split_statements s.1) scripts)))))
apply_ddl-migrations_example = apply_ddl-migrations log_statement log_commit directory

names_differ : merge_script.0 ≢ objects_script.0
names_differ = λ e. cc

apply_ddl-Relisted_example :
    apply_ddl log_statement log_commit (merge_script ∷ objects_script ∷ [])
    ≡ apply_ddl log_statement log_commit (objects_script ∷ merge_script ∷ [])
apply_ddl-Relisted_example =
    apply_ddl-Relisted log_statement log_commit (merge_script ∷ objects_script ∷ [])
      (objects_script ∷ merge_script ∷ []) (exchange merge_script objects_script [] names_differ)
