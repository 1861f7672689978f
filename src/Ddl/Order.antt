-- ===== src/Ddl/Order.antt =====
-- What `apply_ddl` executes: one flat sequence of statements, the same for every listing.
use batch_api_snowflake.Base.{◌≡◌, refl, ap, sym, ◌∙◌, ℕ, suc, ◌+◌, not, arith, fun_ext}
use batch_api_snowflake.Base.{
  List, [], ◌∷◌, ◌++◌, keep, length, length-append, flat_map, Bool-cases, inl, inr,
}
use batch_api_snowflake.Errors.{Result, ok, err}
use batch_api_snowflake.Exec.{Exec, pure, continue, ◌>>=◌, ◌>>◌}
use batch_api_snowflake.Ddl.{Text, split_statements}
use batch_api_snowflake.Ddl.Apply.{
  Script, is_template, is_numbered, in_order, apply_statements, apply_scripts, apply_ddl,
}

-- The statements of the scripts that are migrations.
abbrev pub statements_in : List Script → List Text
statements_in scripts =
    flat_map (λ s. split_statements s.1) (keep (λ s. not (is_template s.0)) scripts)

-- The statements of a directory, in the order that they are meant to be executed in.
abbrev pub migrations : List Script → List Text
migrations directory = statements_in (in_order (keep (λ s. is_numbered s.0) directory))

module _ {S A B C : Type 0} where
  continue-bind :
      (r : Result A) (f : A → Exec S B) (g : B → Exec S C) (w : S)
      → (continue r f >>= g) w ≡ continue r (λ a. f a >>= g) w
  continue-bind (ok a) f g w = refl
  continue-bind (err e) f g w = refl

  bind_assoc :
      (m : Exec S A) (f : A → Exec S B) (g : B → Exec S C)
      → ((m >>= f) >>= g) ≡ (m >>= λ a. f a >>= g)
  bind_assoc m f g = fun_ext (λ w. continue-bind (m w).0 f g (m w).1)

module _ {S : Type 0} (execute : Text → Exec S (Unit {0})) where
  -- The statements one after the other, up to the first that fails.
  abbrev pub execute_all : List Text → Exec S (Unit {0})
  execute_all [] = pure tt
  execute_all (s ∷ ss) = execute s >> execute_all ss

  execute_all-append :
      (ss ts : List Text) → execute_all (ss ++ ts) ≡ (execute_all ss >> execute_all ts)
  execute_all-append [] ts = refl
  execute_all-append (s ∷ ss) ts =
      ap (λ m. execute s >> m) (execute_all-append ss ts)
      ∙ sym (bind_assoc (execute s) (λ _. execute_all ss) (λ _. execute_all ts))

  apply_statements-execute_all :
      (ss : List Text) (n : ℕ)
      → apply_statements execute ss n ≡ (execute_all ss >> pure (n + length ss))
  unfolding apply_statements
  apply_statements-execute_all [] n = ap pure (omega arith)
  apply_statements-execute_all (s ∷ ss) n =
      ap (λ m. execute s >> m)
        (apply_statements-execute_all ss (suc n) ∙ ap (λ k. execute_all ss >> pure k) (omega arith))
      ∙ sym (bind_assoc (execute s) (λ _. execute_all ss) (λ _. pure (n + suc (length ss))))

  -- A script in front of what the later ones do.
  in_front :
      (here rest : List Text) (n : ℕ) (later : ℕ → Exec S ℕ)
      → ((k : ℕ) → later k ≡ (execute_all rest >> pure (k + length rest)))
      → (apply_statements execute here n >>= later)
        ≡ (execute_all (here ++ rest) >> pure (n + length (here ++ rest)))
  in_front here rest n later same =
      ap (λ m. m >>= later) (apply_statements-execute_all here n)
      ∙ bind_assoc (execute_all here) (λ _. pure (n + length here)) later
      ∙ ap (λ m. execute_all here >> m)
          (same (n + length here)
            ∙ ap (λ k. execute_all rest >> pure k) (omega (arith, length-append here rest)))
      ∙ sym (
          bind_assoc (execute_all here) (λ _. execute_all rest)
            (λ _. pure (n + length (here ++ rest))))
      ∙ ap (λ m. m >> pure (n + length (here ++ rest))) (sym (execute_all-append here rest))

  apply_scripts-execute_all :
      (scripts : List Script) (n : ℕ)
      → apply_scripts execute scripts n
        ≡ (execute_all (statements_in scripts) >> pure (n + length (statements_in scripts)))
  unfolding apply_scripts
  apply_scripts-execute_all [] n = ap pure (omega arith)
  apply_scripts-execute_all ((name, script) ∷ scripts) n = elim (Bool-cases (is_template name)) [
    | inl template ↦ rw template (apply_scripts-execute_all scripts n)
    | inr migration ↦ rw migration (
        in_front (split_statements script) (statements_in scripts) n (apply_scripts execute scripts)
          (apply_scripts-execute_all scripts))
  ]

  -- `apply_ddl` executes the statements of the migrations of the directory one after the other, in
  -- order, up to the first that fails, and raises what that one raises; if none fails it commits
  -- once at the end, and returns the number of the statements.
  pub apply_ddl-execute_all :
      (commit : Exec S (Unit {0})) (directory : List Script)
      → apply_ddl execute commit directory
        ≡ (execute_all (migrations directory) >> (commit >> pure (length (migrations directory))))
  unfolding apply_ddl
  apply_ddl-execute_all commit directory =
      let scripts = in_order (keep (λ s. is_numbered s.0) directory) in
      ap (λ m. m >>= λ applied. commit >> pure applied)
        (apply_scripts-execute_all scripts 0
          ∙ ap (λ k. execute_all (statements_in scripts) >> pure k) (omega arith))
      ∙ bind_assoc (execute_all (statements_in scripts))
          (λ _. pure (length (statements_in scripts))) (λ applied. commit >> pure applied)
