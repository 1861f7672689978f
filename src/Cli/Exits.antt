-- ===== src/Cli/Exits.antt =====
-- How `ingest` ends.
use batch_api_snowflake.Base.{◌≡◌, refl, ◌↔◌, ℕ}
use batch_api_snowflake.Errors.{Result, ok, err, data_quality_error}
use batch_api_snowflake.Run.{RunSummary}
use batch_api_snowflake.Cli.{exit_code, exit_of}

-- The exit code is 2 exactly when the run ended with a failure of the quality gate.
pub exit_of_iff :
    (r : Result RunSummary)
    → (exit_of r ≡ exit_code 2)
      ↔ ((rejected : ℕ) × (total : ℕ) × (r ≡ err (data_quality_error rejected total)))
unfolding exit_of
exit_of_iff (ok summary) = ((λ e. cc), λ (n, m, e). cc)
exit_of_iff (err (data_quality_error rejected total)) = ((λ e. (rejected, total, refl)), λ _. refl)
exit_of_iff (err _) = ((λ e. cc), λ (n, m, e). cc)
