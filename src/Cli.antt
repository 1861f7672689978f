-- ===== src/Cli.antt =====
-- src/pipeline/cli.py: the command `ingest`. How typer parses and `date.fromisoformat` reads a text
-- is a parameter; an option that is not given reads as `none`.
pub mod Exits
pub mod Commands
pub mod Newest
mod Tests
use batch_api_snowflake.Base.{ℕ, ℤ, String, Bool, true, false, Option, none, some, if◌then◌else◌}
use batch_api_snowflake.Errors.{Error, Result, ok, err, data_quality_error, value_error, ◌>>=◌}
use batch_api_snowflake.Calendar.{Date, sub_days}
use batch_api_snowflake.Run.{RunSummary}
use Prim.Native.String

-- An option that is not given, or given as the empty text, is falsy.
unfoldable pub given : Option String → Option String
given none = none
given (some String.[]) = none
given (some text) = some text

module _ (parse_date : String → Result Date) where
  -- `date.fromisoformat(end) if end else start_date`
  unfoldable pub last_day : Option String → Date → Result Date
  unfolding given
  last_day end start = elim (given end) [ none ↦ ok start | some text ↦ parse_date text ]

  -- The dates of `ingest`: --date, or --start with --end, or the newest day by the settings.
  unfoldable pub resolve_dates :
      Option String → Option String → Option String → Date → ℤ → Result (Date × Date)
  unfolding last_day
  resolve_dates start end day today source_lag_days = elim (given day) [
    | some text ↦ parse_date text >>= λ d. ok (d, d)
    | none ↦ elim (given start) [
      | some text ↦ parse_date text >>= λ first. last_day end first >>= λ last. ok (first, last)
      | none ↦ sub_days today source_lag_days >>= λ d. ok (d, d)
    ]
  ]

-- How the process ends.
pub data Exit : Type 0 where
  exit_code : ℕ → Exit
  traceback : Error → Exit

-- The exit of `ingest`: 0, 2 for a failure of the quality gate, and a traceback otherwise.
unfoldable pub exit_of : Result RunSummary → Exit
exit_of (ok summary) = exit_code 0
exit_of (err (data_quality_error rejected total)) = exit_code 2
exit_of (err e) = traceback e
