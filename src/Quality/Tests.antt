-- ===== src/Quality/Tests.antt =====
-- The gate at a batch of two rows, one of which violates the contract.
use batch_api_snowflake.Base.{
  ◌≡◌, refl, ◌*◌, ◌≤◌, arith, not, List, [], ◌∷◌, length, keep, pos, some, String-discrete,
}
use batch_api_snowflake.Base.{eqb, map, if◌then◌else◌}
use batch_api_snowflake.Errors.{ok, err, data_quality_error}
use batch_api_snowflake.Values.{Row, float, fin, float_lt}
use batch_api_snowflake.Contract.{Rejected, split_valid, validate_row, above_maximum}
use batch_api_snowflake.Contract.Splitting.{is_valid}
use batch_api_snowflake.Disk.{jsonl, FilePath-discrete, FilePath, read_file}
use batch_api_snowflake.Quality.{check_batch, default_max_reject_ratio, QualityReport}
use batch_api_snowflake.Quality.{exceeds, report_of, pass_gate, write_quarantine}
use batch_api_snowflake.Quality.Gate.{
  check_batch-accepts, read-check_batch, check_batch-small, report, quarantine_file, line_of,
}
use batch_api_snowflake.Fixtures.{two_fields, good_row, wet_row, august, utc_midnight}

abbrev rejected : List Rejected
rejected =
    (wet_row, above_maximum "relative_humidity_2m_pct" (float (fin (pos 940))) (fin (pos 100)) ∷ [])
    ∷ []

abbrev two_rows : List Row
two_rows = wet_row ∷ good_row ∷ []

abbrev quarantine : FilePath
quarantine = "data" ∷ "quarantine" ∷ []

rows_split : split_valid two_fields two_rows ≡ ok (good_row ∷ [], rejected)
unfolding split_valid validate_row String-discrete float_lt
rows_split = refl

-- At a limit of 60 percent the batch passes.
abbrev lenient : QualityReport
lenient =
    report two_fields two_rows "berlin" august quarantine utc_midnight 60 (good_row ∷ []) rejected

passes :
    (check_batch two_fields two_rows "berlin" august quarantine utc_midnight 60 []).0
    ≡ ok (good_row ∷ [], lenient)
unfolding check_batch report_of pass_gate exceeds write_quarantine
passes = rw rows_split refl

check_batch-accepts_example :
    (good_row ∷ [] ≡ keep (is_valid two_fields) two_rows)
    × (lenient.rejected_rows ≡ length (keep (λ row. not (is_valid two_fields row)) two_rows))
    × (lenient.rejected_rows * 100 ≤ 60 * length two_rows)
check_batch-accepts_example =
    check_batch-accepts two_fields two_rows "berlin" august quarantine utc_midnight 60 []
      (good_row ∷ []) lenient passes

read-check_batch_example :
    read_file quarantine
      (check_batch two_fields two_rows "berlin" august quarantine utc_midnight 2 []).1
    ≡ (if eqb FilePath-discrete quarantine
          (quarantine_file two_fields two_rows "berlin" august quarantine utc_midnight 2)
        then some (
            jsonl (
              map (line_of two_fields two_rows "berlin" august quarantine utc_midnight 2) rejected))
        else read_file quarantine [])
read-check_batch_example =
    read-check_batch two_fields two_rows "berlin" august quarantine utc_midnight 2 (good_row ∷ [])
      rejected [] quarantine rows_split (λ e. cc)

check_batch-small_example :
    (check_batch two_fields two_rows "berlin" august quarantine utc_midnight
      default_max_reject_ratio []).0
    ≡ err (data_quality_error 1 2)
check_batch-small_example =
    check_batch-small two_fields two_rows "berlin" august quarantine utc_midnight (good_row ∷ [])
      rejected [] rows_split (λ e. cc) (omega arith)
