-- ===== src/Quality.antt =====
-- src/pipeline/quality.py: the gate in front of the landing zone. The share of rejected rows is
-- compared exactly, as a fraction; the float quotient of the source compares alike as long as a
-- batch has fewer than 2^40 rows.
pub mod Gate
mod Tests
use batch_api_snowflake.Base.{
  ℕ, ◌*◌, ◌==◌, ltb, not, String, ◌<>◌, Bool, true, false, ◌&&◌, Option, none, some,
}
use batch_api_snowflake.Base.{
  List, [], ◌∷◌, ◌++◌, length, take, contains, is_empty, String-discrete, if◌then◌else◌,
}
use batch_api_snowflake.Base.{decimal}
use batch_api_snowflake.Errors.{Result, ok, err, data_quality_error}
use batch_api_snowflake.Exec.{Exec, pure, raise, lift, ◌>>=◌, ◌>>◌}
use batch_api_snowflake.Values.{Datetime, Row}
use batch_api_snowflake.Calendar.{Date, isoformat}
use batch_api_snowflake.Contract.{
  Contract, Violation, Rejected, split_valid, unknown_fields, sorted,
}
use batch_api_snowflake.Disk.{QuarantineLine, File, jsonl, FilePath, Disk, write_file}

-- A ratio in hundredths.
abbrev pub Percent : Type 0
Percent = ℕ

-- `DEFAULT_MAX_REJECT_RATIO`
abbrev pub default_max_reject_ratio : Percent
default_max_reject_ratio = 2

pub record QualityReport : Type 0 where
  pub city_id : String
  pub observation_date : Date
  pub total_rows : ℕ
  pub accepted_rows : ℕ
  pub rejected_rows : ℕ
  pub unknown_fields : List String
  pub quarantine_path : Option FilePath

-- `report.reject_ratio > max_reject_ratio`; the ratio of an empty batch is 0.
unfoldable pub exceeds : QualityReport → Percent → Bool
exceeds r limit = not (r.total_rows == 0) && ltb (limit * r.total_rows) (r.rejected_rows * 100)

add_new : List String → List String → List String
add_new found [] = found
add_new found (k ∷ ks) =
    add_new (if contains String-discrete found k then found else found ++ k ∷ []) ks

-- The unknown fields of the first 50 rows, as a set.
unknown_among : Contract → List String → List Row → List String
unfolding add_new unknown_fields
unknown_among c found [] = found
unknown_among c found (row ∷ rows) = unknown_among c (add_new found (unknown_fields c row)) rows

-- The path of `_write_quarantine`.
unfoldable pub quarantine_path : FilePath → Contract → String → Date → FilePath
quarantine_path root c city_id day =
    root ++ c.name ∷ ("v" <> decimal c.version) ∷ isoformat day ∷ (city_id <> ".jsonl") ∷ []

unfoldable pub quarantine_lines : Contract → Datetime → List Rejected → List QuarantineLine
quarantine_lines c now [] = []
quarantine_lines c now ((row, reasons) ∷ rest) =
    (record {
      quarantined_at_utc = now;
      contract = c.name <> (".v" <> decimal c.version);
      reasons = reasons;
      row = row;
    })
    ∷ quarantine_lines c now rest

-- `if rejected: quarantine_path = _write_quarantine(...)`
unfoldable pub write_quarantine :
    FilePath → Contract → Datetime → String → Date → List Rejected → Exec Disk (Option FilePath)
write_quarantine root c now city_id day [] d = (ok none, d)
write_quarantine root c now city_id day rejected d = (
  ok (some (quarantine_path root c city_id day)),
  write_file (quarantine_path root c city_id day) (jsonl (quarantine_lines c now rejected)) d,
)

-- The report of a batch.
unfoldable pub report_of :
    Contract → List Row → String → Date → List Row → List Rejected → Option FilePath → QualityReport
unfolding unknown_among sorted
report_of c rows city_id day accepted rejected path = record {
  city_id = city_id;
  observation_date = day;
  total_rows = length rows;
  accepted_rows = length accepted;
  rejected_rows = length rejected;
  unknown_fields = sorted (unknown_among c [] (take 50 rows));
  quarantine_path = path;
}

-- The threshold, and the return.
unfoldable pub pass_gate : List Row → QualityReport → Percent → Result (List Row × QualityReport)
unfolding exceeds
pass_gate accepted report limit =
    if exceeds report limit
    then err (data_quality_error report.rejected_rows report.total_rows)
    else ok (accepted, report)

-- `check_batch`
unfoldable pub check_batch :
    Contract
    → List Row
    → String
    → Date
    → FilePath
    → Datetime
    → Percent
    → Exec Disk (List Row × QualityReport)
unfolding write_quarantine report_of pass_gate
check_batch c rows city_id day root now limit = do
  split ← lift (split_valid c rows)
  path ← write_quarantine root c now city_id day split.1
  lift (pass_gate split.0 (report_of c rows city_id day split.0 split.1 path) limit)
