-- ===== src/Warehouse/Loader.antt =====
-- src/pipeline/warehouse/loader.py: a landed partition into Snowflake. The names of the target
-- table and of the stage do not vary in a run, and are left out.
pub mod Reload
pub mod Returns
pub mod Stable
pub mod Kept
pub mod Retry
pub mod Failure
pub mod Guard
pub mod Audit
pub mod Upsert
pub mod Clean
mod Tests
use batch_api_snowflake.Base.{
  ℕ, String, ◌<>◌, Bool, true, false, ◌&&◌, ◌==◌, Option, none, some, List, [], ◌∷◌,
}
use batch_api_snowflake.Base.{any, is_empty, not, str_eq, keep, if◌then◌else◌}
use batch_api_snowflake.Errors.{Error, Result, ok, err}
use batch_api_snowflake.Exec.{Exec, pure, raise, try_except, ◌>>=◌, ◌>>◌}
use batch_api_snowflake.Values.{Datetime}
use batch_api_snowflake.Calendar.{Date, isoformat}
use batch_api_snowflake.Models.{contract_version}
use batch_api_snowflake.Disk.{file_name}
use batch_api_snowflake.Landing.{LandedBatch, dataset}
use batch_api_snowflake.Warehouse.Session.{
  AuditRow, World, put, run_merge, remove_staged, insert_audit, commit,
}
use batch_api_snowflake.Warehouse.Session.{rollback, select_audit}

pub record LoadResult : Type 0 where
  pub batch_id : String
  pub city_id : String
  pub observation_date : Date
  pub rows_inserted : ℕ
  pub rows_updated : ℕ
  pub status : String

-- `_stage_path`
unfoldable pub stage_path : String → Date → String
stage_path city_id day = "v1/" <> (isoformat day <> ("/" <> city_id))

-- The staged object of a batch: the PUT puts the local file below the stage path.
unfoldable pub stage_key : LandedBatch → String
unfolding stage_path
stage_key b = stage_path b.city_id b.observation_date <> ("/" <> file_name b.path)

-- `_merge_counts`, on the row that `fetchone` gives, if any: a missing or null number is 0.
count_at : Option (Option ℕ) → ℕ
count_at (some (some n)) = n
count_at _ = 0

unfoldable pub merge_counts : Option (List (Option ℕ)) → ℕ × ℕ
unfolding count_at
merge_counts none = (0, 0)
merge_counts (some []) = (0, 0)
merge_counts (some (a ∷ [])) = (count_at (some a), 0)
merge_counts (some (a ∷ b ∷ more)) = (count_at (some a), count_at (some b))

-- `t.replace(tzinfo=None)`
abbrev pub without_zone : Datetime → Datetime
without_zone t = record t { offset = none }

-- The row of `write_audit`.
abbrev pub audit_row :
    LandedBatch → String → ℕ → ℕ → ℕ → ℕ → String → Option Error → Datetime → Datetime → AuditRow
audit_row b run_id fetched rejected inserted updated status message started finished = record {
  run_id = run_id;
  dataset = dataset;
  contract_version = contract_version;
  city_id = b.city_id;
  observation_date = b.observation_date;
  batch_id = b.batch_id;
  source_payload_hash = b.payload_hash;
  rows_fetched = fetched;
  rows_accepted = b.row_count;
  rows_rejected = rejected;
  rows_inserted = inserted;
  rows_updated = updated;
  status = status;
  error_message = message;
  started_at_utc = without_zone started;
  finished_at_utc = without_zone finished;
}

-- `write_audit`
unfoldable pub write_audit : AuditRow → Exec World (Unit {0})
unfolding insert_audit commit
write_audit row = do insert_audit row; commit

-- The body of the `try` of `load_batch`.
unfoldable pub put_and_merge : LandedBatch → Exec World LoadResult
unfolding put run_merge remove_staged commit merge_counts stage_key
put_and_merge b = do
  put b.path (stage_key b)
  row ← run_merge (stage_key b)
  remove_staged (stage_key b)
  commit
  pure (record {
    batch_id = b.batch_id;
    city_id = b.city_id;
    observation_date = b.observation_date;
    rows_inserted = (merge_counts (some (some row.0 ∷ some row.1 ∷ []))).0;
    rows_updated = (merge_counts (some (some row.0 ∷ some row.1 ∷ []))).1;
    status = "loaded";
  })

-- The `except` of `load_batch`.
unfoldable pub load_failed :
    LandedBatch → String → ℕ → ℕ → Datetime → Datetime → Error → Exec World LoadResult
unfolding rollback write_audit
load_failed b run_id fetched rejected started finished e = do
  rollback
  write_audit (audit_row b run_id fetched rejected 0 0 "failed" (some e) started finished)
  raise e

-- `load_batch`
unfoldable pub load_batch :
    LandedBatch → String → ℕ → ℕ → Datetime → Datetime → Exec World LoadResult
unfolding put_and_merge load_failed
load_batch b run_id fetched rejected started finished = do
  result ← try_except (put_and_merge b) (load_failed b run_id fetched rejected started finished)
  write_audit (
      audit_row b run_id fetched rejected result.rows_inserted result.rows_updated result.status
        none started finished)
  pure result

-- The WHERE clause of `already_loaded`.
unfoldable pub is_load_of : String → Date → String → AuditRow → Bool
is_load_of city_id day hash row =
    str_eq row.city_id city_id
    && (row.observation_date == day)
    && str_eq row.source_payload_hash hash
    && str_eq row.status "loaded"

-- `already_loaded`
unfoldable pub already_loaded : String → Date → String → Exec World Bool
unfolding select_audit is_load_of
already_loaded city_id day hash = do
  rows ← select_audit
  pure (any (is_load_of city_id day hash) rows)
