-- ===== src/Warehouse/Session.antt =====
-- The driver's session (connection.py's `Connection` and `Cursor`), over what Snowflake holds. The
-- driver is not the program's: every call of it may fail with an exception, which has no effect
-- besides, and the failures of a run are given in advance. The stage is outside of transactions.
use batch_api_snowflake.Base.{ℕ, String, Bool, Option, none, some, List, [], ◌∷◌, map, eqb}
use batch_api_snowflake.Base.{String-discrete, if◌then◌else◌}
use batch_api_snowflake.Base.Dict.{Dict, lookup, insert, discard}
use batch_api_snowflake.Errors.{Error, ok, err, driver_error}
use batch_api_snowflake.Exec.{Exec}
use batch_api_snowflake.Values.{Datetime}
use batch_api_snowflake.Calendar.{Date}
use batch_api_snowflake.Client.{Server}
use batch_api_snowflake.Disk.{File, parquet, FilePath, Disk, read_file}
use batch_api_snowflake.Warehouse.Merge.{RawRow, select, merge}

-- A row of OPS.LOAD_AUDIT; the error message is the text of the exception, cut at 2000 characters.
pub record AuditRow : Type 0 where
  pub run_id : String
  pub dataset : String
  pub contract_version : ℕ
  pub city_id : String
  pub observation_date : Date
  pub batch_id : String
  pub source_payload_hash : String
  pub rows_fetched : ℕ
  pub rows_accepted : ℕ
  pub rows_rejected : ℕ
  pub rows_inserted : ℕ
  pub rows_updated : ℕ
  pub status : String
  pub error_message : Option Error
  pub started_at_utc : Datetime
  pub finished_at_utc : Datetime

pub record Tables : Type 0 where
  pub raw : List RawRow
  pub audit : List AuditRow

-- Everything outside of the process: the disk, the stage, the tables as committed and as the
-- session sees them, whether each statement commits itself, the failures to come of the driver,
-- the API's server and the number of requests that it has had.
pub record World : Type 0 where
  pub disk : Disk
  pub stage : Dict String File
  pub committed : Tables
  pub current : Tables
  pub autocommit : Bool
  pub faults : List (Option String)
  pub server : Server
  pub requests : ℕ

-- The world with no failure of the driver to come.
abbrev pub calm : World → World
calm w = record w { faults = [] }

unfoldable pub next_fault : List (Option String) → Option String
next_fault [] = none
next_fault (f ∷ fs) = f

unfoldable pub later_faults : List (Option String) → List (Option String)
later_faults [] = []
later_faults (f ∷ fs) = fs

-- One call of the driver: the next failure, or the effect of the call.
unfoldable pub call : {A : Type 0} → Exec World A → Exec World A
unfolding next_fault later_faults
call effect w = elim (next_fault w.faults) [
  | none ↦ effect (record w { faults = later_faults w.faults })
  | some message ↦ (err (driver_error message), record w { faults = later_faults w.faults })
]

-- A change of the tables, which an autocommitting session commits at once.
unfoldable pub set_tables : Tables → World → World
set_tables t w = record w { current = t; committed = if w.autocommit then t else w.committed }

unfoldable pub put_effect : String → Option File → Exec World (Unit {0})
put_effect key none w = (err (driver_error "253006: File doesn't exist"), w)
put_effect key (some f) w = (ok tt, record w { stage = insert String-discrete key f w.stage })

abbrev pub put_file : FilePath → String → Exec World (Unit {0})
put_file path key w = put_effect key (read_file path w.disk) w

-- PUT ... OVERWRITE = TRUE of a local file, to the key of the stage that it ends up under.
unfoldable pub put : FilePath → String → Exec World (Unit {0})
unfolding call put_effect insert
put path key = call (put_file path key)

unfoldable pub merge_effect : Option File → Exec World (ℕ × ℕ)
unfolding set_tables
merge_effect (some (parquet records)) w = elim (merge w.current.raw (map select records)) [
  | ok (raw, inserted, updated) ↦
      (ok (inserted, updated), set_tables (record w.current { raw = raw }) w)
  | err e ↦ (err e, w)
]
merge_effect _ w = (err (driver_error "the staged file is no Parquet file"), w)

abbrev pub merge_staged : String → Exec World (ℕ × ℕ)
merge_staged key w = merge_effect (lookup String-discrete key w.stage) w

-- The MERGE from a key of the stage, with the counts that `fetchone` then gives.
unfoldable pub run_merge : String → Exec World (ℕ × ℕ)
unfolding call merge_effect lookup set_tables
run_merge key = call (merge_staged key)

unfoldable pub remove_effect : String → Exec World (Unit {0})
unfolding discard
remove_effect key w =
    (ok tt, record w { stage = discard String-discrete (eqb String-discrete key) w.stage })

-- REMOVE of a staged file.
unfoldable pub remove_staged : String → Exec World (Unit {0})
unfolding call remove_effect
remove_staged key = call (remove_effect key)

unfoldable pub audit_effect : AuditRow → Exec World (Unit {0})
unfolding set_tables
audit_effect row w = (ok tt, set_tables (record w.current { audit = row ∷ w.current.audit }) w)

-- INSERT of an audit row.
unfoldable pub insert_audit : AuditRow → Exec World (Unit {0})
unfolding call audit_effect
insert_audit row = call (audit_effect row)

abbrev pub commit_effect : Exec World (Unit {0})
commit_effect w = (ok tt, record w { committed = w.current })

unfoldable pub commit : Exec World (Unit {0})
unfolding call
commit = call commit_effect

abbrev pub rollback_effect : Exec World (Unit {0})
rollback_effect w = (ok tt, record w { current = w.committed })

unfoldable pub rollback : Exec World (Unit {0})
unfolding call
rollback = call rollback_effect

abbrev pub select_effect : Exec World (List AuditRow)
select_effect w = (ok w.current.audit, w)

-- The audit rows that the session sees.
unfoldable pub select_audit : Exec World (List AuditRow)
unfolding call
select_audit = call select_effect
