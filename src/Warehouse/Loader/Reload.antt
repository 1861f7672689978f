-- ===== src/Warehouse/Loader/Reload.antt =====
-- A load that meets no failure of the driver, and the same load again.
use batch_api_snowflake.Base.{◌≡◌, refl, ℕ, String, none, some}
use batch_api_snowflake.Base.{List, [], ◌∷◌, map, eqb, eqb_refl, String-discrete}
use batch_api_snowflake.Base.Dict.{Dict, lookup, insert, discard, lookup-insert}
use batch_api_snowflake.Errors.{ok}
use batch_api_snowflake.Values.{Datetime}
use batch_api_snowflake.Disk.{LandedRecord, File, parquet, FilePath, read_file}
use batch_api_snowflake.Landing.{LandedBatch}
use batch_api_snowflake.Warehouse.Merge.{RawRow, select, merge}
use batch_api_snowflake.Warehouse.Merge.Idempotent.{HasHash, merge-idempotent}
use batch_api_snowflake.Warehouse.Session.{
  AuditRow, World, put, run_merge, put_effect, merge_effect,
}
use batch_api_snowflake.Warehouse.Session.{set_tables, calm}
use batch_api_snowflake.Warehouse.Loader.{LoadResult, stage_key, audit_row, load_batch}

abbrev pub loaded : LandedBatch → ℕ → ℕ → LoadResult
loaded b inserted updated = record {
  batch_id = b.batch_id;
  city_id = b.city_id;
  observation_date = b.observation_date;
  rows_inserted = inserted;
  rows_updated = updated;
  status = "loaded";
}

pub lookup-insert_self :
    (key : String) (f : File) (m : Dict String File)
    → lookup String-discrete key (insert String-discrete key f m) ≡ some f
lookup-insert_self key f m = rw (lookup-insert, eqb_refl String-discrete key)

put_lem :
    (path : FilePath) (key : String) (f : File) (w : World)
    → read_file path w.disk ≡ some f
    → put path key (calm w)
      ≡ (ok tt, record w { stage = insert String-discrete key f w.stage; faults = [] })
unfolding put
put_lem path key f w found = rw (put, found, put_effect)

run_merge_lem :
    (key : String) (records : List LandedRecord) (w : World) (raw : List RawRow) (i u : ℕ)
    → lookup String-discrete key w.stage ≡ some (parquet records)
    → merge w.current.raw (map select records) ≡ ok (raw, i, u)
    → run_merge key (calm w)
      ≡ (ok (i, u), unfold set_tables in set_tables (record w.current { raw = raw }) (calm w))
unfolding run_merge
run_merge_lem key records w raw i u found merged = rw (run_merge, found, merge_effect, merged)

-- The world after a load that meets no failure.
abbrev pub after_load : LandedBatch → File → List RawRow → AuditRow → World → World
after_load b f raw row w = record w {
  stage =
      discard String-discrete (eqb String-discrete (stage_key b))
        (insert String-discrete (stage_key b) f w.stage);
  current = record { raw = raw; audit = row ∷ w.current.audit };
  committed = record { raw = raw; audit = row ∷ w.current.audit };
}

-- Without failures of the driver, a batch whose file is on the disk and whose MERGE succeeds is
-- loaded: the table is the merged one, committed, with one audit row in front, which says so.
pub load_batch-loaded :
    (b : LandedBatch) (run_id : String) (fetched rejected : ℕ) (started finished : Datetime)
    (records : List LandedRecord) (raw : List RawRow) (i u : ℕ) (w : World)
    → read_file b.path w.disk ≡ some (parquet records)
    → merge w.current.raw (map select records) ≡ ok (raw, i, u)
    → load_batch b run_id fetched rejected started finished (calm w) ≡ (
      ok (loaded b i u),
      after_load b
          (parquet records)
          raw
          (audit_row b run_id fetched rejected i u "loaded" none started finished)
          (calm w),
    )
unfolding load_batch
load_batch-loaded b run_id fetched rejected started finished records raw i u w found merged =
    let stage = insert String-discrete (stage_key b) (parquet records) w.stage in
    rw (
      put_lem b.path (stage_key b) (parquet records) w found,
      run_merge_lem (stage_key b) records (record w { stage = stage }) raw i u
          (lookup-insert_self (stage_key b) (parquet records) w.stage) merged,
    )

-- Loading a batch a second time from the same file, after a load without failures, inserts and
-- updates nothing: the result says so, and the table stays what the first load made of it.
pub load_batch-twice :
    (b : LandedBatch) (run_id run_id' : String) (fetched rejected : ℕ) (started finished : Datetime)
    (hash : String) (records : List LandedRecord) (raw : List RawRow) (i u : ℕ) (w : World)
    → read_file b.path w.disk ≡ some (parquet records)
    → HasHash hash (map select records)
    → merge w.current.raw (map select records) ≡ ok (raw, i, u)
    → let first = (load_batch b run_id fetched rejected started finished (calm w)).1 in
      let (again, after) = load_batch b run_id' fetched rejected started finished first in
      (again ≡ ok (loaded b 0 0)) × (after.committed.raw ≡ raw) × (first.committed.raw ≡ raw)
load_batch-twice b run_id run_id' fetched rejected started finished hash records raw i u w found
      hashes merged =
    let first =
      after_load b (parquet records) raw
        (audit_row b run_id fetched rejected i u "loaded" none started finished) (calm w) in
    rw (load_batch-loaded b run_id fetched rejected started finished records raw i u w found merged)
      (rw
        (load_batch-loaded b run_id' fetched rejected started finished records raw 0 0 first found
          (merge-idempotent hash w.current.raw (map select records) (raw, i, u) hashes merged))
        (refl, refl, refl))
