-- ===== src/Warehouse/Loader/Retry.antt =====
-- A load that fails, and its retry.
use batch_api_snowflake.Base.{
  ◌≡◌, refl, ◌∙◌, ap, ℕ, String, ◌⊎◌, inl, inr, Option, none, some, List, map,
}
use batch_api_snowflake.Errors.{Result-cases, ok}
use batch_api_snowflake.Values.{Datetime}
use batch_api_snowflake.Disk.{Disk, File, LandedRecord, parquet, read_file}
use batch_api_snowflake.Landing.{LandedBatch}
use batch_api_snowflake.Warehouse.Merge.{RawRow, merge, select}
use batch_api_snowflake.Warehouse.Merge.Idempotent.{HasHash, merge-idempotent}
use batch_api_snowflake.Warehouse.Session.{
  World, calm, put_effect, merge_effect, remove_effect, audit_effect, set_tables,
}
use batch_api_snowflake.Warehouse.Loader.{load_batch}
use batch_api_snowflake.Warehouse.Loader.Reload.{loaded, load_batch-loaded}
use batch_api_snowflake.Warehouse.Loader.Failure.{load_batch-atomic}
use batch_api_snowflake.Warehouse.Loader.Stable.{IsStable, load_batch-Preserves}

-- The disk is this one.
abbrev HasDisk : Disk → World → Type 0
HasDisk d w = w.disk ≡ d

put_effect-HasDisk :
    (d : Disk) (key : String) (f : Option File) (w : World)
    → HasDisk d w
    → HasDisk d (put_effect key f w).1
unfolding put_effect
put_effect-HasDisk d key none w h = h
put_effect-HasDisk d key (some f) w h = h

merge_effect-HasDisk :
    (d : Disk) (f : Option File) (w : World) → HasDisk d w → HasDisk d (merge_effect f w).1
unfolding merge_effect set_tables
merge_effect-HasDisk d none w h = h
merge_effect-HasDisk d (some (parquet records)) w h =
    elim (Result-cases (merge w.current.raw (map select records))) [
      | inl ((raw, i, u), merged) ↦ rw (merge_effect, merged) h
      | inr (e, fails) ↦ rw (merge_effect, fails) h
    ]
merge_effect-HasDisk d (some f) w h = h

-- A load writes no file.
HasDisk-IsStable : (d : Disk) → IsStable (HasDisk d)
unfolding remove_effect audit_effect set_tables
HasDisk-IsStable d = record {
  later = λ w faults h. h;
  put = put_effect-HasDisk d;
  merge = merge_effect-HasDisk d;
  remove = λ key w h. h;
  insert = λ row w h. h;
  commit = λ w h. h;
  rollback = λ w h. h;
}

-- A load of a batch of one payload hash that can be merged, of which any driver calls fail, in
-- either autocommit mode, and whether it returns or raises: a retry in a new session, which sees
-- what is committed, and without failures of the driver returns, and the committed table is then
-- the one that a single load without failures makes. The retry counts what that load counts, or
-- nothing, if the first load had merged the batch.
pub load_batch-retried :
    (b : LandedBatch) (run_id run_id' : String) (fetched rejected : ℕ)
    (started finished started' finished' : Datetime) (hash : String) (records : List LandedRecord)
    (raw : List RawRow) (i u : ℕ) (w : World)
    → read_file b.path w.disk ≡ some (parquet records)
    → HasHash hash (map select records)
    → w.current.raw ≡ w.committed.raw
    → merge w.committed.raw (map select records) ≡ ok (raw, i, u)
    → let first = (load_batch b run_id fetched rejected started finished w).1 in
      let (result, after) =
        load_batch b run_id' fetched rejected started' finished'
          (calm (record first { current = first.committed })) in
      ((result ≡ ok (loaded b i u)) ⊎ (result ≡ ok (loaded b 0 0))) × (after.committed.raw ≡ raw)
load_batch-retried b run_id run_id' fetched rejected started finished started' finished' hash
      records raw i u w found hashes settled merged =
    let first = (load_batch b run_id fetched rejected started finished w).1 in
    let again = record first { current = first.committed } in
    let same_disk : first.disk ≡ w.disk =
      load_batch-Preserves (HasDisk w.disk) (HasDisk-IsStable w.disk) b run_id fetched rejected
        started finished w refl in
    let found' : read_file b.path first.disk ≡ some (parquet records) =
      ap (read_file b.path) same_disk ∙ found in
    elim (load_batch-atomic b run_id fetched rejected started finished records raw i u w found
      settled merged) [
        | inl untouched ↦
            rw
              (load_batch-loaded b run_id' fetched rejected started' finished' records raw i u again
                found' (ap (λ t. merge t (map select records)) untouched ∙ merged))
              (inl refl, refl)
        | inr whole ↦
            rw
              (load_batch-loaded b run_id' fetched rejected started' finished' records raw 0 0 again
                found'
                (ap (λ t. merge t (map select records)) whole
                  ∙ merge-idempotent hash w.committed.raw (map select records) (raw, i, u) hashes
                      merged))
              (inr refl, refl)
      ]
