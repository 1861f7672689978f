-- ===== src/Warehouse/Loader/Upsert.antt =====
-- A load under any failures of the driver, against the abstract view of the table.
use batch_api_snowflake.Base.{◌≡◌, ap, subst, sym, ◌⊎◌, inl, inr, ℕ, String, some, List, map}
use batch_api_snowflake.Values.{Datetime}
use batch_api_snowflake.Disk.{LandedRecord, parquet, read_file}
use batch_api_snowflake.Landing.{LandedBatch}
use batch_api_snowflake.Warehouse.Merge.{select}
use batch_api_snowflake.Warehouse.Merge.Keys.{Key, find, HasUniqueKeys, upsert}
use batch_api_snowflake.Warehouse.Merge.Refinement.{merge-upsert}
use batch_api_snowflake.Warehouse.Session.{World}
use batch_api_snowflake.Warehouse.Loader.{load_batch}
use batch_api_snowflake.Warehouse.Loader.Failure.{load_batch-atomic}

-- Whatever calls of the driver fail during the load of a file with unique keys, in either
-- autocommit mode: a committed table with unique keys keeps them unique, and afterwards either a
-- query finds what it found before at every key, or what `upsert` makes of that and of the file.
pub load_batch-upserts :
    (b : LandedBatch) (run_id : String) (fetched rejected : ℕ) (started finished : Datetime)
    (records : List LandedRecord) (w : World)
    → read_file b.path w.disk ≡ some (parquet records)
    → w.current.raw ≡ w.committed.raw
    → HasUniqueKeys w.committed.raw
    → HasUniqueKeys (map select records)
    → let before = w.committed.raw in
      let after = (load_batch b run_id fetched rejected started finished w).1.committed.raw in
      HasUniqueKeys after
      × (((k : Key) → find k after ≡ find k before)
          ⊎ ((k : Key) → find k after ≡ upsert (find k before) (find k (map select records))))
load_batch-upserts b run_id fetched rejected started finished records w found now unique
      new_unique =
    let (out, i, u, merged, kept, finds, grows) =
      merge-upsert w.committed.raw (map select records) unique new_unique in
    elim (load_batch-atomic b run_id fetched rejected started finished records out i u w found now
      merged) [
        | inl same ↦ (subst HasUniqueKeys (sym same) unique, inl (λ k. ap (find k) same))
        | inr changed ↦ (subst HasUniqueKeys (sym changed) kept, inr (λ k. rw changed (finds k)))
      ]
