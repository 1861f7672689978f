-- ===== src/Warehouse/Loader/Tests.antt =====
-- Loads of two hours into an empty table.
use batch_api_snowflake.Base.{
  ◌≡◌, refl, ◌⊎◌, List, [], ◌∷◌, map, Bool, true, any, some, none, String, String-discrete,
  ℕ_discrete,
}
use batch_api_snowflake.Errors.{ok, err, driver_error}
use batch_api_snowflake.Disk.{LandedRecord, parquet, FilePath-discrete, read_file}
use batch_api_snowflake.Landing.{LandedBatch, landed_records}
use batch_api_snowflake.Warehouse.Merge.{
  RawRow, select, merge, update_rows, insertions, restatements, same_key, ℤ-discrete,
}
use batch_api_snowflake.Base.Dict.{insert}
use batch_api_snowflake.Warehouse.Session.{
  World, calm, put, run_merge, call, next_fault, later_faults, put_effect,
}
use batch_api_snowflake.Warehouse.Loader.{
  load_batch, put_and_merge, stage_key, already_loaded, is_load_of,
}
use batch_api_snowflake.Warehouse.Loader.Failure.{load_batch-atomic}
use batch_api_snowflake.Warehouse.Loader.Audit.{failed_row, load_batch-failed}
use batch_api_snowflake.Warehouse.Merge.Keys.{Key, find, HasUniqueKeys, upsert}
use batch_api_snowflake.Warehouse.Loader.Upsert.{load_batch-upserts}
use batch_api_snowflake.Warehouse.Loader.Retry.{load_batch-retried}
use batch_api_snowflake.Warehouse.Loader.Reload.{loaded}
use batch_api_snowflake.Warehouse.Loader.Guard.{already_loaded-reverted}
use batch_api_snowflake.Fixtures.{
  platform, august, utc_midnight, first_hour, second_hour, empty_world,
}

abbrev records_of : String → List LandedRecord
records_of hash =
    landed_records platform utc_midnight "berlin" august hash (first_hour ∷ second_hour ∷ [])

abbrev batch_of : String → LandedBatch
batch_of hash = record {
  path = hash ∷ [];
  batch_id = "b1";
  city_id = "berlin";
  observation_date = august;
  row_count = 2;
  payload_hash = hash;
}

-- A world with the files of two payloads, at the start of a run.
abbrev world : World
world = record empty_world {
  disk = ("old" ∷ [], parquet (records_of "old")) ∷ ("new" ∷ [], parquet (records_of "new")) ∷ [];
}

old_file : read_file (batch_of "old").path world.disk ≡ some (parquet (records_of "old"))
unfolding read_file String-discrete FilePath-discrete
old_file = refl

new_file : read_file (batch_of "new").path world.disk ≡ some (parquet (records_of "new"))
unfolding read_file String-discrete FilePath-discrete
new_file = refl

abbrev rows_of_hash : String → List RawRow
rows_of_hash hash = map select (records_of hash)

old_merged : merge [] (rows_of_hash "old") ≡ ok (rows_of_hash "old", 2, 0)
unfolding merge select landed_records String-discrete update_rows restatements same_key ℤ-discrete
    ℕ_discrete insertions
old_merged = refl

new_merged : merge (rows_of_hash "old") (rows_of_hash "new") ≡ ok (rows_of_hash "new", 0, 2)
unfolding merge select landed_records String-discrete update_rows restatements same_key ℤ-discrete
    ℕ_discrete insertions
new_merged = refl

-- The MERGE succeeds, and the removal of the staged file fails.
abbrev flaky_world : World
flaky_world = record world {
  faults = none ∷ none ∷ some "250001: connection closed" ∷ [];
  autocommit = Bool.false;
}

load_batch-atomic_example :
    let after = (load_batch (batch_of "old") "run" 2 0 utc_midnight utc_midnight flaky_world).1 in
    (after.committed.raw ≡ []) ⊎ (after.committed.raw ≡ rows_of_hash "old")
load_batch-atomic_example =
    load_batch-atomic (batch_of "old") "run" 2 0 utc_midnight utc_midnight (records_of "old")
      (rows_of_hash "old") 2 0 flaky_world old_file refl old_merged

load_batch-retried_example :
    let first = (load_batch (batch_of "old") "run" 2 0 utc_midnight utc_midnight flaky_world).1 in
    let (result, after) =
      load_batch
        (batch_of "old")
        "retry"
        2
        0
        utc_midnight
        utc_midnight
        (calm (record first { current = first.committed })) in
    ((result ≡ ok (loaded (batch_of "old") 2 0)) ⊎ (result ≡ ok (loaded (batch_of "old") 0 0)))
    × (after.committed.raw ≡ rows_of_hash "old")
unfolding landed_records select
load_batch-retried_example =
    load_batch-retried (batch_of "old") "run" "retry" 2 0 utc_midnight utc_midnight utc_midnight
      utc_midnight "old" (records_of "old") (rows_of_hash "old") 2 0 flaky_world old_file
      (refl, (refl, tt)) refl old_merged

already_loaded-reverted_example :
    let loaded_a =
      (load_batch (batch_of "old") "run" 2 0 utc_midnight utc_midnight (calm world)).1 in
    let loaded_b = (load_batch (batch_of "new") "rerun" 2 0 utc_midnight utc_midnight loaded_a).1 in
    (loaded_b.committed.raw ≡ rows_of_hash "new")
    × ((already_loaded "berlin" august "old" loaded_b).0 ≡ ok true)
already_loaded-reverted_example =
    already_loaded-reverted (batch_of "old") (batch_of "new") "run" "rerun" 2 0 utc_midnight
      utc_midnight (records_of "old") (records_of "new") (rows_of_hash "old") (rows_of_hash "new") 2
      0 0 2 world old_file new_file old_merged new_merged

-- The PUT succeeds, and the MERGE fails.
abbrev failing_world : World
failing_world = record world { faults = none ∷ some "000630: statement timed out" ∷ [] }

abbrev staged_world : World
staged_world = record world {
  stage = insert String-discrete (stage_key (batch_of "old")) (parquet (records_of "old")) [];
}

merge_failed :
    put_and_merge (batch_of "old") failing_world
    ≡ (err (driver_error "000630: statement timed out"), staged_world)
unfolding put_and_merge put run_merge call next_fault later_faults put_effect read_file
    String-discrete FilePath-discrete
merge_failed = refl

load_batch-failed_example :
    let row =
      failed_row
        (batch_of "old")
        "run"
        2
        0
        utc_midnight
        utc_midnight
        (driver_error "000630: statement timed out") in
    let (result, after) =
      load_batch (batch_of "old") "run" 2 0 utc_midnight utc_midnight failing_world in
    (result ≡ err (driver_error "000630: statement timed out"))
    × (after.committed.raw ≡ [])
    × (after.current.raw ≡ [])
    × (after.committed.audit ≡ row ∷ [])
    × (any (is_load_of "berlin" august "old") after.committed.audit
        ≡ any (is_load_of "berlin" august "old") [])
load_batch-failed_example =
    load_batch-failed (batch_of "old") "run" 2 0 utc_midnight utc_midnight
      (driver_error "000630: statement timed out") failing_world staged_world "berlin" august "old"
      merge_failed refl

old_unique : HasUniqueKeys (rows_of_hash "old")
unfolding landed_records select same_key String-discrete ℤ-discrete ℕ_discrete
old_unique = ((refl, tt), (tt, tt))

load_batch-upserts_example :
    let after = (load_batch (batch_of "old") "run" 2 0 utc_midnight utc_midnight flaky_world).1 in
    HasUniqueKeys after.committed.raw
    × (((k : Key) → find k after.committed.raw ≡ find k [])
        ⊎ ((k : Key)
            → find k after.committed.raw ≡ upsert (find k []) (find k (rows_of_hash "old"))))
load_batch-upserts_example =
    load_batch-upserts (batch_of "old") "run" 2 0 utc_midnight utc_midnight (records_of "old")
      flaky_world old_file refl tt old_unique
