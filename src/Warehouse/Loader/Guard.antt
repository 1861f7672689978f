-- ===== src/Warehouse/Loader/Guard.antt =====
-- `already_loaded`, the guard that lets a run skip a partition whose payload it has loaded before.
use batch_api_snowflake.Base.{
  ◌≡◌, refl, ap, ℕ, String, Bool, true, false, ◌&&◌, ◌||◌, ◌==◌, Option, none, some, List,
}
use batch_api_snowflake.Base.{map, any, str_eq, eqb_refl, String-discrete, arith}
use batch_api_snowflake.Errors.{Error, ok}
use batch_api_snowflake.Values.{Datetime}
use batch_api_snowflake.Calendar.{Date}
use batch_api_snowflake.Disk.{LandedRecord, parquet, read_file}
use batch_api_snowflake.Landing.{LandedBatch}
use batch_api_snowflake.Warehouse.Merge.{RawRow, select, merge}
use batch_api_snowflake.Warehouse.Session.{World, calm}
use batch_api_snowflake.Warehouse.Loader.{load_batch, audit_row, is_load_of, already_loaded}
use batch_api_snowflake.Warehouse.Loader.Reload.{load_batch-loaded, after_load}

and_true : (a b c : Bool) → (a && b && c && true) ≡ (a && b && c)
and_true a b c = ground arith

-- Every load of a batch that meets no failure turns the guard on for its own payload, and leaves
-- it on for every payload it was on for, of the same partition too.
pub already_loaded-load_batch :
    (city_id : String) (day : Date) (hash : String) (b : LandedBatch) (run_id : String)
    (fetched rejected : ℕ) (started finished : Datetime) (records : List LandedRecord)
    (raw : List RawRow) (i u : ℕ) (w : World)
    → read_file b.path w.disk ≡ some (parquet records)
    → merge w.current.raw (map select records) ≡ ok (raw, i, u)
    → (already_loaded city_id day hash
        (load_batch b run_id fetched rejected started finished (calm w)).1).0
      ≡ ok (
          (str_eq b.city_id city_id && (b.observation_date == day) && str_eq b.payload_hash hash)
          || any (is_load_of city_id day hash) w.current.audit)
unfolding already_loaded is_load_of String-discrete
already_loaded-load_batch city_id day hash b run_id fetched rejected started finished records raw i
      u w found merged =
    rw (load_batch-loaded b run_id fetched rejected started finished records raw i u w found merged)
      (ap (λ x. ok (x || any (is_load_of city_id day hash) w.current.audit))
        (and_true (str_eq b.city_id city_id) (b.observation_date == day)
          (str_eq b.payload_hash hash)))

==_refl : (n : ℕ) → (n == n) ≡ true
==_refl n = ground arith

pub is_load_of-audit_row :
    (b : LandedBatch) (run_id : String) (fetched rejected i u : ℕ) (message : Option Error)
    (started finished : Datetime)
    → is_load_of b.city_id b.observation_date b.payload_hash
        (audit_row b run_id fetched rejected i u "loaded" message started finished)
      ≡ true
unfolding is_load_of String-discrete
is_load_of-audit_row b run_id fetched rejected i u message started finished =
    rw
      (
        eqb_refl String-discrete b.city_id,
        eqb_refl String-discrete b.payload_hash,
        ==_refl b.observation_date,
      )
      refl

pub or_true : (b : Bool) → (b || true) ≡ true
or_true true = refl
or_true false = refl

-- A partition that is loaded with one payload, and then with another: the guard is on for the first
-- payload again, though the table is what the MERGE of the second made of it. A producer's return
-- to the first payload is then skipped.
pub already_loaded-reverted :
    (a b : LandedBatch) (run_id run_id' : String) (fetched rejected : ℕ)
    (started finished : Datetime) (first second : List LandedRecord) (raw raw' : List RawRow)
    (i u i' u' : ℕ) (w : World)
    → read_file a.path w.disk ≡ some (parquet first)
    → read_file b.path w.disk ≡ some (parquet second)
    → merge w.current.raw (map select first) ≡ ok (raw, i, u)
    → merge raw (map select second) ≡ ok (raw', i', u')
    → let loaded_a = (load_batch a run_id fetched rejected started finished (calm w)).1 in
      let loaded_b = (load_batch b run_id' fetched rejected started finished loaded_a).1 in
      (loaded_b.committed.raw ≡ raw')
      × ((already_loaded a.city_id a.observation_date a.payload_hash loaded_b).0 ≡ ok true)
already_loaded-reverted a b run_id run_id' fetched rejected started finished first second raw raw' i
      u i' u' w fa fb ma mb =
    let row_a = audit_row a run_id fetched rejected i u "loaded" none started finished in
    let first_w = after_load a (parquet first) raw row_a (calm w) in
    rw (load_batch-loaded a run_id fetched rejected started finished first raw i u w fa ma) (
      rw
          (load_batch-loaded b run_id' fetched rejected started finished second raw' i' u' first_w
            fb mb)
          refl,
      rw
          (
            already_loaded-load_batch a.city_id a.observation_date a.payload_hash b run_id' fetched
                rejected started finished second raw' i' u' first_w fb mb,
            is_load_of-audit_row a run_id fetched rejected i u none started finished,
          )
          (ap ok (or_true _)),
    )
