-- ===== src/Warehouse/Loader/Audit.antt =====
-- The trace that a failed load leaves.
use batch_api_snowflake.Base.{
  ◌≡◌, refl, ℕ, String, Bool, false, some, [], ◌∷◌, any, ne_of_literals, arith,
}
use batch_api_snowflake.Base.{◌&&◌}
use batch_api_snowflake.Errors.{Error, err}
use batch_api_snowflake.Values.{Datetime}
use batch_api_snowflake.Calendar.{Date}
use batch_api_snowflake.Landing.{LandedBatch}
use batch_api_snowflake.Warehouse.Session.{AuditRow, World, later_faults, next_fault, set_tables}
use batch_api_snowflake.Warehouse.Loader.{audit_row, put_and_merge, load_batch, is_load_of}

-- The row that a failed load writes.
abbrev pub failed_row : LandedBatch → String → ℕ → ℕ → Datetime → Datetime → Error → AuditRow
failed_row b run_id fetched rejected started finished e =
    audit_row b run_id fetched rejected 0 0 "failed" (some e) started finished

and_false : (b c : Bool) → (b && c && false) ≡ false
and_false b c = ground arith

failed-is_load_of :
    (city_id : String) (day : Date) (hash : String) (row : AuditRow)
    → row.status ≡ "failed"
    → is_load_of city_id day hash row ≡ false
unfolding is_load_of
failed-is_load_of city_id day hash row e =
    rw e (ground (arith, ne_of_literals "failed" "loaded" refl))

-- A load whose PUT, MERGE, REMOVE or commit raises, and whose driver works from then on, raises the
-- same exception again. The table is what was committed, with nothing pending, one audit row with
-- the exception is committed in front of the others, and the guard of no payload is turned on.
pub load_batch-failed :
    (b : LandedBatch) (run_id : String) (fetched rejected : ℕ) (started finished : Datetime)
    (e : Error) (w w' : World) (city_id : String) (day : Date) (hash : String)
    → put_and_merge b w ≡ (err e, w')
    → w'.faults ≡ []
    → let row = failed_row b run_id fetched rejected started finished e in
      let (result, after) = load_batch b run_id fetched rejected started finished w in
      (result ≡ err e)
      × (after.committed.raw ≡ w'.committed.raw)
      × (after.current.raw ≡ w'.committed.raw)
      × (after.committed.audit ≡ row ∷ w'.committed.audit)
      × (any (is_load_of city_id day hash) after.committed.audit
          ≡ any (is_load_of city_id day hash) w'.committed.audit)
unfolding load_batch next_fault later_faults set_tables
load_batch-failed b run_id fetched rejected started finished e w w' city_id day hash failed
      calm_again =
    rw (failed, calm_again)
      (
        refl,
        refl,
        refl,
        refl,
        rw
            (failed-is_load_of city_id day hash
              (failed_row b run_id fetched rejected started finished e) refl)
            refl,
      )
