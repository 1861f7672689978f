-- ===== src/Warehouse/Loader/Failure.antt =====
-- A load under any failures of the driver, and what it leaves of the table.
use batch_api_snowflake.Base.{◌≡◌, refl, ◌⊎◌, inl, inr, ℕ, String, Bool, true, false, some}
use batch_api_snowflake.Base.{List, map, String-discrete, if◌then◌else◌, arith, Option-cases}
use batch_api_snowflake.Base.Dict.{lookup, insert}
use batch_api_snowflake.Errors.{Error, Result, ok, err}
use batch_api_snowflake.Exec.{Exec, pure, continue, recover, ◌>>=◌, ◌>>◌}
use batch_api_snowflake.Values.{Datetime}
use batch_api_snowflake.Client.{Server}
use batch_api_snowflake.Disk.{LandedRecord, parquet, read_file}
use batch_api_snowflake.Landing.{LandedBatch}
use batch_api_snowflake.Warehouse.Merge.{RawRow, select, merge}
use batch_api_snowflake.Warehouse.Session.{
  AuditRow, Tables, World, call, put, run_merge, put_effect, merge_effect,
}
use batch_api_snowflake.Warehouse.Session.{
  remove_staged, insert_audit, commit, rollback, set_tables, audit_effect, commit_effect,
  rollback_effect, remove_effect, merge_staged, next_fault, later_faults,
}
use batch_api_snowflake.Warehouse.Loader.{
  stage_key, put_and_merge, load_failed, load_batch, write_audit,
}
use batch_api_snowflake.Warehouse.Loader.Reload.{lookup-insert_self}

module _ (before after : List RawRow) (server : Server) where
  -- The committed table and the one that the session sees are each the old or the new one, and the
  -- API's server is the same.
  pub record IsWhole (w : World) : Type 0 where
    pub committed : (w.committed.raw ≡ before) ⊎ (w.committed.raw ≡ after)
    pub current : (w.current.raw ≡ before) ⊎ (w.current.raw ≡ after)
    pub same_server : w.server ≡ server

  abbrev Keeps : {A : Type 0} → Exec World A → Type 0
  Keeps m = (w : World) → IsWhole w → IsWhole (m w).1

  call-IsWhole :
      {A : Type 0} (effect : Exec World A) (w : World)
      → IsWhole w
      → IsWhole (effect (record w { faults = later_faults w.faults })).1
      → IsWhole (call effect w).1
  unfolding call
  call-IsWhole effect w v e = elim (Option-cases (next_fault w.faults)) [
    | inl none_yet ↦ rw (call, none_yet) e
    | inr (message, fails) ↦
        rw (call, fails)
          (record { committed = v.committed; current = v.current; same_server = v.same_server })
  ]

  insert_audit-IsWhole : (row : AuditRow) → Keeps (insert_audit row)
  unfolding insert_audit audit_effect set_tables
  insert_audit-IsWhole row w v = call-IsWhole (audit_effect row) w v (record {
    committed = ground (arith, v.committed, v.current);
    current = v.current;
    same_server = v.same_server;
  })

  commit-IsWhole : Keeps commit
  unfolding commit
  commit-IsWhole w v =
      call-IsWhole commit_effect w v
        (record { committed = v.current; current = v.current; same_server = v.same_server })

  rollback-IsWhole : Keeps rollback
  unfolding rollback
  rollback-IsWhole w v =
      call-IsWhole rollback_effect w v
        (record { committed = v.committed; current = v.committed; same_server = v.same_server })

  remove_staged-IsWhole : (key : String) → Keeps (remove_staged key)
  unfolding remove_staged remove_effect
  remove_staged-IsWhole key w v =
      call-IsWhole (remove_effect key) w v
        (record { committed = v.committed; current = v.current; same_server = v.same_server })

  continue-IsWhole :
      {A B : Type 0} (r : Result A) (f : A → Exec World B) (w : World)
      → IsWhole w
      → ((a : A) → Keeps (f a))
      → IsWhole (continue r f w).1
  continue-IsWhole (ok a) f w v k = k a w v
  continue-IsWhole (err e) f w v k = v

  recover-IsWhole :
      {A : Type 0} (r : Result A) (handler : Error → Exec World A) (w : World)
      → IsWhole w
      → ((e : Error) → Keeps (handler e))
      → IsWhole (recover r handler w).1
  recover-IsWhole (ok a) handler w v k = v
  recover-IsWhole (err e) handler w v k = k e w v

  bind-IsWhole :
      {A B : Type 0} (m : Exec World A) (f : A → Exec World B)
      → Keeps m
      → ((a : A) → Keeps (f a))
      → Keeps (m >>= f)
  bind-IsWhole m f km kf w v = continue-IsWhole (m w).0 f (m w).1 (km w v) kf

  write_audit-IsWhole : (row : AuditRow) → Keeps (write_audit row)
  unfolding write_audit
  write_audit-IsWhole row =
      bind-IsWhole (insert_audit row) (λ _. commit) (insert_audit-IsWhole row) (λ _. commit-IsWhole)

  load_failed-IsWhole :
      (b : LandedBatch) (run_id : String) (fetched rejected : ℕ) (started finished : Datetime)
      (e : Error)
      → Keeps (load_failed b run_id fetched rejected started finished e)
  unfolding load_failed
  load_failed-IsWhole b run_id fetched rejected started finished e =
      bind-IsWhole rollback _ rollback-IsWhole
        λ _. bind-IsWhole (write_audit _) _ (write_audit-IsWhole _) λ _ w v. v

  new_or_old :
      (b : Bool) (t : Tables) (audit : List AuditRow)
      → (t.raw ≡ before) ⊎ (t.raw ≡ after)
      → ((if b then record { raw = after; audit = audit } else t).raw ≡ before)
        ⊎ ((if b then record { raw = after; audit = audit } else t).raw ≡ after)
  new_or_old true t audit h = inr refl
  new_or_old false t audit h = h

  run_merge-IsWhole :
      (key : String) (records : List LandedRecord) (i u : ℕ) (w : World)
      → lookup String-discrete key w.stage ≡ some (parquet records)
      → w.current.raw ≡ before
      → merge before (map select records) ≡ ok (after, i, u)
      → IsWhole w
      → IsWhole (run_merge key w).1
  unfolding run_merge set_tables
  run_merge-IsWhole key records i u w found now merged v = call-IsWhole (merge_staged key) w v (
      rw (found, merge_effect, now, merged)
        (record {
          committed = new_or_old w.autocommit w.committed w.current.audit v.committed;
          current = inr refl;
          same_server = v.same_server;
        }))

  finish-IsWhole :
      {A : Type 0} (key : String) (a : A) → Keeps (do remove_staged key; commit; pure a)
  finish-IsWhole key a =
      bind-IsWhole (remove_staged key) (λ _. do commit; pure a) (remove_staged-IsWhole key)
        λ _. bind-IsWhole commit (λ _. pure a) commit-IsWhole λ _ w v. v

  put_and_merge-IsWhole :
      (b : LandedBatch) (records : List LandedRecord) (i u : ℕ) (w : World)
      → read_file b.path w.disk ≡ some (parquet records)
      → w.current.raw ≡ before
      → merge before (map select records) ≡ ok (after, i, u)
      → IsWhole w
      → IsWhole (put_and_merge b w).1
  unfolding put_and_merge put
  put_and_merge-IsWhole b records i u w found now merged v =
      elim (Option-cases (next_fault w.faults)) [
        | inr (message, fails) ↦
            rw (call, fails)
              (record { committed = v.committed; current = v.current; same_server = v.same_server })
        | inl none_yet ↦
            let stage = insert String-discrete (stage_key b) (parquet records) w.stage in
            let w' = record w { stage = stage; faults = later_faults w.faults } in
            rw (call, none_yet, found, put_effect)
              (continue-IsWhole (run_merge (stage_key b) w').0 _ (run_merge (stage_key b) w').1
                (run_merge-IsWhole (stage_key b) records i u w'
                  (lookup-insert_self (stage_key b) (parquet records) w.stage) now merged
                  (record {
                    committed = v.committed;
                    current = v.current;
                    same_server = v.same_server;
                  }))
                λ row. finish-IsWhole (stage_key b) _)
      ]

  pub load_batch-IsWhole :
      (b : LandedBatch) (run_id : String) (fetched rejected : ℕ) (started finished : Datetime)
      (records : List LandedRecord) (i u : ℕ) (w : World)
      → read_file b.path w.disk ≡ some (parquet records)
      → w.current.raw ≡ before
      → merge before (map select records) ≡ ok (after, i, u)
      → IsWhole w
      → IsWhole (load_batch b run_id fetched rejected started finished w).1
  unfolding load_batch
  load_batch-IsWhole b run_id fetched rejected started finished records i u w found now merged v =
      let tried = put_and_merge b w in
      let handler = load_failed b run_id fetched rejected started finished in
      let caught = recover tried.0 handler tried.1 in
      continue-IsWhole caught.0 _ caught.1
        (recover-IsWhole tried.0 handler tried.1
          (put_and_merge-IsWhole b records i u w found now merged v)
          (load_failed-IsWhole b run_id fetched rejected started finished))
        λ result. bind-IsWhole (write_audit _) (λ _. pure result) (write_audit-IsWhole _) λ _ w v. v

-- Whatever calls of the driver fail during a load, in either autocommit mode, the committed table
-- is afterwards the one before the load or the one that the whole batch is merged into.
pub load_batch-atomic :
    (b : LandedBatch) (run_id : String) (fetched rejected : ℕ) (started finished : Datetime)
    (records : List LandedRecord) (raw : List RawRow) (i u : ℕ) (w : World)
    → read_file b.path w.disk ≡ some (parquet records)
    → w.current.raw ≡ w.committed.raw
    → merge w.committed.raw (map select records) ≡ ok (raw, i, u)
    → let after = (load_batch b run_id fetched rejected started finished w).1 in
      (after.committed.raw ≡ w.committed.raw) ⊎ (after.committed.raw ≡ raw)
load_batch-atomic b run_id fetched rejected started finished records raw i u w found now merged =
    (load_batch-IsWhole w.committed.raw raw w.server b run_id fetched rejected started finished
      records i u w found now merged
      (record { committed = inl refl; current = inl now; same_server = refl })).committed
