-- ===== src/Warehouse/Loader/Stable.antt =====
-- What a load keeps, if each effect of the driver does.
use batch_api_snowflake.Base.{
  ℕ, String, Option, none, some, Option-cases, inl, inr, String-discrete,
}
use batch_api_snowflake.Base.Dict.{lookup}
use batch_api_snowflake.Errors.{Error}
use batch_api_snowflake.Exec.{
  Exec, raise, pure, try_except, Preserves, >>=-Preserves, try_except-Preserves,
}
use batch_api_snowflake.Values.{Datetime}
use batch_api_snowflake.Disk.{File, FilePath, read_file}
use batch_api_snowflake.Landing.{LandedBatch}
use batch_api_snowflake.Base.{List}
use batch_api_snowflake.Warehouse.Session.{
  AuditRow, World, call, next_fault, later_faults, put, put_effect, put_file, run_merge,
  merge_effect, merge_staged, remove_staged, remove_effect, insert_audit, audit_effect, commit,
  commit_effect, rollback, rollback_effect,
}
use batch_api_snowflake.Warehouse.Loader.{
  put_and_merge, load_failed, load_batch, write_audit, stage_key, audit_row,
}

-- A failing call of the driver, and each effect of one, keeps what holds of the world.
pub record IsStable (P : World → Type 0) : Type 0 where
  pub later : (w : World) (faults : List (Option String)) → P w → P (record w { faults = faults })
  pub put : (key : String) (f : Option File) → Preserves P (put_effect key f)
  pub merge : (f : Option File) → Preserves P (merge_effect f)
  pub remove : (key : String) → Preserves P (remove_effect key)
  pub insert : (row : AuditRow) → Preserves P (audit_effect row)
  pub commit : Preserves P commit_effect
  pub rollback : Preserves P rollback_effect

module _ (P : World → Type 0) (stable : IsStable P) where
  pub call-Preserves :
      {A : Type 0} (effect : Exec World A) → Preserves P effect → Preserves P (call effect)
  unfolding call
  call-Preserves effect own w h = elim (Option-cases (next_fault w.faults)) [
    | inl none_yet ↦
        rw (call, none_yet)
          (own (record w { faults = later_faults w.faults })
            (stable.later w (later_faults w.faults) h))
    | inr (message, fails) ↦ rw (call, fails) (stable.later w (later_faults w.faults) h)
  ]

  put-Preserves : (path : FilePath) (key : String) → Preserves P (put path key)
  unfolding put
  put-Preserves path key =
      call-Preserves (put_file path key) (λ w. stable.put key (read_file path w.disk) w)

  run_merge-Preserves : (key : String) → Preserves P (run_merge key)
  unfolding run_merge
  run_merge-Preserves key =
      call-Preserves (merge_staged key) (λ w. stable.merge (lookup String-discrete key w.stage) w)

  remove_staged-Preserves : (key : String) → Preserves P (remove_staged key)
  unfolding remove_staged
  remove_staged-Preserves key = call-Preserves (remove_effect key) (stable.remove key)

  commit-Preserves : Preserves P commit
  unfolding commit
  commit-Preserves = call-Preserves commit_effect stable.commit

  rollback-Preserves : Preserves P rollback
  unfolding rollback
  rollback-Preserves = call-Preserves rollback_effect stable.rollback

  insert_audit-Preserves : (row : AuditRow) → Preserves P (insert_audit row)
  unfolding insert_audit
  insert_audit-Preserves row = call-Preserves (audit_effect row) (stable.insert row)

  write_audit-Preserves : (row : AuditRow) → Preserves P (write_audit row)
  unfolding write_audit
  write_audit-Preserves row =
      >>=-Preserves P (insert_audit row) (λ done. commit) (insert_audit-Preserves row)
        (λ done. commit-Preserves)

  put_and_merge-Preserves : (b : LandedBatch) → Preserves P (put_and_merge b)
  unfolding put_and_merge
  put_and_merge-Preserves b =
      let key = stage_key b in
      >>=-Preserves P (put b.path key) _ (put-Preserves b.path key) (λ done.
        >>=-Preserves P (run_merge key) _ (run_merge-Preserves key) (λ row.
          >>=-Preserves P (remove_staged key) _ (remove_staged-Preserves key)
            (λ done. >>=-Preserves P commit _ commit-Preserves (λ done w h. h))))

  module _ (b : LandedBatch) (run_id : String) (fetched rejected : ℕ)
      (started finished : Datetime) where
    load_failed-Preserves :
        (e : Error) → Preserves P (load_failed b run_id fetched rejected started finished e)
    unfolding load_failed
    load_failed-Preserves e =
        let row = audit_row b run_id fetched rejected 0 0 "failed" (some e) started finished in
        >>=-Preserves P rollback _ rollback-Preserves (λ done.
          >>=-Preserves P (write_audit row) (λ done. raise e) (write_audit-Preserves row)
            (λ done w h. h))

    -- A load, whatever fails in it.
    pub load_batch-Preserves : Preserves P (load_batch b run_id fetched rejected started finished)
    unfolding load_batch
    load_batch-Preserves =
        >>=-Preserves P
          (try_except (put_and_merge b) (load_failed b run_id fetched rejected started finished)) _
          (try_except-Preserves P (put_and_merge b) _ (put_and_merge-Preserves b)
            load_failed-Preserves)
          (λ result.
            let row =
              audit_row b run_id fetched rejected result.rows_inserted result.rows_updated
                result.status none started finished in
            >>=-Preserves P (write_audit row) (λ done. pure result) (write_audit-Preserves row)
              (λ done w h. h))
