-- ===== src/Warehouse/Loader/Returns.antt =====
-- What a load that returned has left.
use batch_api_snowflake.Base.{
  ◌≡◌, refl, ◌∙◌, ap, ℕ, String, Bool, true, none, some, ◌∷◌, any, Option, Option-cases, inl, inr,
}
use batch_api_snowflake.Errors.{Error, Result-cases}
use batch_api_snowflake.Exec.{Exec, Ensures, try_except, pure-Ensures, >>=-Ensures, recover-Ensures}
use batch_api_snowflake.Values.{Datetime}
use batch_api_snowflake.Disk.{File, FilePath, parquet, read_file}
use batch_api_snowflake.Landing.{LandedBatch}
use batch_api_snowflake.Base.{map, String-discrete}
use batch_api_snowflake.Base.Dict.{lookup}
use batch_api_snowflake.Warehouse.Merge.{select, merge}
use batch_api_snowflake.Warehouse.Session.{
  remove_effect, put_file, merge_staged, commit_effect, audit_effect, rollback, AuditRow, World,
  call, next_fault, later_faults, put, put_effect, run_merge, merge_effect, remove_staged,
  insert_audit, commit, set_tables,
}
use batch_api_snowflake.Warehouse.Loader.{
  LoadResult, audit_row, put_and_merge, load_failed, load_batch, is_load_of, stage_key, write_audit,
}
use batch_api_snowflake.Warehouse.Loader.Guard.{is_load_of-audit_row, or_true}

-- The second world comes after the first: every audit row is still seen, under the same server.
pub record IsAfter (w w' : World) : Type 0 where
  pub keeps : (q : AuditRow → Bool) → any q w.current.audit ≡ true → any q w'.current.audit ≡ true
  pub same_server : w'.server ≡ w.server

pub IsAfter-self : (w w' : World) → w'.current ≡ w.current → w'.server ≡ w.server → IsAfter w w'
IsAfter-self w w' same same_server = record { keeps = λ q h. rw same h; same_server = same_server }

pub IsAfter-trans : {w w' w'' : World} → IsAfter w w' → IsAfter w' w'' → IsAfter w w''
IsAfter-trans h k = record {
  keeps = λ q e. k.keeps q (h.keeps q e);
  same_server = k.same_server ∙ h.same_server;
}

-- A call that returned had its effect.
pub call-Ensures :
    {A : Type 0} (Q : A → World → Type 0) (effect : Exec World A) (w : World)
    → Ensures (effect (record w { faults = later_faults w.faults })) Q
    → Ensures (call effect w) Q
unfolding call
call-Ensures Q effect w h = elim (Option-cases (next_fault w.faults)) [
  | inl none_yet ↦ rw (call, none_yet) h
  | inr (message, fails) ↦ rw (call, fails) (λ a e. cc e)
]

put_effect-Ensures :
    (key : String) (found : Option File) (w : World)
    → Ensures (put_effect key found w) (λ done. IsAfter w)
unfolding put_effect
put_effect-Ensures key none w = λ a h. cc h
put_effect-Ensures key (some f) w = λ a h. IsAfter-self w _ refl refl

merge_effect-Ensures :
    (found : Option File) (w : World) → Ensures (merge_effect found w) (λ counts. IsAfter w)
unfolding merge_effect set_tables
merge_effect-Ensures none w = λ a h. cc h
merge_effect-Ensures (some (parquet records)) w =
    elim (Result-cases (merge w.current.raw (map select records))) [
      | inl ((raw, i, u), merged) ↦
          rw (merge_effect, merged) (λ a h. record { keeps = λ q e. e; same_server = refl })
      | inr (e, fails) ↦ rw (merge_effect, fails) (λ a h. cc h)
    ]
merge_effect-Ensures (some f) w = λ a h. cc h

-- A call whose effect comes after any world that it starts from.
pub step-Ensures :
    {A : Type 0} (effect : Exec World A) (w v : World)
    → ((u : World) → Ensures (effect u) (λ a. IsAfter u))
    → IsAfter w v
    → Ensures (call effect v) (λ a. IsAfter w)
step-Ensures effect w v own before =
    let u = record v { faults = later_faults v.faults } in
    call-Ensures (λ a. IsAfter w) effect v
      (λ a e. IsAfter-trans (IsAfter-trans before (IsAfter-self v u refl refl)) (own u a e))

-- The body of the `try`, if it returns.
abbrev Loaded : World → LoadResult → World → Type 0
Loaded w result w' = IsAfter w w' × (result.status ≡ "loaded")

module _ (w v : World) (before : IsAfter w v) where
  put-Ensures : (path : FilePath) (key : String) → Ensures (put path key v) (λ done. IsAfter w)
  unfolding put
  put-Ensures path key =
      step-Ensures (put_file path key) w v (λ u. put_effect-Ensures key (read_file path u.disk) u)
        before

  run_merge-Ensures : (key : String) → Ensures (run_merge key v) (λ counts. IsAfter w)
  unfolding run_merge
  run_merge-Ensures key =
      step-Ensures (merge_staged key) w v
        (λ u. merge_effect-Ensures (lookup String-discrete key u.stage) u) before

  remove_staged-Ensures : (key : String) → Ensures (remove_staged key v) (λ done. IsAfter w)
  unfolding remove_staged remove_effect
  remove_staged-Ensures key =
      step-Ensures (remove_effect key) w v (λ u a e. IsAfter-self u _ refl refl) before

  commit-Ensures : Ensures (commit v) (λ done. IsAfter w)
  unfolding commit
  commit-Ensures = step-Ensures commit_effect w v (λ u a e. IsAfter-self u _ refl refl) before

put_and_merge-Ensures : (b : LandedBatch) (w : World) → Ensures (put_and_merge b w) (Loaded w)
unfolding put_and_merge
put_and_merge-Ensures b w =
    let Q = Loaded w in
    let key = stage_key b in
    >>=-Ensures (λ a. IsAfter w) Q (put b.path key) _ w
      (put-Ensures w w (IsAfter-self w w refl refl) b.path key)
      (λ done v after.
        >>=-Ensures (λ a. IsAfter w) Q (run_merge key) _ v (run_merge-Ensures w v after key)
          (λ row v after.
            >>=-Ensures (λ a. IsAfter w) Q (remove_staged key) _ v
              (remove_staged-Ensures w v after key)
              (λ done v after.
                >>=-Ensures (λ a. IsAfter w) Q commit _ v (commit-Ensures w v after)
                  (λ done v after. pure-Ensures Q _ v (after, refl)))))

-- An audit row that was written and committed.
record IsRecorded (row : AuditRow) (w w' : World) : Type 0 where
  pub written : w'.current.audit ≡ row ∷ w.current.audit
  pub settled : w'.current ≡ w'.committed
  pub same_server : w'.server ≡ w.server

abbrev IsInserted : AuditRow → World → Unit {0} → World → Type 0
IsInserted row w done v = (v.current.audit ≡ row ∷ w.current.audit) × (v.server ≡ w.server)

abbrev IsCommitted : World → Unit {0} → World → Type 0
IsCommitted w done v = (v.current ≡ w.current) × (v.current ≡ v.committed) × (v.server ≡ w.server)

insert_audit-Ensures :
    (row : AuditRow) (w : World) → Ensures (insert_audit row w) (IsInserted row w)
unfolding insert_audit set_tables
insert_audit-Ensures row w =
    call-Ensures (IsInserted row w) (audit_effect row) w (λ a e. (refl, refl))

commit_all-Ensures : (w : World) → Ensures (commit w) (IsCommitted w)
unfolding commit
commit_all-Ensures w = call-Ensures (IsCommitted w) commit_effect w (λ a e. (refl, refl, refl))

write_audit-Ensures :
    (row : AuditRow) (w : World) → Ensures (write_audit row w) (λ done. IsRecorded row w)
unfolding write_audit
write_audit-Ensures row w =
    >>=-Ensures (IsInserted row w) (λ done. IsRecorded row w) (insert_audit row) (λ done. commit) w
      (insert_audit-Ensures row w)
      (λ done v inserted done' e.
        let (same, settled, same_server) = commit_all-Ensures v done' e in
        record {
          written = ap (λ t. t.audit) same ∙ inserted.0;
          settled = settled;
          same_server = same_server ∙ inserted.1;
        })

-- What a load of a batch that returned leaves: the rows of the audit with one more, of this batch,
-- committed.
pub record IsLoadOf (b : LandedBatch) (w w' : World) : Type 0 where
  pub after : IsAfter w w'
  pub settled : w'.current ≡ w'.committed
  pub marked : any (is_load_of b.city_id b.observation_date b.payload_hash) w'.current.audit ≡ true

-- Nothing holds of what code that raises returned.
abbrev Nothing : LoadResult → World → Type 0
Nothing l v = ⊥

load_failed-raises :
    (b : LandedBatch) (run_id : String) (fetched rejected : ℕ) (started finished : Datetime)
    (e : Error) (w : World)
    → Ensures (load_failed b run_id fetched rejected started finished e w) Nothing
unfolding load_failed
load_failed-raises b run_id fetched rejected started finished e w =
    >>=-Ensures (λ done v. Unit {0}) Nothing rollback _ w (λ a h. tt)
      (λ done v h.
        >>=-Ensures (λ done v. Unit {0}) Nothing
          (write_audit (audit_row b run_id fetched rejected 0 0 "failed" (some e) started finished))
          _ v (λ a h. tt) (λ done v h l e. cc e))

pub load_batch-Ensures :
    (b : LandedBatch) (run_id : String) (fetched rejected : ℕ) (started finished : Datetime)
    (w : World)
    → Ensures (load_batch b run_id fetched rejected started finished w) (λ l. IsLoadOf b w)
unfolding load_batch
load_batch-Ensures b run_id fetched rejected started finished w =
    >>=-Ensures (Loaded w) (λ l. IsLoadOf b w)
      (try_except (put_and_merge b) (load_failed b run_id fetched rejected started finished)) _ w
      (recover-Ensures (Loaded w) (put_and_merge b w).0 _ (put_and_merge b w).1
        (put_and_merge-Ensures b w)
        (λ e.
          load_failed-raises b run_id fetched rejected started finished e (put_and_merge b w).1))
      (λ result v tried.
        let row =
          audit_row b run_id fetched rejected result.rows_inserted result.rows_updated result.status
            none started finished in
        let loaded : is_load_of b.city_id b.observation_date b.payload_hash row ≡ true =
          rw tried.1 (
            is_load_of-audit_row b run_id fetched rejected result.rows_inserted result.rows_updated
              none started finished) in
        >>=-Ensures (λ done. IsRecorded row v) (λ l. IsLoadOf b w) (write_audit row) _ v
          (write_audit-Ensures row v)
          (λ done v' recorded.
            pure-Ensures (λ l. IsLoadOf b w) result v'
              (record {
                after = IsAfter-trans tried.0 (record {
                  keeps = λ q h. rw (recorded.written, h) (or_true (q row));
                  same_server = recorded.same_server;
                });
                settled = recorded.settled;
                marked = rw (recorded.written, loaded) refl;
              })))
