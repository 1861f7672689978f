-- ===== src/Warehouse/Loader/Kept.antt =====
-- The audit never loses a row.
use batch_api_snowflake.Base.{
  ◌≡◌, String, Bool, true, Option, none, some, ◌∷◌, map, any, inl, inr, Bool-cases,
}
use batch_api_snowflake.Errors.{Result-cases}
use batch_api_snowflake.Exec.{Preserves}
use batch_api_snowflake.Disk.{File, parquet}
use batch_api_snowflake.Base.{List}
use batch_api_snowflake.Warehouse.Merge.{RawRow, merge, select}
use batch_api_snowflake.Warehouse.Session.{
  AuditRow, World, put_effect, merge_effect, remove_effect, audit_effect, select_audit,
  select_effect, set_tables,
}
use batch_api_snowflake.Warehouse.Loader.Guard.{or_true}
use batch_api_snowflake.Warehouse.Loader.Stable.{IsStable, call-Preserves}

-- A row of the audit passes the test, as it is committed and as the session sees it.
pub record Has (q : AuditRow → Bool) (w : World) : Type 0 where
  pub committed : any q w.committed.audit ≡ true
  pub current : any q w.current.audit ≡ true

module _ (q : AuditRow → Bool) where
  set_tables-Has :
      (w : World) (raw : List RawRow) (audit : List AuditRow)
      → Has q w
      → any q audit ≡ true
      → Has q (set_tables (record { raw = raw; audit = audit }) w)
  unfolding set_tables
  set_tables-Has w raw audit h seen = elim (Bool-cases w.autocommit) [
    | inl auto ↦ rw (set_tables, auto) (record { committed = seen; current = seen })
    | inr manual ↦ rw (set_tables, manual) (record { committed = h.committed; current = seen })
  ]

  put_effect-Has :
      (key : String) (f : Option File) (w : World) → Has q w → Has q (put_effect key f w).1
  unfolding put_effect
  put_effect-Has key none w h = h
  put_effect-Has key (some f) w h = record { committed = h.committed; current = h.current }

  merge_effect-Has : (f : Option File) (w : World) → Has q w → Has q (merge_effect f w).1
  unfolding merge_effect
  merge_effect-Has none w h = h
  merge_effect-Has (some (parquet records)) w h =
      elim (Result-cases (merge w.current.raw (map select records))) [
        | inl ((raw, i, u), merged) ↦
            rw (merge_effect, merged) (set_tables-Has w raw w.current.audit h h.current)
        | inr (e, fails) ↦ rw (merge_effect, fails) h
      ]
  merge_effect-Has (some f) w h = h

  pub Has-IsStable : IsStable (Has q)
  unfolding remove_effect audit_effect
  Has-IsStable = record {
    later = λ w faults h. record { committed = h.committed; current = h.current };
    put = put_effect-Has;
    merge = merge_effect-Has;
    remove = λ key w h. record { committed = h.committed; current = h.current };
    insert = λ row w h.
        set_tables-Has w w.current.raw (row ∷ w.current.audit) h (rw h.current (or_true (q row)));
    commit = λ w h. record { committed = h.current; current = h.current };
    rollback = λ w h. record { committed = h.committed; current = h.committed };
  }

  pub select_audit-Has : Preserves (Has q) select_audit
  unfolding select_audit
  select_audit-Has =
      call-Preserves (Has q) Has-IsStable select_effect
        (λ w h. record { committed = h.committed; current = h.current })
