-- ===== src/Warehouse/Loader/Clean.antt =====
-- The table between loads: unique keys, with nothing pending, whatever calls of the driver fail.
use batch_api_snowflake.Base.{
  ◌≡◌, refl, subst, sym, inl, inr, ℕ, String, some, List, map, Option-cases,
}
use batch_api_snowflake.Warehouse.Merge.{RawRow}
use batch_api_snowflake.Base.{
  [], ◌∷◌, sym, ◌∙◌, All, All-map, Bool-cases, ◌≢◌, none, Option, some, arith,
}
use batch_api_snowflake.Errors.{Result, ok, err}
use batch_api_snowflake.Exec.{Exec, pure, continue, recover}
use batch_api_snowflake.Values.{Datetime}
use batch_api_snowflake.Client.{Server}
use batch_api_snowflake.Disk.{LandedRecord, parquet, read_file}
use batch_api_snowflake.Landing.{LandedBatch}
use batch_api_snowflake.Warehouse.Merge.{select}
use batch_api_snowflake.Warehouse.Merge.Keys.{
  Key, HasUniqueKeys, find, key, is_key, is_key_self, upsert,
}
use batch_api_snowflake.Warehouse.Merge.Refinement.{merge-upsert}
use batch_api_snowflake.Warehouse.Session.{World, call, commit, insert_audit, next_fault}
use batch_api_snowflake.Warehouse.Loader.{
  load_batch, load_failed, put_and_merge, write_audit, LoadResult,
}
use batch_api_snowflake.Warehouse.Loader.Failure.{load_batch-IsWhole}

-- The key of every row of the first table is in the second.
abbrev pub Covers : List RawRow → List RawRow → Type 0
Covers before after = All (λ r. find (key r) after ≢ none) before

Covers-cons :
    (r s : RawRow) (rows : List RawRow) → find (key s) rows ≢ none → find (key s) (r ∷ rows) ≢ none
unfolding find
Covers-cons r s rows h = elim (Bool-cases (is_key (key s) r)) [
  | inl here ↦ rw here (λ e. cc e)
  | inr later ↦ rw later h
]

pub Covers-self : (rows : List RawRow) → Covers rows rows
unfolding find
Covers-self [] = tt
Covers-self (r ∷ rows) = (
  rw (is_key_self r) (λ e. cc e),
  All-map _ _ (λ s h. Covers-cons r s rows h) rows (Covers-self rows),
)

upsert-some : (old new : Option RawRow) → old ≢ none → upsert old new ≢ none
upsert-some none new h = absurd (h refl)
upsert-some (some t) none h = λ e. cc e
upsert-some (some t) (some s) h = ground arith

-- An upsert gives up no key.
Covers-upserted :
    (old new out : List RawRow)
    → ((k : Key) → find k out ≡ upsert (find k old) (find k new))
    → (before : List RawRow) → Covers before old
    → Covers before out
Covers-upserted old new out finds [] h = tt
Covers-upserted old new out finds (r ∷ before) (h, hs) = (
  λ e. upsert-some (find (key r) old) (find (key r) new) h (sym (finds (key r)) ∙ e),
  Covers-upserted old new out finds before hs,
)

-- What a task may rely on: the keys of the committed table are unique, and nothing is pending.
pub record IsClean (before : List RawRow) (server : Server) (w : World) : Type 0 where
  pub unique : HasUniqueKeys w.committed.raw
  pub settled : w.current.raw ≡ w.committed.raw
  pub same_server : w.server ≡ server
  pub covers : Covers before w.committed.raw

-- What a task leaves: unique keys in any case, and nothing pending if it returned.
pub record IsKept (before : List RawRow) (server : Server) {A : Type 0} (result : Result A)
    (w : World) : Type 0 where
  pub unique : HasUniqueKeys w.committed.raw
  pub settled : (a : A) → result ≡ ok a → w.current.raw ≡ w.committed.raw
  pub same_server : w.server ≡ server
  pub covers : Covers before w.committed.raw

module _ (before : List RawRow) (server : Server) where
  pub continue-IsKept :
      {A B : Type 0} (r : Result A) (f : A → Exec World B) (w : World)
      → IsKept before server r w
      → ((a : A) (v : World) → IsClean before server v → IsKept before server (f a v).0 (f a v).1)
      → IsKept before server (continue r f w).0 (continue r f w).1
  continue-IsKept (ok a) f w v k = k a w (record {
    unique = v.unique;
    settled = v.settled a refl;
    same_server = v.same_server;
    covers = v.covers;
  })
  continue-IsKept (err e) f w v k = record {
    unique = v.unique;
    settled = λ b h. cc h;
    same_server = v.same_server;
    covers = v.covers;
  }

  pub returned-IsKept :
      {A : Type 0} (r : Result A) (w : World) → IsClean before server w → IsKept before server r w
  returned-IsKept r w v = record {
    unique = v.unique;
    settled = λ a h. v.settled;
    same_server = v.same_server;
    covers = v.covers;
  }

-- A commit that returns leaves nothing pending.
commit-settled :
    (w : World) (t : Unit {0})
    → (commit w).0 ≡ ok t
    → (commit w).1.current.raw ≡ (commit w).1.committed.raw
unfolding commit
commit-settled w t returned = elim (Option-cases (next_fault w.faults)) [
  | inl none_yet ↦ rw (call, none_yet) refl
  | inr (message, fails) ↦ cc (rw (call, fails) at returned)
]

continued-settled :
    {A : Type 0} (r : Result A) (f : A → Exec World LoadResult) (w : World) (l : LoadResult)
    → ((a : A) (v : World) → (f a v).0 ≡ ok l → (f a v).1.current.raw ≡ (f a v).1.committed.raw)
    → (continue r f w).0 ≡ ok l
    → (continue r f w).1.current.raw ≡ (continue r f w).1.committed.raw
continued-settled (ok a) f w l k h = k a w h
continued-settled (err e) f w l k h = cc h

returned-settled :
    (r : Result (Unit {0})) (w : World) (a l : LoadResult)
    → ((t : Unit {0}) → r ≡ ok t → w.current.raw ≡ w.committed.raw)
    → (continue r (λ _. pure a) w).0 ≡ ok l
    → (continue r (λ _. pure a) w).1.current.raw ≡ (continue r (λ _. pure a) w).1.committed.raw
returned-settled (ok t) w a l k h = k t refl
returned-settled (err e) w a l k h = cc h

audited-settled :
    (r : Result (Unit {0})) (w : World) (a l : LoadResult)
    → let m = continue r (λ _. commit) w in
      (continue m.0 (λ _. pure a) m.1).0 ≡ ok l
      → (continue m.0 (λ _. pure a) m.1).1.current.raw
        ≡ (continue m.0 (λ _. pure a) m.1).1.committed.raw
audited-settled (ok t) w a l h = returned-settled (commit w).0 (commit w).1 a l (commit-settled w) h
audited-settled (err e) w a l h = cc h

load_batch-settled :
    (b : LandedBatch) (run_id : String) (fetched rejected : ℕ) (started finished : Datetime)
    (w : World) (l : LoadResult)
    → (load_batch b run_id fetched rejected started finished w).0 ≡ ok l
    → let after = (load_batch b run_id fetched rejected started finished w).1 in
      after.current.raw ≡ after.committed.raw
unfolding load_batch write_audit
load_batch-settled b run_id fetched rejected started finished w l h =
    let tried = put_and_merge b w in
    let handler = load_failed b run_id fetched rejected started finished in
    let caught = recover tried.0 handler tried.1 in
    continued-settled caught.0 _ caught.1 l
      (λ a v k. audited-settled (insert_audit _ v).0 (insert_audit _ v).1 a l k) h

-- A load of a file with unique keys keeps the table clean, whatever fails.
pub load_batch-IsKept :
    (before : List RawRow) (server : Server) (b : LandedBatch) (run_id : String)
    (fetched rejected : ℕ) (started finished : Datetime) (records : List LandedRecord) (w : World)
    → IsClean before server w
    → read_file b.path w.disk ≡ some (parquet records)
    → HasUniqueKeys (map select records)
    → let (r, w') = load_batch b run_id fetched rejected started finished w in
      IsKept before server r w'
load_batch-IsKept before server b run_id fetched rejected started finished records w v found
      new_unique =
    let (out, i, u, merged, kept, finds, grows) =
      merge-upsert w.committed.raw (map select records) v.unique new_unique in
    let whole =
      load_batch-IsWhole w.committed.raw out server b run_id fetched rejected started finished
        records i u w found v.settled merged
        (record { committed = inl refl; current = inl v.settled; same_server = v.same_server }) in
    record {
      unique = elim whole.committed [
        | inl same ↦ subst HasUniqueKeys (sym same) v.unique
        | inr changed ↦ subst HasUniqueKeys (sym changed) kept
      ];
      settled = load_batch-settled b run_id fetched rejected started finished w;
      same_server = whole.same_server;
      covers = elim whole.committed [
        | inl same ↦ subst (Covers before) (sym same) v.covers
        | inr changed ↦
            subst (Covers before) (sym changed)
              (Covers-upserted w.committed.raw (map select records) out finds before v.covers)
      ];
    }
