-- ===== src/Warehouse/Merge/Idempotent.antt =====
-- A second MERGE of the same batch changes nothing.
use batch_api_snowflake.Base.{◌≡◌, refl, ap, sym, ℕ, String, Bool, true, ◌||◌}
use batch_api_snowflake.Base.{List, [], ◌∷◌, ◌++◌, length, any, All, eqb_refl, String-discrete}
use batch_api_snowflake.Base.{arith, append-nil, any-append, All-append, All-keep, All-map}
use batch_api_snowflake.Errors.{ok, >>=-eq-ok, ok-injective}
use batch_api_snowflake.Warehouse.Merge.{
  RawRow, ℤ-discrete, same_key, restatements, updated, apply_updates,
}
use batch_api_snowflake.Warehouse.Merge.{update_rows, insertions, merge}

-- All rows of a batch carry the hash of the payload that they came from.
abbrev pub HasHash : String → List RawRow → Type 0
HasHash h rows = All (λ r. r.source_payload_hash ≡ h) rows

-- No source row restates the row.
abbrev IsSettled : List RawRow → RawRow → Type 0
IsSettled src r = restatements src r ≡ []

pub same_key_refl : (r : RawRow) → same_key r r ≡ true
unfolding same_key
same_key_refl r = rw (eqb_refl String-discrete r.city_id, eqb_refl ℤ-discrete r.observed_at_utc)

-- A row with the hash of the batch is settled.
hash-IsSettled :
    (h : String) (src : List RawRow) (r : RawRow)
    → HasHash h src
    → r.source_payload_hash ≡ h
    → IsSettled src r
unfolding restatements
hash-IsSettled h [] r hs e = refl
hash-IsSettled h (s ∷ src) r (e', hs) e = ground (arith, hash-IsSettled h src r hs e)

apply_updates-IsSettled :
    (h : String) (src : List RawRow) (t : RawRow) (found : List RawRow) (out : RawRow × ℕ)
    → HasHash h src
    → HasHash h found
    → restatements src t ≡ found
    → apply_updates t found ≡ ok out
    → IsSettled src out.0
unfolding apply_updates updated
apply_updates-IsSettled h src t [] out hs hf e k =
    rw (← ap (λ (o : RawRow × ℕ). o.0) (ok-injective k)) e
apply_updates-IsSettled h src t (s ∷ []) out hs (hf, _) e k =
    rw (← ap (λ (o : RawRow × ℕ). o.0) (ok-injective k)) (hash-IsSettled h src _ hs hf)
apply_updates-IsSettled h src t (s ∷ s' ∷ more) out hs hf e k = cc

restatements-HasHash :
    (h : String) (src : List RawRow) (t : RawRow) → HasHash h src → HasHash h (restatements src t)
unfolding restatements
restatements-HasHash h src t hs = All-keep (λ r. r.source_payload_hash ≡ h) _ src hs

update_rows-IsSettled :
    (h : String) (src tgt : List RawRow) (out : List RawRow × ℕ)
    → HasHash h src
    → update_rows src tgt ≡ ok out
    → All (IsSettled src) out.0
unfolding update_rows
update_rows-IsSettled h src [] out hs k =
    rw (← ap (λ (o : List RawRow × ℕ). o.0) (ok-injective k)) tt
update_rows-IsSettled h src (t ∷ tgt) out hs k =
    let (row, e1, k1) = >>=-eq-ok (apply_updates t (restatements src t)) _ k in
    let (rest, e2, k2) = >>=-eq-ok (update_rows src tgt) _ k1 in
    rw (← ap (λ (o : List RawRow × ℕ). o.0) (ok-injective k2)) (
      apply_updates-IsSettled h src t (restatements src t) row hs (restatements-HasHash h src t hs)
          refl e1,
      update_rows-IsSettled h src tgt rest hs e2,
    )

settled-update_rows :
    (src rows : List RawRow) → All (IsSettled src) rows → update_rows src rows ≡ ok (rows, 0)
unfolding update_rows
settled-update_rows src [] h = refl
settled-update_rows src (r ∷ rows) (h, hs) = rw (h, settled-update_rows src rows hs)

-- Updating leaves every key where it was.
apply_updates-same_key :
    (t s : RawRow) (found : List RawRow) (out : RawRow × ℕ)
    → apply_updates t found ≡ ok out
    → same_key out.0 s ≡ same_key t s
unfolding apply_updates updated same_key
apply_updates-same_key t s [] out k = rw (← ok-injective k)
apply_updates-same_key t s (f ∷ []) out k = rw (← ok-injective k)
apply_updates-same_key t s (f ∷ f' ∷ more) out k = cc

pub any-update_rows :
    (src tgt : List RawRow) (s : RawRow) (out : List RawRow × ℕ)
    → update_rows src tgt ≡ ok out
    → any (λ t. same_key t s) out.0 ≡ any (λ t. same_key t s) tgt
unfolding update_rows
any-update_rows src [] s out k = rw (← ok-injective k)
any-update_rows src (t ∷ tgt) s out k =
    let (row, e1, k1) = >>=-eq-ok (apply_updates t (restatements src t)) _ k in
    let (rest, e2, k2) = >>=-eq-ok (update_rows src tgt) _ k1 in
    rw (← ok-injective k2) (
      rw
        (apply_updates-same_key t s (restatements src t) row e1, any-update_rows src tgt s rest e2))

insertions-HasHash :
    (h : String) (tgt src : List RawRow) → HasHash h src → HasHash h (insertions tgt src)
unfolding insertions
insertions-HasHash h tgt src hs = All-keep (λ r. r.source_payload_hash ≡ h) _ src hs

hash-All-IsSettled :
    (h : String) (src rows : List RawRow)
    → HasHash h src
    → HasHash h rows
    → All (IsSettled src) rows
hash-All-IsSettled h src [] hs k = tt
hash-All-IsSettled h src (r ∷ rows) hs (e, k) =
    (hash-IsSettled h src r hs e, hash-All-IsSettled h src rows hs k)

-- A table has a row with the key of `s`.
abbrev pub has_key : List RawRow → RawRow → Bool
has_key rows s = any (λ t. same_key t s) rows

-- Every source row has its key in the target, or among the insertions.
pub insertions-cover :
    (tgt src : List RawRow)
    → All (λ s. (has_key tgt s || has_key (insertions tgt src) s) ≡ true) src
unfolding insertions
insertions-cover tgt [] = tt
insertions-cover tgt (x ∷ xs) = (
  ground (arith, same_key_refl x),
  All-map (λ s. (has_key tgt s || has_key (insertions tgt xs) s) ≡ true) _
      (λ s h. ground (arith, h)) xs (insertions-cover tgt xs),
)

covered-insertions :
    (tgt src : List RawRow) → All (λ s. has_key tgt s ≡ true) src → insertions tgt src ≡ []
unfolding insertions
covered-insertions tgt [] h = refl
covered-insertions tgt (s ∷ src) (h, hs) = rw h (covered-insertions tgt src hs)

-- What is true of a MERGE that succeeded: the table is the updated rows and the insertions.
pub merge-parts :
    (tgt src : List RawRow) {out : List RawRow × ℕ × ℕ}
    → merge tgt src ≡ ok out
    → (kept : List RawRow × ℕ) × (update_rows src tgt ≡ ok kept)
      × (out ≡ (kept.0 ++ insertions tgt src, length (insertions tgt src), kept.1))
unfolding merge
merge-parts tgt src k =
    let (kept, e, k') = >>=-eq-ok (update_rows src tgt) _ k in (kept, e, sym (ok-injective k'))

-- After a MERGE every row of the batch has its key in the table.
pub merge-covers :
    (tgt src : List RawRow) (out : List RawRow × ℕ × ℕ)
    → merge tgt src ≡ ok out
    → All (λ s. has_key out.0 s ≡ true) src
merge-covers tgt src out k =
    let (kept, e, same) = merge-parts tgt src k in
    rw same (
      All-map _ (λ s. has_key (kept.0 ++ insertions tgt src) s ≡ true)
        (λ s h. rw (any-append (λ t. same_key t s) kept.0, any-update_rows src tgt s kept e) h) src
        (insertions-cover tgt src))

-- A MERGE of a batch whose rows carry one payload hash is idempotent: if it succeeds, then a second
-- MERGE of the same batch succeeds, inserts nothing, updates nothing and leaves the table as it is.
pub merge-idempotent :
    (h : String) (tgt src : List RawRow) (out : List RawRow × ℕ × ℕ)
    → HasHash h src
    → merge tgt src ≡ ok out
    → merge out.0 src ≡ ok (out.0, 0, 0)
unfolding merge
merge-idempotent h tgt src out hs k =
    let (kept, e, same) = merge-parts tgt src k in
    let settled : All (IsSettled src) (kept.0 ++ insertions tgt src) =
      All-append (IsSettled src) kept.0 (insertions tgt src)
        (update_rows-IsSettled h src tgt kept hs e)
        (hash-All-IsSettled h src (insertions tgt src) hs (insertions-HasHash h tgt src hs)) in
    let rows : All (IsSettled src) out.0 = rw same settled in
    rw
      (
        settled-update_rows src out.0 rows,
        covered-insertions out.0 src (merge-covers tgt src out k),
      )
      (rw append-nil refl)
