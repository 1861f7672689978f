-- ===== src/Warehouse/Merge/Refinement.antt =====
-- The MERGE against its abstract view.
use batch_api_snowflake.Base.{◌≡◌, refl, ap, ◌∙◌, ℕ, ◌+◌, Bool, true, false}
use batch_api_snowflake.Base.{
  Option, none, some, List, [], ◌∷◌, ◌++◌, map, length, keep, any, All, All-keep, All-map,
  All-append, arith, if◌then◌else◌, Bool-cases, Option-cases, inl, inr,
}
use batch_api_snowflake.Base.{str_eq, length-append, length-map}
use batch_api_snowflake.Errors.{ok}
use batch_api_snowflake.Warehouse.Merge.{RawRow, same_key, restatements, updated, apply_updates}
use batch_api_snowflake.Warehouse.Merge.{update_rows, insertions, merge}
use batch_api_snowflake.Warehouse.Merge.Keys.{
  Key, key, is_key, find, HasUniqueKeys, upsert, is_key-eq, find-is_key,
}

-- A row that shares its key with none of the others is the only candidate for an update.
alone-restatements :
    (t s : RawRow) (rows : List RawRow)
    → same_key t s ≡ true
    → All (λ s'. same_key s s' ≡ false) rows
    → restatements rows t ≡ []
unfolding restatements same_key
alone-restatements t s [] e k = refl
alone-restatements t s (x ∷ rows) e (k, ks) = ground (arith, alone-restatements t s rows e ks)

-- A row of the target after the update.
abbrev settled : Option RawRow → RawRow → RawRow
settled none t = t
settled (some s) t = if str_eq t.source_payload_hash s.source_payload_hash then t else updated t s

-- How many rows that updates.
abbrev restated : Option RawRow → RawRow → ℕ
restated none t = 0
restated (some s) t = if str_eq t.source_payload_hash s.source_payload_hash then 0 else 1

apply_updates-settled :
    (src : List RawRow) (t : RawRow)
    → HasUniqueKeys src
    → apply_updates t (restatements src t)
      ≡ ok (settled (find (key t) src) t, restated (find (key t) src) t)
unfolding apply_updates restatements find same_key updated
apply_updates-settled [] t u = refl
apply_updates-settled (s ∷ src) t (alone, u) = elim (Bool-cases (same_key t s)) [
  | inl same ↦ elim (Bool-cases (str_eq t.source_payload_hash s.source_payload_hash)) [
    | inl unchanged ↦ rw (same, unchanged, alone-restatements t s src same alone, apply_updates)
    | inr changed ↦ rw (same, changed, alone-restatements t s src same alone, apply_updates)
  ]
  | inr other ↦ rw other (apply_updates-settled src t u)
]

-- The updated half of the MERGE.
updates : List RawRow → List RawRow → ℕ
updates src [] = 0
updates src (t ∷ tgt) = restated (find (key t) src) t + updates src tgt

abbrev settle : List RawRow → RawRow → RawRow
settle src t = settled (find (key t) src) t

update_rows-settle :
    (src tgt : List RawRow)
    → HasUniqueKeys src
    → update_rows src tgt ≡ ok (map (settle src) tgt, updates src tgt)
unfolding update_rows updates
update_rows-settle src [] u = refl
update_rows-settle src (t ∷ tgt) u =
    rw (apply_updates-settled src t u, update_rows-settle src tgt u)

settled-is_key : (k : Key) (s : Option RawRow) (t : RawRow) → is_key k (settled s t) ≡ is_key k t
unfolding updated
settled-is_key k none t = refl
settled-is_key k (some s) t =
    elim (Bool-cases (str_eq t.source_payload_hash s.source_payload_hash)) [
      | inl unchanged ↦ rw unchanged
      | inr changed ↦ rw changed
    ]

find-settle :
    (k : Key) (src tgt : List RawRow)
    → find k (map (settle src) tgt)
      ≡ elim (find k tgt) [ none ↦ none | some t ↦ some (settle src t) ]
unfolding find
find-settle k src [] = refl
find-settle k src (t ∷ tgt) = elim (Bool-cases (is_key k t)) [
  | inl here ↦ rw (settled-is_key k (find (key t) src) t, here) refl
  | inr later ↦ rw (settled-is_key k (find (key t) src) t, later) (find-settle k src tgt)
]

find-append :
    (k : Key) (xs ys : List RawRow)
    → find k (xs ++ ys) ≡ elim (find k xs) [ none ↦ find k ys | some r ↦ some r ]
unfolding find
find-append k [] ys = refl
find-append k (x ∷ xs) ys = ground (arith, find-append k xs ys)

-- A key that the target lacks is inserted from the batch.
absent :
    (k : Key) (tgt : List RawRow) (s : RawRow)
    → find k tgt ≡ none
    → is_key k s ≡ true
    → any (λ t. same_key t s) tgt ≡ false
unfolding find same_key
absent k [] s gone is = refl
absent k (t ∷ tgt) s gone is = ground (arith, absent k tgt s)

find-insertions :
    (k : Key) (tgt src : List RawRow) → find k tgt ≡ none → find k (insertions tgt src) ≡ find k src
unfolding find insertions
find-insertions k tgt [] gone = refl
find-insertions k tgt (s ∷ src) gone = elim (Bool-cases (is_key k s)) [
  | inl here ↦ rw (absent k tgt s gone here, here) refl
  | inr other ↦ rw other (ground (arith, find-insertions k tgt src gone))
]

-- An update writes every column but those of the key, which are the same.
updated-same_key : (t s : RawRow) → is_key (key t) s ≡ true → updated t s ≡ s
unfolding updated
updated-same_key t s same =
    let city : t.city_id ≡ s.city_id = ground (arith, same) in
    let hour : t.observed_at_utc ≡ s.observed_at_utc = ground (arith, same) in rw (city, hour)

settled-upsert :
    (t : RawRow) (s : Option RawRow)
    → ((r : RawRow) → s ≡ some r → is_key (key t) r ≡ true)
    → some (settled s t) ≡ upsert (some t) s
settled-upsert t none has = refl
settled-upsert t (some s) has =
    elim (Bool-cases (str_eq t.source_payload_hash s.source_payload_hash)) [
      | inl unchanged ↦ rw unchanged
      | inr changed ↦ rw changed (ap some (updated-same_key t s (has s refl)))
    ]

settle-upsert :
    (k : Key) (t : RawRow) (src : List RawRow)
    → is_key k t ≡ true
    → some (settle src t) ≡ upsert (some t) (find k src)
settle-upsert k t src is =
    rw (← is_key-eq k t is) (settled-upsert t (find (key t) src) (find-is_key (key t) src))

find-merged :
    (k : Key) (tgt src : List RawRow)
    → find k (map (settle src) tgt ++ insertions tgt src) ≡ upsert (find k tgt) (find k src)
find-merged k tgt src = elim (Option-cases (find k tgt)) [
  | inl gone ↦ rw (find-append, find-settle, gone, find-insertions k tgt src gone)
  | inr (t, found) ↦
      rw (find-append, find-settle, found) (settle-upsert k t src (find-is_key k tgt t found))
]

-- Keys stay unique.
settled-key : (s : Option RawRow) (t : RawRow) → key (settled s t) ≡ key t
unfolding updated
settled-key none t = refl
settled-key (some s) t = ground arith

settle-same_key :
    (src : List RawRow) (t s : RawRow) → same_key (settle src t) (settle src s) ≡ same_key t s
unfolding same_key
settle-same_key src t s =
    settled-is_key (key (settle src t)) (find (key s) src) s
    ∙ ap (λ (k : Key). is_key k s) (settled-key (find (key t) src) t)

settle-alone :
    (src : List RawRow) (t : RawRow) (rows : List RawRow)
    → All (λ s. same_key t s ≡ false) rows
    → All (λ s. same_key (settle src t) s ≡ false) (map (settle src) rows)
settle-alone src t [] k = tt
settle-alone src t (s ∷ rows) (k, ks) = (settle-same_key src t s ∙ k, settle-alone src t rows ks)

settle-HasUniqueKeys :
    (src tgt : List RawRow) → HasUniqueKeys tgt → HasUniqueKeys (map (settle src) tgt)
settle-HasUniqueKeys src [] u = tt
settle-HasUniqueKeys src (t ∷ tgt) (alone, u) =
    (settle-alone src t tgt alone, settle-HasUniqueKeys src tgt u)

keep-HasUniqueKeys :
    (p : RawRow → Bool) (rows : List RawRow) → HasUniqueKeys rows → HasUniqueKeys (keep p rows)
keep-HasUniqueKeys p [] u = tt
keep-HasUniqueKeys p (r ∷ rows) (alone, u) = elim (Bool-cases (p r)) [
  | inl in_it ↦ rw in_it (All-keep _ p rows alone, keep-HasUniqueKeys p rows u)
  | inr out_of_it ↦ rw out_of_it (keep-HasUniqueKeys p rows u)
]

-- No row of the first table has the key of the row.
abbrev Lacks : List RawRow → RawRow → Type 0
Lacks rows s = any (λ t. same_key t s) rows ≡ false

append-HasUniqueKeys :
    (xs ys : List RawRow)
    → HasUniqueKeys xs
    → HasUniqueKeys ys
    → All (Lacks xs) ys
    → HasUniqueKeys (xs ++ ys)
append-HasUniqueKeys [] ys ux uy apart = uy
append-HasUniqueKeys (x ∷ xs) ys (alone, ux) uy apart = (
  All-append (λ s. same_key x s ≡ false) xs ys alone
      (All-map (Lacks (x ∷ xs)) (λ s. same_key x s ≡ false) (λ y h. ground (arith, h)) ys apart),
  append-HasUniqueKeys xs ys ux uy
      (All-map (Lacks (x ∷ xs)) (Lacks xs) (λ y h. ground (arith, h)) ys apart),
)

settle-Lacks : (src tgt : List RawRow) (s : RawRow) → Lacks tgt s → Lacks (map (settle src) tgt) s
settle-Lacks src [] s h = refl
settle-Lacks src (t ∷ tgt) s h =
    let one : same_key (settle src t) s ≡ same_key t s =
      unfold same_key in ap (λ (k : Key). is_key k s) (settled-key (find (key t) src) t) in
    ground (arith, h, one, settle-Lacks src tgt s)

insertions-Lacks : (tgt src : List RawRow) → All (Lacks tgt) (insertions tgt src)
unfolding insertions
insertions-Lacks tgt [] = tt
insertions-Lacks tgt (s ∷ src) = elim (Bool-cases (any (λ t. same_key t s) tgt)) [
  | inl there ↦ rw there (insertions-Lacks tgt src)
  | inr gone ↦ rw gone (gone, insertions-Lacks tgt src)
]

-- The MERGE of a batch into a table, neither of which has two rows of one key, always succeeds. The
-- table keeps its keys unique, and at every key it then has what `upsert` makes of the row that it
-- had and of the batch's row: the batch's row if the key was new or its payload hash differs, and
-- the old row otherwise. The table grows by the number of rows reported as inserted.
pub merge-upsert :
    (tgt src : List RawRow)
    → HasUniqueKeys tgt
    → HasUniqueKeys src
    → (out : List RawRow) × (inserted : ℕ) × (updated : ℕ) × (merge tgt src
        ≡ ok (out, inserted, updated))
      × HasUniqueKeys out
      × ((k : Key) → find k out ≡ upsert (find k tgt) (find k src))
      × (length out ≡ length tgt + inserted)
unfolding merge
merge-upsert tgt src ut us =
    let kept = map (settle src) tgt in
    let new = insertions tgt src in
    (
      kept ++ new,
      length new,
      updates src tgt,
      rw (update_rows-settle src tgt us),
      append-HasUniqueKeys kept new (settle-HasUniqueKeys src tgt ut)
          (unfold insertions in keep-HasUniqueKeys _ src us)
          (All-map (Lacks tgt) (Lacks kept) (settle-Lacks src tgt) new (insertions-Lacks tgt src)),
      λ k. find-merged k tgt src,
      length-append kept new ∙ ap (λ n. n + length new) (length-map tgt (settle src)),
    )
