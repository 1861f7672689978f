-- ===== src/Warehouse/Merge/Tests.antt =====
-- The MERGE of two hours into a table that has the first one with other values.
use batch_api_snowflake.Base.{
  ◌≡◌, refl, List, [], ◌∷◌, map, length, ◌+◌, ℕ, some, pos, String-discrete, ℕ_discrete,
}
use batch_api_snowflake.Base.{◌++◌}
use batch_api_snowflake.Errors.{ok}
use batch_api_snowflake.Values.{fin}
use batch_api_snowflake.Landing.{landed_records}
use batch_api_snowflake.Warehouse.Merge.{
  RawRow, select, merge, update_rows, insertions, restatements, same_key, ℤ-discrete,
}
use batch_api_snowflake.Warehouse.Merge.Idempotent.{merge-idempotent}
use batch_api_snowflake.Warehouse.Merge.Keys.{Key, find, upsert, HasUniqueKeys}
use batch_api_snowflake.Warehouse.Merge.Refinement.{merge-upsert}
use batch_api_snowflake.Fixtures.{platform, august, utc_midnight, first_hour, second_hour}

abbrev batch : List RawRow
batch =
    map select
      (landed_records platform utc_midnight "berlin" august "new" (first_hour ∷ second_hour ∷ []))

abbrev old : List RawRow
old = map select (
    landed_records platform utc_midnight "berlin" august "old"
      ((record first_hour { temperature_2m_c = some (fin (pos 19)) }) ∷ []))

merged : merge old batch ≡ ok (batch, 1, 1)
unfolding merge select landed_records String-discrete update_rows restatements same_key ℤ-discrete
    ℕ_discrete insertions
merged = refl

merge-idempotent_example : merge batch batch ≡ ok (batch, 0, 0)
unfolding landed_records select
merge-idempotent_example = merge-idempotent "new" old batch (batch, 1, 1) (refl, (refl, tt)) merged

old_unique : HasUniqueKeys old
unfolding landed_records select
old_unique = (tt, tt)

batch_unique : HasUniqueKeys batch
unfolding landed_records select same_key String-discrete ℤ-discrete ℕ_discrete
batch_unique = ((refl, tt), (tt, tt))

merge-upsert_example :
    (out : List RawRow) × (inserted : ℕ) × (updated : ℕ) × (merge old batch
      ≡ ok (out, inserted, updated))
    × HasUniqueKeys out
    × ((k : Key) → find k out ≡ upsert (find k old) (find k batch))
    × (length out ≡ length old + inserted)
merge-upsert_example = merge-upsert old batch old_unique batch_unique

-- A batch with two rows of one key, of which the table has none: both are inserted.
twice_inserted : merge [] (batch ++ batch) ≡ ok (batch ++ batch, 4, 0)
unfolding merge select landed_records update_rows insertions
twice_inserted = refl
