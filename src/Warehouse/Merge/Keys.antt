-- ===== src/Warehouse/Merge/Keys.antt =====
-- The abstract view of a table, as a function from primary keys to rows.
use batch_api_snowflake.Base.{◌≡◌, String, Bool, true, false, ◌&&◌}
use batch_api_snowflake.Base.{
  Option, none, some, List, [], ◌∷◌, All, arith, if◌then◌else◌, Bool-cases, inl, inr,
}
use batch_api_snowflake.Base.{str_eq, eqb, String-discrete, eqb_refl, ℤ}
use batch_api_snowflake.Warehouse.Merge.{RawRow, ℤ-discrete, same_key}

-- The contract's primary key.
abbrev pub Key : Type 0
Key = String × ℤ

abbrev pub key : RawRow → Key
key r = (r.city_id, r.observed_at_utc)

abbrev pub is_key : Key → RawRow → Bool
is_key k r = str_eq k.0 r.city_id && eqb ℤ-discrete k.1 r.observed_at_utc

-- What a query for a key finds.
unfoldable pub find : Key → List RawRow → Option RawRow
find k [] = none
find k (r ∷ rows) = if is_key k r then some r else find k rows

-- The key of a row is that of no other row of the table.
abbrev pub HasUniqueKeys : List RawRow → Type 0
HasUniqueKeys [] = Unit
HasUniqueKeys (r ∷ rows) = All (λ s. same_key r s ≡ false) rows × HasUniqueKeys rows

-- What the MERGE should make of a key, from the row that the table has and the row of the batch.
abbrev pub upsert : Option RawRow → Option RawRow → Option RawRow
upsert none s = s
upsert (some t) none = some t
upsert (some t) (some s) =
    if str_eq t.source_payload_hash s.source_payload_hash then some t else some s

pub is_key-eq : (k : Key) (r : RawRow) → is_key k r ≡ true → key r ≡ k
is_key-eq k r h = ground arith

pub is_key_self : (r : RawRow) → is_key (key r) r ≡ true
is_key_self r = rw (eqb_refl String-discrete r.city_id, eqb_refl ℤ-discrete r.observed_at_utc)

pub find-is_key :
    (k : Key) (rows : List RawRow) (r : RawRow) → find k rows ≡ some r → is_key k r ≡ true
unfolding find
find-is_key k [] r e = cc
find-is_key k (x ∷ rows) r e = elim (Bool-cases (is_key k x)) [
  | inl here ↦ let same : x ≡ r = cc (rw here at e) in rw (← same) here
  | inr later ↦ find-is_key k rows r (rw later at e)
]
