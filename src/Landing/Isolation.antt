-- ===== src/Landing/Isolation.antt =====
-- The partitions of the landing zone do not touch each other.
use text.Mathlib.TextLemmas as Text
use batch_api_snowflake.Base.{
  ◌≡◌, refl, sym, ap, ◌≢◌, ◌⊎◌, inl, inr, ◌≤◌, String, ◌<>◌, Bool, true, false, ◌&&◌, List, [], ◌∷◌,
  ◌++◌, append_assoc, all, arith, eqb, eqb_refl, eqb_iff, str_eq, String-discrete, Bool-cases,
}
use batch_api_snowflake.Values.{Datetime}
use batch_api_snowflake.Calendar.{Date, isoformat, max_ordinal}
use batch_api_snowflake.Calendar.Iso.{isoformat-injective}
use batch_api_snowflake.Platform.{Platform}
use batch_api_snowflake.Models.{WeatherObservation, batch_id}
use batch_api_snowflake.Disk.{FilePath, FilePath-discrete, Disk, read_file, is_below}
use batch_api_snowflake.Landing.{
  dataset, partition_dir, temp_name, final_name, write_batch, clear_partition, fits_schema,
}
use batch_api_snowflake.Landing.Publishing.{
  read_file-write_batch, read-remove_where, write_batch_misfit,
}
use batch_api_snowflake.Landing.Cleanup.{is_below-append}

is_below-root :
    (root dir path : FilePath) → is_below (root ++ dir) (root ++ path) ≡ is_below dir path
unfolding is_below
is_below-root [] dir path = refl
is_below-root (x ∷ root) dir path = rw (eqb_refl String-discrete x) (is_below-root root dir path)

same_segment :
    (prefix s t : String) (more : Bool)
    → (str_eq (prefix <> s) (prefix <> t) && more) ≡ true
    → (s ≡ t) × (more ≡ true)
same_segment prefix s t more h =
    let whole : str_eq (prefix <> s) (prefix <> t) ≡ true = ground (arith, h) in
    (Text.append_cancel_left prefix s t ((eqb_iff String-discrete _ _).0 whole), ground (arith, h))

-- A day that Python's dates reach.
abbrev pub IsDay : Date → Type 0
IsDay day = (1 ≤ day) × (day ≤ max_ordinal)

module _ (root : FilePath) (day day' : Date) (city_id city_id' : String) where
  -- A path below the directories of two partitions.
  is_below-partition_dirs :
      (rest : FilePath)
      → IsDay day
      → IsDay day'
      → is_below (partition_dir root day city_id) (partition_dir root day' city_id' ++ rest) ≡ true
      → (city_id ≡ city_id') × (day ≡ day')
  unfolding is_below partition_dir
  is_below-partition_dirs rest (h, le) (h', le') below =
      let (same_iso, below') = same_segment "observation_date=" (isoformat day) (isoformat day') _ (
        rw
          (
            append_assoc,
            is_below-root,
            eqb_refl String-discrete dataset,
            eqb_refl String-discrete "v1",
          )
          at below) in
      let (same_city, _) = same_segment "city_id=" city_id city_id' _ below' in
      (same_city, isoformat-injective day day' h le h' le' same_iso)

  -- What is below the directory of one partition is not below that of another.
  not_below :
      (rest : FilePath)
      → IsDay day
      → IsDay day'
      → (city_id' ≢ city_id) ⊎ (day' ≢ day)
      → is_below (partition_dir root day city_id) (partition_dir root day' city_id' ++ rest) ≡ false
  not_below rest h h' differs =
      elim (Bool-cases
        (is_below (partition_dir root day city_id) (partition_dir root day' city_id' ++ rest))) [
          | inl below ↦
              let (same_city, same_day) = is_below-partition_dirs rest h h' below in
              elim differs [
                | inl other_city ↦ absurd (other_city (sym same_city))
                | inr other_day ↦ absurd (other_day (sym same_day))
              ]
          | inr apart ↦ apart
        ]

  not_same :
      (rest : FilePath) (name : String)
      → IsDay day
      → IsDay day'
      → (city_id' ≢ city_id) ⊎ (day' ≢ day)
      → eqb FilePath-discrete
          (partition_dir root day' city_id' ++ rest)
          (partition_dir root day city_id ++ name ∷ [])
        ≡ false
  not_same rest name h h' differs =
      let dir = partition_dir root day city_id in
      let q = partition_dir root day' city_id' ++ rest in
      elim (Bool-cases (eqb FilePath-discrete q (dir ++ name ∷ []))) [
        | inl same ↦
            let path : q ≡ dir ++ name ∷ [] = (eqb_iff FilePath-discrete _ _).0 same in
            cc
              (ap (is_below dir) path, is_below-append dir (name ∷ []), not_below rest h h' differs)
        | inr apart ↦ apart
      ]

-- Writing the batch of a partition, whether or not the batch fits the schema, and clearing the
-- partition leave every file below the directory of another partition, of another city or another
-- day of the years 1 to 9999, as it was.
pub other_partition_unchanged :
    (p : Platform) (root : FilePath) (now : Datetime) (city_id city_id' : String) (day day' : Date)
    (rows : List WeatherObservation) (hash : String) (rest : FilePath) (d : Disk)
    → IsDay day
    → IsDay day'
    → (city_id' ≢ city_id) ⊎ (day' ≢ day)
    → let q = partition_dir root day' city_id' ++ rest in
      (read_file q (write_batch p root now city_id day rows hash d).1 ≡ read_file q d)
      × (read_file q (clear_partition root day city_id d).1 ≡ read_file q d)
unfolding clear_partition
other_partition_unchanged p root now city_id city_id' day day' rows hash rest d h h' differs =
    let q = partition_dir root day' city_id' ++ rest in
    let bid = batch_id p city_id day in
    let cleared : read_file q (clear_partition root day city_id d).1 ≡ read_file q d =
      rw (read-remove_where, not_below root day day' city_id city_id' rest h h' differs) refl in
    elim (Bool-cases (all (fits_schema p) rows)) [
      | inl fits ↦ (
        rw
            (
              read_file-write_batch p root now city_id day rows hash d q fits,
              not_same root day day' city_id city_id' rest (final_name bid) h h' differs,
              not_same root day day' city_id city_id' rest (temp_name bid) h h' differs,
            )
            refl,
        cleared,
      )
      | inr misfit ↦
          (rw (write_batch_misfit p root now city_id day rows hash d misfit) refl, cleared)
    ]
