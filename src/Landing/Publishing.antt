-- ===== src/Landing/Publishing.antt =====
-- What `write_batch` leaves on the disk.
use batch_api_snowflake.Base.{
  ◌≡◌, refl, subst, ◌≢◌, ap, ◌∙◌, sym, String, ◌<>◌, Bool, true, false, List, [], ◌∷◌, ◌++◌, map,
}
use batch_api_snowflake.Base.{none, some, all, length, if◌then◌else◌, arith, eqb, eqb_refl}
use batch_api_snowflake.Base.{codes-append, ends_with, ends_with-append}
use batch_api_snowflake.Base.Dict.{lookup-insert, lookup-discard}
use text.Mathlib.TextLemmas as Text
use mathlib.Core.List.{reverse-append}
use batch_api_snowflake.Errors.{ok, err, file_not_found, arrow_invalid}
use batch_api_snowflake.Values.{Datetime}
use batch_api_snowflake.Calendar.{Date}
use batch_api_snowflake.Platform.{Platform}
use batch_api_snowflake.Models.{WeatherObservation, batch_id}
use batch_api_snowflake.Disk.{
  LandedRecord, File, partial, parquet, FilePath, FilePath-discrete, Disk,
}
use batch_api_snowflake.Disk.{read_file, write_file, file_name, remove_where, remove_file}
use batch_api_snowflake.Landing.{
  LandedBatch, landed_records, write_batch, fits_schema, temp_path, final_path,
}
use batch_api_snowflake.Landing.{final_name, temp_name, publish}
use batch_api_snowflake.Landing.{partition_dir}
use batch_api_snowflake.Landing.Records.{record_of, landed_records-eq-map}

pub read-write :
    (path q : FilePath) (f : File) (d : Disk)
    → read_file q (write_file path f d)
      ≡ (if eqb FilePath-discrete q path then some f else read_file q d)
unfolding read_file write_file
read-write path q f d = lookup-insert FilePath-discrete q path f d

pub read-remove_where :
    (test : FilePath → Bool) (q : FilePath) (d : Disk)
    → read_file q (remove_where test d) ≡ (if test q then none else read_file q d)
unfolding read_file remove_where
read-remove_where test q d = lookup-discard FilePath-discrete test q d

pub read-remove_file :
    (path q : FilePath) (d : Disk)
    → read_file q (remove_file path d)
      ≡ (if eqb FilePath-discrete path q then none else read_file q d)
unfolding remove_file
read-remove_file path q d = read-remove_where (eqb FilePath-discrete path) q d

pub file_name-append : (dir : FilePath) (name : String) → file_name (dir ++ name ∷ []) ≡ name
unfolding file_name
file_name-append [] name = refl
file_name-append (x ∷ []) name = refl
file_name-append (x ∷ y ∷ dir) name = file_name-append (y ∷ dir) name

-- A final name ends in "t" where a temporary one ends in "p".
pub final_name-IsFinal : (bid : String) → ends_with (final_name bid) ".parquet.tmp" ≡ false
unfolding final_name ends_with
final_name-IsFinal bid = rw (codes-append, reverse-append) refl

pub temp_name-IsTemp : (bid : String) → ends_with (temp_name bid) ".parquet.tmp" ≡ true
unfolding temp_name
temp_name-IsTemp bid =
    subst (λ n. ends_with n ".parquet.tmp" ≡ true) (Text.append_assoc "." bid ".parquet.tmp")
      (ends_with-append ("." <> bid) ".parquet.tmp")

pub final-ne-temp :
    (p : Platform) (root : FilePath) (city_id : String) (day : Date)
    → final_path p root city_id day ≢ temp_path p root city_id day
final-ne-temp p root city_id day e =
    let names : final_name (batch_id p city_id day) ≡ temp_name (batch_id p city_id day) =
      sym (file_name-append (partition_dir root day city_id) (final_name (batch_id p city_id day)))
      ∙ ap file_name e
      ∙ file_name-append (partition_dir root day city_id) (temp_name (batch_id p city_id day)) in
    cc (
      ap (λ n. ends_with n ".parquet.tmp") names,
      final_name-IsFinal (batch_id p city_id day),
      temp_name-IsTemp (batch_id p city_id day),
    )

pub publish_lem :
    (tmp final : FilePath) (f : File) (d : Disk)
    → read_file tmp d ≡ some f
    → publish tmp final d ≡ (ok tt, write_file final f (remove_file tmp d))
unfolding publish
publish_lem tmp final f d e = rw (e, publish)

pub publish_gone :
    (tmp final : FilePath) (d : Disk)
    → read_file tmp d ≡ none
    → publish tmp final d ≡ (err file_not_found, d)
unfolding publish
publish_gone tmp final d e = rw (e, publish)

-- The descriptor that `write_batch` returns.
abbrev pub landed :
    Platform → FilePath → Datetime → String → Date → List WeatherObservation → String → LandedBatch
landed p root now city_id day rows hash = record {
  path = final_path p root city_id day;
  batch_id = batch_id p city_id day;
  city_id = city_id;
  observation_date = day;
  row_count = length (landed_records p now city_id day hash rows);
  payload_hash = hash;
}

module _ (p : Platform) (root : FilePath) (now : Datetime) (city_id : String) (day : Date) where
  -- The disk just before the file is published.
  abbrev written : List LandedRecord → Disk → Disk
  written records d =
      write_file (temp_path p root city_id day) (parquet records)
        (write_file (temp_path p root city_id day) partial d)

  read-written :
      (records : List LandedRecord) (d : Disk)
      → read_file (temp_path p root city_id day) (written records d) ≡ some (parquet records)
  read-written records d =
      rw (read-write, eqb_refl FilePath-discrete (temp_path p root city_id day))

  pub write_batch_lem :
      (rows : List WeatherObservation) (hash : String) (d : Disk)
      → all (fits_schema p) rows ≡ true
      → let records = landed_records p now city_id day hash rows in
        write_batch p root now city_id day rows hash d ≡ (
          ok (landed p root now city_id day rows hash),
          write_file
              (final_path p root city_id day)
              (parquet records)
              (remove_file (temp_path p root city_id day) (written records d)),
        )
  unfolding write_batch
  write_batch_lem rows hash d fits =
      ground (arith, read-written (landed_records p now city_id day hash rows) d)

  pub read_file-write_batch :
      (rows : List WeatherObservation) (hash : String) (d : Disk) (q : FilePath)
      → all (fits_schema p) rows ≡ true
      → read_file q (write_batch p root now city_id day rows hash d).1 ≡ (
          if eqb FilePath-discrete q (final_path p root city_id day)
          then some (parquet (landed_records p now city_id day hash rows))
          else if eqb FilePath-discrete q (temp_path p root city_id day)
          then none
          else read_file q d)
  read_file-write_batch rows hash d q fits =
      rw (write_batch_lem rows hash d fits)
        (simp (read-write, read-remove_file) (ground (arith, final-ne-temp p root city_id day)))

  -- Every reading of the disk after a batch that fits the schema is written: the final file has one
  -- record for each observation, in order, with the time, the batch, the payload's hash and the
  -- version of the contract, the temporary file is gone, and every other file is what it was.
  pub read-write_batch :
      (rows : List WeatherObservation) (hash : String) (d : Disk) (q : FilePath)
      → all (fits_schema p) rows ≡ true
      → read_file q (write_batch p root now city_id day rows hash d).1 ≡ (
          if eqb FilePath-discrete q (final_path p root city_id day)
          then some (parquet (map (record_of p now city_id day hash) rows))
          else if eqb FilePath-discrete q (temp_path p root city_id day)
          then none
          else read_file q d)
  read-write_batch rows hash d q fits =
      rw (← landed_records-eq-map p now city_id day hash rows)
        (read_file-write_batch rows hash d q fits)

pub write_batch_misfit :
    (p : Platform) (root : FilePath) (now : Datetime) (city_id : String) (day : Date)
    (os : List WeatherObservation) (hash : String) (d : Disk)
    → all (fits_schema p) os ≡ false
    → write_batch p root now city_id day os hash d ≡ (err arrow_invalid, d)
unfolding write_batch
write_batch_misfit p root now city_id day os hash d misfit = rw misfit refl
