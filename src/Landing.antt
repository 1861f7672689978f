-- ===== src/Landing.antt =====
-- src/pipeline/landing.py: the landing zone.
pub mod Records
pub mod Publishing
pub mod Cleanup
pub mod Atomic
pub mod Isolation
pub mod Schema
pub mod Rehash
mod Tests
use batch_api_snowflake.Base.{
  ℤ, ℕ, ◌+◌, String, ◌<>◌, Bool, true, false, not, ◌&&◌, List, [], ◌∷◌, ◌++◌, map,
}
use batch_api_snowflake.Base.{
  Option, none, some, length, keep, any, all, is_empty, if◌then◌else◌, eqb,
}
use batch_api_snowflake.Base.{begins_with, ends_with, String-discrete}
use batch_api_snowflake.Base.Dict.{keys}
use batch_api_snowflake.Errors.{Result, ok, err, value_error, file_not_found, arrow_invalid}
use batch_api_snowflake.Exec.{Exec, pure, lift, ◌>>=◌, ◌>>◌}
use batch_api_snowflake.Values.{Datetime}
use batch_api_snowflake.Calendar.{Date, isoformat}
use batch_api_snowflake.Platform.{Platform}
use batch_api_snowflake.Models.{WeatherObservation, batch_id, contract_version}
use batch_api_snowflake.Disk.{
  LandedRecord, File, partial, parquet, FilePath, FilePath-discrete, Disk,
}
use batch_api_snowflake.Disk.{read_file, write_file, is_below, file_name, remove_where, remove_file}

pub record LandedBatch : Type 0 where
  pub path : FilePath
  pub batch_id : String
  pub city_id : String
  pub observation_date : Date
  pub row_count : ℕ
  pub payload_hash : String

-- `DATASET`
abbrev pub dataset : String
dataset = "weather_observation"

-- `partition_dir`
unfoldable pub partition_dir : FilePath → Date → String → FilePath
partition_dir root day city_id =
    root ++ dataset ∷ "v1" ∷ ("observation_date=" <> isoformat day) ∷ ("city_id=" <> city_id) ∷ []

-- `f"{bid}.parquet"` and `f".{bid}.parquet.tmp"`
unfoldable pub final_name : String → String
final_name bid = bid <> ".parquet"

unfoldable pub temp_name : String → String
temp_name bid = "." <> (bid <> ".parquet.tmp")

-- A name that the pattern ".*.parquet.tmp" of `cleanup_temp_files` fits. The two fixed parts do
-- not overlap: "." is no end of ".parquet.tmp" that begins it, unless the name is the suffix alone.
unfoldable pub is_temp_name : String → Bool
is_temp_name name =
    begins_with name "."
    && ends_with name ".parquet.tmp"
    && not (eqb String-discrete name ".parquet.tmp")

-- The records of a batch: each observation with the metadata columns.
unfoldable pub landed_records :
    Platform → Datetime → String → Date → String → List WeatherObservation → List LandedRecord
landed_records p now city_id day hash [] = []
landed_records p now city_id day hash (o ∷ os) =
    (record {
      observation = o;
      ingested_at_utc = now;
      batch_id = batch_id p city_id day;
      source_payload_hash = hash;
      contract_version = contract_version;
    })
    ∷ landed_records p now city_id day hash os

-- `pq.write_table(table, tmp_path)` opens the file and, unless the task is killed, completes it.
unfoldable pub start_temp : FilePath → Exec Disk (Unit {0})
start_temp tmp d = (ok tt, write_file tmp partial d)

unfoldable pub finish_temp : FilePath → List LandedRecord → Exec Disk (Unit {0})
finish_temp tmp records d = (ok tt, write_file tmp (parquet records) d)

move : FilePath → FilePath → Option File → Exec Disk (Unit {0})
move from to none d = (err file_not_found, d)
move from to (some f) d = (ok tt, write_file to f (remove_file from d))

-- `tmp_path.replace(final_path)`
unfoldable pub publish : FilePath → FilePath → Exec Disk (Unit {0})
unfolding move
publish tmp final d = move tmp final (read_file tmp d) d

abbrev pub temp_path : Platform → FilePath → String → Date → FilePath
temp_path p root city_id day =
    partition_dir root day city_id ++ temp_name (batch_id p city_id day) ∷ []

abbrev pub final_path : Platform → FilePath → String → Date → FilePath
final_path p root city_id day =
    partition_dir root day city_id ++ final_name (batch_id p city_id day) ∷ []

abbrev pub code_fits : Platform → Option ℤ → Bool
code_fits p none = true
code_fits p (some n) = p.int32_fits n

unfoldable pub fits_schema : Platform → WeatherObservation → Bool
fits_schema p o = code_fits p o.weather_code

-- `write_batch`. `pa.Table.from_pylist` raises ArrowInvalid where a record does not fit SCHEMA.
unfoldable pub write_batch :
    Platform
    → FilePath
    → Datetime
    → String
    → Date
    → List WeatherObservation
    → String
    → Exec Disk LandedBatch
unfolding start_temp finish_temp publish
write_batch p root now city_id day observations hash =
    let records = landed_records p now city_id day hash observations in
    do
      lift (if all (fits_schema p) observations then ok tt else err arrow_invalid)
      start_temp (temp_path p root city_id day)
      finish_temp (temp_path p root city_id day) records
      publish (temp_path p root city_id day) (final_path p root city_id day)
      pure (record {
        path = final_path p root city_id day;
        batch_id = batch_id p city_id day;
        city_id = city_id;
        observation_date = day;
        row_count = length records;
        payload_hash = hash;
      })

first_hash : List LandedRecord → Option String
first_hash [] = none
first_hash (r ∷ rs) = some r.source_payload_hash

contents : Option File → Result (List LandedRecord)
contents none = err file_not_found
contents (some (parquet records)) = ok records
contents (some f) = err arrow_invalid

-- `read_landed_file`, of all columns. `ParquetFile` looks at the file alone, never at the
-- directories that it is in.
unfoldable pub read_landed_file : FilePath → Disk → Result (List LandedRecord)
unfolding contents
read_landed_file path d = contents (read_file path d)

found_hash : Result (List LandedRecord) → Option String
unfolding first_hash
found_hash (ok records) = first_hash records
found_hash (err e) = none

-- `existing_payload_hash`: a file that is not there or cannot be read counts as absent, and so does
-- one without rows.
unfoldable pub existing_payload_hash : Platform → FilePath → String → Date → Disk → Option String
unfolding read_landed_file found_hash
existing_payload_hash p root city_id day d =
    found_hash (read_landed_file (final_path p root city_id day) d)

-- `clear_partition`
unfoldable pub clear_partition : FilePath → Date → String → Exec Disk (Unit {0})
clear_partition root day city_id d =
    (ok tt, remove_where (is_below (partition_dir root day city_id)) d)

-- A file that `Path(root).rglob(".*.parquet.tmp")` finds.
unfoldable pub is_leftover : FilePath → FilePath → Bool
is_leftover root path = is_below root path && is_temp_name (file_name path)

-- `cleanup_temp_files`
unfoldable pub cleanup_temp_files : FilePath → Exec Disk ℕ
cleanup_temp_files root d =
    (ok (length (keep (is_leftover root) (keys d))), remove_where (is_leftover root) d)
