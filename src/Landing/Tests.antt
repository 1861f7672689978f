-- ===== src/Landing/Tests.antt =====
-- The landing zone with one batch, and a task that is cut off.
use batch_api_snowflake.Base.{◌≡◌, refl, [], ◌∷◌, some, none, if◌then◌else◌, eqb}
use batch_api_snowflake.Errors.{err, file_not_found}
use batch_api_snowflake.Disk.{parquet, FilePath, FilePath-discrete, read_file}
use batch_api_snowflake.Base.{inl, arith, ne_of_literals}
use batch_api_snowflake.Models.{batch_id}
use batch_api_snowflake.Base.{map, all}
use batch_api_snowflake.Base.Dict.{keys}
use batch_api_snowflake.Disk.{LandedRecord}
use batch_api_snowflake.Landing.Schema.{schema, record_row, fits_field, schema-record_row}
use batch_api_snowflake.Landing.Rehash.{existing_payload_hash-write_batch}
use batch_api_snowflake.Landing.Isolation.{IsDay, other_partition_unchanged}
use batch_api_snowflake.Landing.{
  clear_partition, final_name, existing_payload_hash, write_batch, fits_schema, temp_path,
  final_path, publish, cleanup_temp_files,
}
use batch_api_snowflake.Base.{map}
use batch_api_snowflake.Landing.Records.{record_of}
use batch_api_snowflake.Landing.Publishing.{read-write_batch}
use batch_api_snowflake.Landing.Cleanup.{publish-cleanup_temp_files}
use batch_api_snowflake.Landing.Atomic.{
  State, idle, Reach, here, next, start, killed, cleanup, IsAtomic, Reach-IsAtomic,
}
use batch_api_snowflake.Fixtures.{platform, root, august, utc_midnight, first_hour, second_hour}

abbrev final : FilePath
final = final_path platform root "berlin" august

abbrev temp : FilePath
temp = temp_path platform root "berlin" august

read-write_batch_example :
    read_file final
      (write_batch platform root utc_midnight "berlin" august
        (first_hour ∷ second_hour ∷ [])
        "h"
        []).1
    ≡ (if eqb FilePath-discrete final final
        then some (
            parquet (
              map
                (record_of platform utc_midnight "berlin" august "h")
                (first_hour ∷ second_hour ∷ [])))
        else if eqb FilePath-discrete final temp
        then none
        else read_file final [])
unfolding fits_schema
read-write_batch_example =
    read-write_batch platform root utc_midnight "berlin" august (first_hour ∷ second_hour ∷ []) "h"
      [] final refl

publish-cleanup_temp_files_example :
    (publish temp final (cleanup_temp_files root ((temp, parquet []) ∷ [])).1).0
    ≡ err file_not_found
publish-cleanup_temp_files_example =
    publish-cleanup_temp_files platform root "berlin" august ((temp, parquet []) ∷ [])

abbrev empty_zone : State
empty_zone = record { disk = []; phases = λ q. idle }

empty-IsAtomic : IsAtomic empty_zone
unfolding read_file
empty-IsAtomic = record { whole = λ q e. cc; ready = λ q e. cc }

-- A task starts, is killed, and the next run cleans up.
abbrev cut_off : (s : State) × Reach platform root empty_zone s
cut_off =
    (_, next (next (next here (start empty_zone "berlin" august refl)) (killed _ temp)) (cleanup _))

Reach-IsAtomic_example : IsAtomic cut_off.0
Reach-IsAtomic_example = Reach-IsAtomic empty-IsAtomic cut_off.1

is_august : IsDay august
is_august = (omega arith, omega arith)

other_partition_unchanged_example :
    let q = final_path platform root "paris" august in
    (read_file q (write_batch platform root utc_midnight "berlin" august (first_hour ∷ []) "h" []).1
      ≡ read_file q [])
    × (read_file q (clear_partition root august "berlin" []).1 ≡ read_file q [])
other_partition_unchanged_example =
    other_partition_unchanged platform root utc_midnight "berlin" "paris" august august
      (first_hour ∷ []) "h" (final_name (batch_id platform "paris" august) ∷ []) [] is_august
      is_august (inl (ne_of_literals "paris" "berlin" refl))

abbrev first_record : LandedRecord
first_record = record {
  observation = first_hour;
  ingested_at_utc = utc_midnight;
  batch_id = "b";
  source_payload_hash = "h";
  contract_version = 1;
}

schema-record_row_example :
    (keys (record_row first_record) ≡ map (λ f. f.name) schema)
    × (all (fits_field platform (record_row first_record)) schema ≡ fits_schema platform first_hour)
schema-record_row_example = schema-record_row platform first_record refl

existing_payload_hash-write_batch_example :
    (existing_payload_hash platform root "berlin" august
        (write_batch platform root utc_midnight "berlin" august (first_hour ∷ []) "h" []).1
      ≡ some "h")
    × (existing_payload_hash platform root "berlin" august
          (clear_partition root august "berlin" []).1
        ≡ none)
unfolding fits_schema
existing_payload_hash-write_batch_example =
    existing_payload_hash-write_batch platform root utc_midnight "berlin" august first_hour [] "h"
      [] refl
