-- ===== src/Landing/Rehash.antt =====
-- src/pipeline/landing.py: what `existing_payload_hash` finds.
use batch_api_snowflake.Base.{◌≡◌, refl, true, none, some, String, List, [], ◌∷◌, all, eqb_refl}
use batch_api_snowflake.Values.{Datetime}
use batch_api_snowflake.Calendar.{Date}
use batch_api_snowflake.Platform.{Platform}
use batch_api_snowflake.Models.{WeatherObservation, batch_id}
use batch_api_snowflake.Disk.{FilePath, FilePath-discrete, Disk}
use batch_api_snowflake.Landing.{
  fits_schema, write_batch, clear_partition, existing_payload_hash, read_landed_file, final_path,
  final_name, partition_dir, landed_records,
}
use batch_api_snowflake.Landing.Publishing.{read_file-write_batch, read-remove_where}
use batch_api_snowflake.Landing.Cleanup.{is_below-append}

-- `existing_payload_hash` reads back the hash under which a batch of some observations was written,
-- if they fit the schema. Of a partition without a file it gives nothing.
pub existing_payload_hash-write_batch :
    (p : Platform) (root : FilePath) (now : Datetime) (city_id : String) (day : Date)
    (o : WeatherObservation) (os : List WeatherObservation) (hash : String) (d : Disk)
    → all (fits_schema p) (o ∷ os) ≡ true
    → (existing_payload_hash p root city_id day
          (write_batch p root now city_id day (o ∷ os) hash d).1
        ≡ some hash)
      × (existing_payload_hash p root city_id day (clear_partition root day city_id d).1 ≡ none)
unfolding existing_payload_hash read_landed_file clear_partition landed_records
existing_payload_hash-write_batch p root now city_id day o os hash d fits = (
  rw
      (
        read_file-write_batch p root now city_id day (o ∷ os) hash d (final_path p root city_id day)
            fits,
        eqb_refl FilePath-discrete (final_path p root city_id day),
      )
      refl,
  rw
      (
        read-remove_where,
        is_below-append (partition_dir root day city_id) (final_name (batch_id p city_id day) ∷ []),
      )
      refl,
)
