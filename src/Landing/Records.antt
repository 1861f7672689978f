-- ===== src/Landing/Records.antt =====
-- The records that `write_batch` makes of the observations.
use batch_api_snowflake.Base.{◌≡◌, refl, ap, String, List, [], ◌∷◌, map}
use batch_api_snowflake.Values.{Datetime}
use batch_api_snowflake.Calendar.{Date}
use batch_api_snowflake.Platform.{Platform}
use batch_api_snowflake.Models.{WeatherObservation, batch_id, contract_version}
use batch_api_snowflake.Disk.{LandedRecord}
use batch_api_snowflake.Landing.{landed_records}

-- The landed record of an observation: its payload's hash, its batch and the time are added to it.
abbrev pub record_of :
    Platform → Datetime → String → Date → String → WeatherObservation → LandedRecord
record_of p now city_id day hash o = record {
  observation = o;
  ingested_at_utc = now;
  batch_id = batch_id p city_id day;
  source_payload_hash = hash;
  contract_version = contract_version;
}

pub landed_records-eq-map :
    (p : Platform) (now : Datetime) (city_id : String) (day : Date) (hash : String)
    (observations : List WeatherObservation)
    → landed_records p now city_id day hash observations
      ≡ map (record_of p now city_id day hash) observations
unfolding landed_records
landed_records-eq-map p now city_id day hash [] = refl
landed_records-eq-map p now city_id day hash (o ∷ os) =
    ap (λ records. record_of p now city_id day hash o ∷ records)
      (landed_records-eq-map p now city_id day hash os)
