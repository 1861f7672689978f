-- ===== src/Disk.antt =====
-- The part of the file system that the pipeline writes: complete and half-written Parquet files,
-- and quarantine files. A path is its list of segments; directories exist as soon as a file below
-- them does, which is what `mkdir(parents=True, exist_ok=True)` in front of every write achieves.
use batch_api_snowflake.Base.{ℕ, String, Bool, true, false, ◌&&◌, List, [], ◌∷◌, Option}
use batch_api_snowflake.Base.{str_eq, String-discrete, eqb}
use batch_api_snowflake.Base.Dict.{Dict, lookup, insert, discard}
use batch_api_snowflake.Values.{Datetime, Row}
use batch_api_snowflake.Contract.{Violation}
use batch_api_snowflake.Models.{WeatherObservation}

-- A row of a landed Parquet file: an observation and the four metadata columns.
pub record LandedRecord : Type 0 where
  pub observation : WeatherObservation
  pub ingested_at_utc : Datetime
  pub batch_id : String
  pub source_payload_hash : String
  pub contract_version : ℕ

-- A line of a quarantine file.
pub record QuarantineLine : Type 0 where
  pub quarantined_at_utc : Datetime
  pub contract : String
  pub reasons : List Violation
  pub row : Row

pub data File : Type 0 where
  -- a Parquet file cut off while it was written
  partial : File
  parquet : List LandedRecord → File
  jsonl : List QuarantineLine → File

abbrev pub FilePath : Type 0
FilePath = List String

unfoldable pub FilePath-discrete : Discrete FilePath
FilePath-discrete = hlevel String-discrete

abbrev pub Disk : Type 0
Disk = Dict FilePath File

-- `path.open()`, `path.exists()`
unfoldable pub read_file : FilePath → Disk → Option File
unfolding lookup
read_file = lookup FilePath-discrete

unfoldable pub write_file : FilePath → File → Disk → Disk
unfolding insert
write_file = insert FilePath-discrete

-- Whether a path lies below a directory.
unfoldable pub is_below : FilePath → FilePath → Bool
is_below [] path = true
is_below (d ∷ dir) [] = false
is_below (d ∷ dir) (x ∷ path) = str_eq d x && is_below dir path

-- The last segment of a path.
unfoldable pub file_name : FilePath → String
file_name [] = ""
file_name (x ∷ []) = x
file_name (x ∷ y ∷ path) = file_name (y ∷ path)

unfoldable pub remove_where : (FilePath → Bool) → Disk → Disk
unfolding discard
remove_where = discard FilePath-discrete

-- `path.unlink()`
unfoldable pub remove_file : FilePath → Disk → Disk
unfolding remove_where
remove_file path = remove_where (eqb FilePath-discrete path)
