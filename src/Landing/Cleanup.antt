-- ===== src/Landing/Cleanup.antt =====
-- What `cleanup_temp_files` takes away, from finished and from running tasks.
use text.Mathlib.TextLemmas as Text
use Prim.Native.String.{count}
use batch_api_snowflake.Base.{◌≡◌, refl, ◌≢◌, ap, String, ◌<>◌, true, false}
use batch_api_snowflake.Base.{[], ◌∷◌, ◌++◌, append_assoc, none, if◌then◌else◌, arith, eqb_refl}
use batch_api_snowflake.Base.{begins_with, begins_with-append, String-discrete}
use batch_api_snowflake.Errors.{err, file_not_found}
use batch_api_snowflake.Calendar.{Date}
use batch_api_snowflake.Platform.{Platform}
use batch_api_snowflake.Models.{batch_id}
use batch_api_snowflake.Disk.{FilePath, Disk, read_file, is_below}
use batch_api_snowflake.Landing.{
  partition_dir, final_name, temp_name, is_temp_name, temp_path, final_path,
}
use batch_api_snowflake.Landing.{publish, is_leftover, cleanup_temp_files}
use batch_api_snowflake.Landing.Publishing.{
  read-remove_where, file_name-append, temp_name-IsTemp, final_name-IsFinal,
}

pub is_below-append : (dir path : FilePath) → is_below dir (dir ++ path) ≡ true
unfolding is_below
is_below-append [] path = refl
is_below-append (x ∷ dir) path = rw (eqb_refl String-discrete x) (is_below-append dir path)

temp_name-ne-suffix : (bid : String) → temp_name bid ≢ ".parquet.tmp"
unfolding temp_name
temp_name-ne-suffix bid e = omega (
  arith,
  ap count e,
  Text.length-append "." (bid <> ".parquet.tmp"),
  Text.length-append bid ".parquet.tmp",
)

temp_name-begins_with : (bid : String) → begins_with (temp_name bid) "." ≡ true
unfolding temp_name
temp_name-begins_with bid = begins_with-append "." (bid <> ".parquet.tmp")

is_below-partition_dir :
    (root : FilePath) (day : Date) (city_id name : String)
    → is_below root (partition_dir root day city_id ++ name ∷ []) ≡ true
unfolding partition_dir
is_below-partition_dir root day city_id name = rw append_assoc (is_below-append root _)

pub is_temp_name-temp_name : (bid : String) → is_temp_name (temp_name bid) ≡ true
unfolding is_temp_name
is_temp_name-temp_name bid =
    rw (temp_name-IsTemp bid, temp_name-begins_with bid) (ground (arith, temp_name-ne-suffix bid))

pub is_temp_name-final_name : (bid : String) → is_temp_name (final_name bid) ≡ false
unfolding is_temp_name
is_temp_name-final_name bid = rw (final_name-IsFinal bid) (ground arith)

module _ (p : Platform) (root : FilePath) (city_id : String) (day : Date) where
  pub is_leftover-temp_path : is_leftover root (temp_path p root city_id day) ≡ true
  unfolding is_leftover
  is_leftover-temp_path =
      rw
        (
          is_below-partition_dir root day city_id (temp_name (batch_id p city_id day)),
          file_name-append,
        )
        (is_temp_name-temp_name (batch_id p city_id day))

  pub is_leftover-final_path : is_leftover root (final_path p root city_id day) ≡ false
  unfolding is_leftover
  is_leftover-final_path =
      rw (file_name-append, is_temp_name-final_name (batch_id p city_id day)) (ground arith)

-- Every reading of the disk after `cleanup_temp_files`: a file below the root whose name fits the
-- pattern is gone, and every other file is what it was.
pub read-cleanup_temp_files :
    (root q : FilePath) (d : Disk)
    → read_file q (cleanup_temp_files root d).1
      ≡ (if is_leftover root q then none else read_file q d)
unfolding cleanup_temp_files
read-cleanup_temp_files root q d = read-remove_where (is_leftover root) q d

-- A landed file outlives every cleanup.
pub read-cleanup_temp_files-final :
    (p : Platform) (root : FilePath) (city_id : String) (day : Date) (d : Disk)
    → read_file (final_path p root city_id day) (cleanup_temp_files root d).1
      ≡ read_file (final_path p root city_id day) d
read-cleanup_temp_files-final p root city_id day d =
    rw (read-cleanup_temp_files, is_leftover-final_path p root city_id day)

-- A cleanup that another run makes between the writing and the renaming of a temporary file takes
-- the file away, whatever was written, and the renaming raises FileNotFoundError.
pub publish-cleanup_temp_files :
    (p : Platform) (root : FilePath) (city_id : String) (day : Date) (d : Disk)
    → (publish
        (temp_path p root city_id day)
        (final_path p root city_id day)
        (cleanup_temp_files root d).1).0
      ≡ err file_not_found
unfolding publish
publish-cleanup_temp_files p root city_id day d =
    rw (read-cleanup_temp_files, is_leftover-temp_path p root city_id day, publish)
