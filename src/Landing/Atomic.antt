-- ===== src/Landing/Atomic.antt =====
-- Tasks that land batches at once, cut off and cleaned up at any point: the steps of `write_batch`,
-- `clear_partition` and `cleanup_temp_files` in every order, as long as no two tasks write the same
-- temporary file at the same time.
use batch_api_snowflake.Base.{◌≡◌, ◌≢◌, String, Bool, true, List}
use batch_api_snowflake.Base.{some, if◌then◌else◌, arith, eqb, Option-cases, inl, inr}
use batch_api_snowflake.Calendar.{Date}
use batch_api_snowflake.Platform.{Platform}
use batch_api_snowflake.Models.{batch_id}
use batch_api_snowflake.Disk.{
  LandedRecord, File, partial, FilePath, FilePath-discrete, Disk, read_file, write_file,
}
use batch_api_snowflake.Disk.{file_name, remove_where, remove_file, is_below}
use batch_api_snowflake.Landing.{partition_dir, is_temp_name, temp_path, final_path}
use batch_api_snowflake.Landing.{
  start_temp, finish_temp, publish, clear_partition, cleanup_temp_files, is_leftover,
}
use batch_api_snowflake.Landing.Publishing.{
  read-write, read-remove_where, read-remove_file, file_name-append, publish_lem, publish_gone,
}
use batch_api_snowflake.Landing.Cleanup.{is_temp_name-temp_name}

pub data Phase : Type 0 where
  idle writing written : Phase

-- What a task is doing with the temporary file of a path.
abbrev pub Phases : Type 0
Phases = FilePath → Phase

abbrev pub set_phase : FilePath → Phase → Phases → Phases
set_phase tmp ph phases q = if eqb FilePath-discrete q tmp then ph else phases q

pub record State : Type 0 where
  pub disk : Disk
  pub phases : Phases

pub data Step (p : Platform) (root : FilePath) : State → State → Type 0 where
  start :
      (s : State) (city_id : String) (day : Date)
      → s.phases (temp_path p root city_id day) ≡ idle
      → Step p root s (record {
        disk = (start_temp (temp_path p root city_id day) s.disk).1;
        phases = set_phase (temp_path p root city_id day) writing s.phases;
      })
  finish :
      (s : State) (city_id : String) (day : Date) (records : List LandedRecord)
      → s.phases (temp_path p root city_id day) ≡ writing
      → Step p root s (record {
        disk = (finish_temp (temp_path p root city_id day) records s.disk).1;
        phases = set_phase (temp_path p root city_id day) written s.phases;
      })
  rename :
      (s : State) (city_id : String) (day : Date)
      → s.phases (temp_path p root city_id day) ≡ written
      → Step p root s (record {
        disk = (publish (temp_path p root city_id day) (final_path p root city_id day) s.disk).1;
        phases = set_phase (temp_path p root city_id day) idle s.phases;
      })
  killed :
      (s : State) (tmp : FilePath)
      → Step p root s (record s { phases = set_phase tmp idle s.phases })
  cleanup : (s : State) → Step p root s (record s { disk = (cleanup_temp_files root s.disk).1 })
  clear :
      (s : State) (city_id : String) (day : Date)
      → Step p root s (record s { disk = (clear_partition root day city_id s.disk).1 })

pub data Reach (p : Platform) (root : FilePath) (s : State) : State → Type 0 where
  here : Reach p root s s
  next : {t u : State} → Reach p root s t → Step p root t u → Reach p root s u

pub record IsAtomic (s : State) : Type 0 where
  -- a half-written file has a temporary name
  pub whole : (q : FilePath) → read_file q s.disk ≡ some partial → is_temp_name (file_name q) ≡ true
  -- a file that is about to be renamed is not half written
  pub ready : (q : FilePath) → s.phases q ≡ written → read_file q s.disk ≢ some partial

temp_path-IsTemp :
    (p : Platform) (root : FilePath) (city_id : String) (day : Date)
    → is_temp_name (file_name (temp_path p root city_id day)) ≡ true
temp_path-IsTemp p root city_id day =
    rw (file_name-append, is_temp_name-temp_name (batch_id p city_id day))

-- Taking files away keeps the invariant.
shrink-IsAtomic :
    (s : State) (test : FilePath → Bool)
    → IsAtomic s
    → IsAtomic (record s { disk = remove_where test s.disk })
shrink-IsAtomic s test v = record {
  whole = λ q. rw read-remove_where (ground (arith, v.whole q));
  ready = λ q. rw read-remove_where (ground (arith, v.ready q));
}

start-IsAtomic :
    (s : State) (tmp : FilePath)
    → is_temp_name (file_name tmp) ≡ true
    → IsAtomic s
    → IsAtomic
        (record { disk = (start_temp tmp s.disk).1; phases = set_phase tmp writing s.phases })
unfolding start_temp
start-IsAtomic s tmp named v = record {
  whole = λ q. rw read-write (ground (arith, v.whole q));
  ready = λ q. rw read-write (ground (arith, v.ready q));
}

finish-IsAtomic :
    (s : State) (tmp : FilePath) (records : List LandedRecord)
    → IsAtomic s
    → IsAtomic (record {
      disk = (finish_temp tmp records s.disk).1;
      phases = set_phase tmp written s.phases;
    })
unfolding finish_temp
finish-IsAtomic s tmp records v = record {
  whole = λ q. rw read-write (ground (arith, v.whole q));
  ready = λ q. rw read-write (ground (arith, v.ready q));
}

idle-IsAtomic :
    (s : State) (tmp : FilePath)
    → IsAtomic s
    → IsAtomic (record s { phases = set_phase tmp idle s.phases })
idle-IsAtomic s tmp v = record { whole = v.whole; ready = λ q. ground (arith, v.ready q) }

-- The disk after the renaming, if the file was still there.
renamed-IsAtomic :
    (s : State) (tmp final : FilePath) (f : File)
    → read_file tmp s.disk ≡ some f
    → s.phases tmp ≡ written
    → IsAtomic s
    → IsAtomic (record {
      disk = write_file final f (remove_file tmp s.disk);
      phases = set_phase tmp idle s.phases;
    })
renamed-IsAtomic s tmp final f found done v = record {
  whole = λ q. simp (read-write, read-remove_file) (ground (arith, v.whole q, v.ready tmp));
  ready = λ q. simp (read-write, read-remove_file) (ground (arith, v.ready q, v.ready tmp));
}

rename-IsAtomic :
    (s : State) (tmp final : FilePath)
    → s.phases tmp ≡ written
    → IsAtomic s
    → IsAtomic
        (record { disk = (publish tmp final s.disk).1; phases = set_phase tmp idle s.phases })
rename-IsAtomic s tmp final done v = elim (Option-cases (read_file tmp s.disk)) [
  | inl gone ↦ rw (publish_gone tmp final s.disk gone) (idle-IsAtomic s tmp v)
  | inr (f, found) ↦
      rw (publish_lem tmp final f s.disk found) (renamed-IsAtomic s tmp final f found done v)
]

Step-IsAtomic :
    {p : Platform} {root : FilePath} {s t : State} → Step p root s t → IsAtomic s → IsAtomic t
Step-IsAtomic {p} {root} (start s city_id day free) v =
    start-IsAtomic s (temp_path p root city_id day) (temp_path-IsTemp p root city_id day) v
Step-IsAtomic {p} {root} (finish s city_id day records open') v =
    finish-IsAtomic s (temp_path p root city_id day) records v
Step-IsAtomic {p} {root} (rename s city_id day done) v =
    rename-IsAtomic s (temp_path p root city_id day) (final_path p root city_id day) done v
Step-IsAtomic (killed s tmp) v = idle-IsAtomic s tmp v
Step-IsAtomic {root} (cleanup s) v =
    unfold cleanup_temp_files in shrink-IsAtomic s (is_leftover root) v
Step-IsAtomic {root} (clear s city_id day) v =
    unfold clear_partition in shrink-IsAtomic s (is_below (partition_dir root day city_id)) v

-- From a state in which the invariant holds, such as an empty landing zone, whatever tasks do and
-- wherever they are killed, a half-written file is found under a temporary name only.
pub Reach-IsAtomic :
    {p : Platform} {root : FilePath} {s t : State} → IsAtomic s → Reach p root s t → IsAtomic t
Reach-IsAtomic v here = v
Reach-IsAtomic v (next r st) = Step-IsAtomic st (Reach-IsAtomic v r)
