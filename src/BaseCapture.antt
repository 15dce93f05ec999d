-- ===== src/BaseCapture.antt =====
-- The Base state: src/core/base_capture.cpp, which copies a Project into Tribios storage once, or plans
-- the copy, and counts what it takes and what it leaves out.
--
-- The Project is a listing that does not change during the walk. The sizes that `stat` gives are those of
-- the contents, counters do not overflow, the Base directory has no entries before, and the two times of `CaptureStats` are not modelled.
pub mod Excluded
pub mod Walk
pub mod Counted
pub mod Planned
pub mod Clean
mod Tests
use tribios_vfs.Common.{ℕ, Bool, List, Bytes, Option}
use tribios_vfs.CapturePolicy.{CapturePolicy}

pub data FileType : Type 0 where
  regular : FileType
  directory : FileType
  symlink : FileType
  special : FileType

-- What `lstat` says; `mode` is `st_mode & 07777`.
pub record Stat : Type 0 where
  pub device : ℕ
  pub file_type : FileType
  pub mode : ℕ

-- A directory in the order that its iterator gives. An entry has its name, its file's bytes or its link's
-- target, and as a directory the error that reading it ends in, if it does, and its own entries.
-- `lstat` fails for an entry that is gone.
pub data Entries : Type 0 where
  no_more : Entries
  gone : Bytes → Entries → Entries
  entry : Bytes → Stat → Bytes → Option Bytes → Entries → Entries → Entries

pub record CaptureExclusion : Type 0 where
  pub relative : Bytes
  pub is_directory : Bool
  pub reason : Bytes

pub record CaptureStats : Type 0 where
  pub entry_count : ℕ
  pub bytes : ℕ
  pub excluded_entry_count : ℕ
  pub excluded_bytes : ℕ
  pub exclusions : List CaptureExclusion

-- An entry of the Base state by its path in it. The mode is none where the `chmod` that nobody reads
-- the result of failed.
pub data Saved : Type 0 where
  saved_link : Bytes → Bytes → Saved
  saved_directory : Bytes → Option ℕ → Saved
  saved_file : Bytes → Bytes → Option ℕ → Saved

-- Which steps of a capture fail, by the path in the Base state. A file is copied with an error where it
-- cannot be read or its copy not be written.
pub record Disk : Type 0 where
  pub base_fails : Bool
  pub policy_write_fails : Bool
  pub policy_chmod_fails : Bool
  pub link_fails : Bytes → Bool
  pub directory_fails : Bytes → Bool
  pub copy_error : Bytes → Option Bytes
  pub chmod_fails : Bytes → Bool

-- `base_root` is none for a dry run.
pub record CaptureWalk : Type 0 where
  pub source_root : Bytes
  pub base_root : Option Bytes
  pub policy : CapturePolicy
  pub project_device : ℕ
  pub disk : Disk

-- The counts, and the Base state with the newest entry first.
pub record Sink : Type 0 where
  pub stats : CaptureStats
  pub base : List Saved
