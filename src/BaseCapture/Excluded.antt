-- ===== src/BaseCapture/Excluded.antt =====
-- What the walk of src/core/base_capture.cpp passes over, and what it counts of an excluded tree.
use tribios_vfs.Common.{
  ℕ, ◌+◌, Bool, true, false, Bytes, length, Option, none, some, ◌==◌, ◌||◌, not, if◌then◌else◌,
}
use tribios_vfs.BaseCapture.{
  FileType, regular, directory, symlink, special, Stat, Entries, no_more, gone, entry, CaptureStats,
}

unfoldable pub is_capturable_type : FileType → Bool
is_capturable_type regular = true
is_capturable_type directory = true
is_capturable_type symlink = true
is_capturable_type special = false

unfoldable pub is_directory : FileType → Bool
is_directory directory = true
is_directory regular = false
is_directory symlink = false
is_directory special = false

unfoldable pub is_regular : FileType → Bool
is_regular regular = true
is_regular directory = false
is_regular symlink = false
is_regular special = false

-- A nested mount or a special file.
unfoldable pub is_passed_over : ℕ → Stat → Bool
is_passed_over device st = not (st.device == device) || not (is_capturable_type st.file_type)

unfoldable pub add_excluded : Stat → Bytes → CaptureStats → CaptureStats
add_excluded st content stats = record stats {
  excluded_entry_count = stats.excluded_entry_count + 1;
  excluded_bytes =
      if is_regular st.file_type
      then stats.excluded_bytes + length content
      else stats.excluded_bytes;
}

unfoldable pub within :
    Stat → Option Bytes → (CaptureStats → CaptureStats) → CaptureStats → CaptureStats
within st (some e) inner stats = stats
within st none inner stats = if is_directory st.file_type then inner stats else stats

unfoldable pub count_excluded_entries : ℕ → Entries → CaptureStats → CaptureStats
count_excluded_entries device no_more stats = stats
count_excluded_entries device (gone name rest) stats = count_excluded_entries device rest stats
count_excluded_entries device (entry name st content unreadable inside rest) stats =
    count_excluded_entries device rest (
      if is_passed_over device st
      then stats
      else within st unreadable (count_excluded_entries device inside)
          (add_excluded st content stats))

unfoldable pub count_excluded_tree :
    ℕ → Stat → Bytes → Option Bytes → Entries → CaptureStats → CaptureStats
count_excluded_tree device st content unreadable inside stats =
    within st unreadable (count_excluded_entries device inside) (add_excluded st content stats)
