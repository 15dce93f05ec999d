-- ===== src/BaseCapture/Tests.antt =====
-- Runs of src/core/base_capture.cpp, and the theorems at a Project with a policy.
use tribios_vfs.Common.{
  true, false, List, [], ◌∷◌, codes, to_string, digits, none, some, length, ◌≡◌, refl, ◌⊎◌, All,
  bytes_eq,
}
use tribios_vfs.Paths.{join_relative, has_slash}
use tribios_vfs.Store.Sql.{ok, error}
use tribios_vfs.CapturePolicy.{CapturePattern, CapturePolicy}
use tribios_vfs.BaseCapture.{
  regular, directory, symlink, Stat, no_more, gone, entry, CaptureStats, Saved, saved_link,
  saved_directory, saved_file, Disk,
}
use tribios_vfs.CapturePolicy.Classes.{
  any_member, class_matches, class_members, close_class, close_first, close_negation,
  find_class_end, take_high, take_low, take_range, with_member,
}
use tribios_vfs.CapturePolicy.Decide.{decide, decide_from, final_segment, pattern_matches}
use tribios_vfs.CapturePolicy.Glob.{
  after_slash, after_stars, ends_segment, enter, has_failed, match_byte, match_capture_glob,
  match_class, match_directories, match_directories_behind, match_escaped, match_from,
  match_literal, match_star, match_within, or_else, remember_failure,
}
use tribios_vfs.CapturePolicy.Describe.{describe_index, describe_pattern, pattern_text}
use tribios_vfs.BaseCapture.Excluded.{
  is_directory, is_passed_over, is_capturable_type, add_excluded, count_excluded_entries,
  count_excluded_tree, is_regular, within,
}
use tribios_vfs.BaseCapture.Walk.{
  capture_base_state, walk_project, walk_root, stats_of, walk_made, base_missing, and_then,
  capture_policy_file, write_compiled_policy, capture_directory, read_directory, capture_entries,
  is_left_out, add_bytes, add_entry, capture_decided, capture_kind, capture_link, copied, copy_file,
  create_directory, exclude, no_stats, preserved, save, source_path, plan_base_state_capture,
  Project,
}
use tribios_vfs.BaseCapture.Counted.{capture_base_state-counts}
use tribios_vfs.BaseCapture.Counted.Balanced.{saved_bytes}
use tribios_vfs.BaseCapture.Clean.{capture_base_state-IsClean}
use tribios_vfs.BaseCapture.Clean.Entry.{ArePlain, is_metadata, path_of}
use tribios_vfs.BaseCapture.Planned.{capture_base_state-fails, plan_base_state_capture-capture}
use tribios_vfs.BaseCapture.Planned.Writes.{StepFails}

abbrev directory' : Stat
directory' = record { device = 7; file_type = directory; mode = 0o755 }

abbrev regular' : Stat
regular' = record { device = 7; file_type = regular; mode = 0o644 }

-- A `.git`, a directory `d` with a file in it, a link, a file on another device, and one that is gone.
abbrev project : Project
project = record {
  root = codes "/p";
  stat = some directory';
  unreadable = none;
  entries = entry (codes ".git") directory' [] none no_more (
      entry (codes "d") directory' [] none
        (entry (codes "f") regular' (codes "abc") none no_more
          (entry (codes "a.o") regular' (codes "ob") none no_more no_more))
        (entry (codes "l") (record directory' { file_type = symlink }) (codes "d/f") none no_more
          (entry (codes "m") (record regular' { device = 8 }) (codes "x") none no_more
            (gone (codes "g") no_more))));
}

abbrev objects : CapturePattern
objects = record {
  text = codes "*.o";
  line = 1;
  glob = codes "*.o";
  negated = false;
  directory_only = false;
  anchored = false;
}

abbrev policy : CapturePolicy
policy = record {
  present = true;
  source_mode = 0o600;
  source = codes "*.o";
  patterns = objects ∷ [];
}

abbrev disk : Disk
disk = record {
  base_fails = false;
  policy_write_fails = false;
  policy_chmod_fails = false;
  link_fails = λ p. false;
  directory_fails = λ p. false;
  copy_error = λ p. none;
  chmod_fails = λ p. bytes_eq p (codes "d");
}

abbrev other : Disk
other = record disk { base_fails = true }

abbrev stats : CaptureStats
stats = record {
  entry_count = 4;
  bytes = 6;
  excluded_entry_count = 1;
  excluded_bytes = 2;
  exclusions =
      record {
        relative = codes "d/a.o";
        is_directory = false;
        reason = codes ".tribiosignore:1: *.o";
      }
      ∷ [];
}

abbrev saved : List Saved
saved =
    saved_link (codes "l") (codes "d/f")
    ∷ saved_file (codes "d/f") (codes "abc") (some 0o644)
    ∷ saved_directory (codes "d") none
    ∷ saved_file (codes ".tribiosignore") (codes "*.o") (some 0o600)
    ∷ []

captured : capture_base_state disk project (codes "/b") policy ≡ (ok stats, saved)
unfolding capture_base_state walk_project walk_root is_directory stats_of walk_made base_missing
    and_then capture_policy_file write_compiled_policy capture_directory read_directory
    capture_entries is_left_out is_passed_over is_capturable_type add_bytes add_entry add_excluded
    capture_decided capture_kind capture_link copied copy_file count_excluded_entries
    count_excluded_tree create_directory describe_index describe_pattern exclude is_regular no_stats
    pattern_text preserved save source_path within any_member class_matches class_members
    close_class close_first close_negation find_class_end take_high take_low take_range with_member
    decide decide_from final_segment pattern_matches after_slash after_stars ends_segment enter
    has_failed match_byte match_capture_glob match_class match_directories match_directories_behind
    match_escaped match_from match_literal match_star match_within or_else remember_failure digits
    to_string has_slash join_relative bytes_eq
captured = refl

capture_base_state-counts_example :
    (stats.entry_count ≡ length saved) × (stats.bytes ≡ saved_bytes saved)
capture_base_state-counts_example =
    capture_base_state-counts disk project (codes "/b") policy stats saved captured

plan_base_state_capture-capture_example :
    plan_base_state_capture other project policy ≡ (ok stats, [])
plan_base_state_capture-capture_example =
    plan_base_state_capture-capture disk other project (codes "/b") policy stats saved captured

abbrev broken : Disk
broken = record disk { copy_error = λ p. some (codes "No space left on device") }

abbrev stopped_at : List Saved
stopped_at =
    saved_directory (codes "d") none
    ∷ saved_file (codes ".tribiosignore") (codes "*.o") (some 0o600)
    ∷ []

stopped :
    capture_base_state broken project (codes "/b") policy
    ≡ (error (codes "base capture: cannot copy d/f: No space left on device"), stopped_at)
unfolding capture_base_state walk_project walk_root is_directory stats_of walk_made base_missing
    and_then capture_policy_file write_compiled_policy capture_directory read_directory
    capture_entries is_left_out is_passed_over is_capturable_type add_bytes add_entry add_excluded
    capture_decided capture_kind capture_link copied copy_file count_excluded_entries
    count_excluded_tree create_directory describe_index describe_pattern exclude is_regular no_stats
    pattern_text preserved save source_path within any_member class_matches class_members
    close_class close_first close_negation find_class_end take_high take_low take_range with_member
    decide decide_from final_segment pattern_matches after_slash after_stars ends_segment enter
    has_failed match_byte match_capture_glob match_class match_directories match_directories_behind
    match_escaped match_from match_literal match_star match_within or_else remember_failure digits
    to_string has_slash join_relative bytes_eq
stopped = refl

capture_base_state-fails_example :
    StepFails broken (codes "/b") (codes "base capture: cannot copy d/f: No space left on device")
    ⊎ ((plan_base_state_capture other project policy).0
        ≡ error (codes "base capture: cannot copy d/f: No space left on device"))
capture_base_state-fails_example =
    capture_base_state-fails broken other project (codes "/b") policy
      (codes "base capture: cannot copy d/f: No space left on device") stopped_at stopped

plain : ArePlain project.entries
unfolding has_slash
plain = (refl, refl, (refl, refl, (refl, refl, (refl, refl, tt))))

capture_base_state-IsClean_example :
    All
      (λ x. is_metadata (path_of x) ≡ false)
      (capture_base_state disk project (codes "/b") policy).1
capture_base_state-IsClean_example =
    capture_base_state-IsClean disk project (codes "/b") policy plain
