-- ===== src/CapturePolicy/GlobTests.antt =====
-- Runs of `match_capture_glob` of src/core/capture_policy.cpp, and a policy of two patterns.
use tribios_vfs.Common.{
  Bool, true, false, [], ◌∷◌, ◌++◌, Bytes, codes, some, length, not, if◌then◌else◌, ◌≡◌, refl,
}
use tribios_vfs.CapturePolicy.{CapturePattern, CapturePolicy}
use tribios_vfs.CapturePolicy.Classes.{
  find_class_end, close_negation, close_first, close_class, with_member, class_matches,
  class_members, any_member, take_low, take_range, take_high,
}
use tribios_vfs.CapturePolicy.Glob.{
  has_failed, remember_failure, enter, after_slash, or_else, match_directories, match_within,
  after_stars, ends_segment, match_directories_behind, match_star, match_literal, match_class,
  match_escaped, match_byte, match_from, match_capture_glob,
}
use tribios_vfs.CapturePolicy.Decide.{pattern_matches, decide, decide-append}

matches : Bytes → Bytes → Bool
unfolding match_capture_glob match_from has_failed remember_failure enter after_slash or_else
    match_directories match_within after_stars ends_segment match_directories_behind match_star
    match_literal match_class match_escaped match_byte find_class_end close_negation close_first
    close_class with_member class_matches class_members any_member take_low take_range take_high
matches glob text = match_capture_glob glob text

star_stops_at_slash : matches (codes "a*c") (codes "ab/c") ≡ false
unfolding matches
star_stops_at_slash = refl

stars_span_directories : matches (codes "src/**/*.o") (codes "src/a/b/x.o") ≡ true
unfolding matches
stars_span_directories = refl

stars_span_none : matches (codes "**/x") (codes "x") ≡ true
unfolding matches
stars_span_none = refl

class_and_question : matches (codes "?[!a-c]\\*") (codes "zd*") ≡ true
unfolding matches
class_and_question = refl

stars_need_a_segment : matches (codes "a**/x") (codes "a/b/x") ≡ false
unfolding matches
stars_need_a_segment = refl

abbrev objects : CapturePattern
objects = record {
  text = codes "*.o";
  line = 1;
  glob = codes "*.o";
  negated = false;
  directory_only = false;
  anchored = false;
}

abbrev kept : CapturePattern
kept = record {
  text = codes "!/lib/*.o";
  line = 2;
  glob = codes "lib/*.o";
  negated = true;
  directory_only = false;
  anchored = true;
}

abbrev policy : CapturePolicy
policy = record {
  present = true;
  source_mode = 0o600;
  source = codes "*.o";
  patterns = objects ∷ [];
}

decide-append_example :
    decide (record policy { patterns = policy.patterns ++ kept ∷ [] }) (codes "lib/a.o") false ≡ (
      if pattern_matches (codes "lib/a.o") false kept
      then record { excluded = not kept.negated; pattern_index = some (length policy.patterns) }
      else decide policy (codes "lib/a.o") false)
decide-append_example = decide-append policy kept (codes "lib/a.o") false
