-- ===== src/CapturePolicy/Tests.antt =====
-- Runs of src/core/capture_policy.cpp, and the theorems at concrete lines.
use tribios_vfs.Common.{true, [], ◌∷◌, Bytes, codes, to_string, digits, some, ◌≡◌, refl}
use tribios_vfs.Paths.{has_slash}
use tribios_vfs.Store.Sql.{ok, error}
use tribios_vfs.CapturePolicy.{CapturePattern}
use tribios_vfs.CapturePolicy.Classes.{
  find_class_end, close_negation, close_first, close_class, with_member, class_matches,
  class_members, any_member, take_low, take_range, take_high,
}
use tribios_vfs.CapturePolicy.Utf8.{is_valid_utf8, scan, lead_of}
use tribios_vfs.CapturePolicy.Parse.{
  parse_pattern_line, ends_with, begins_with, parse_trimmed, trim_unescaped_trailing_whitespace,
  trim, is_blank_end, count_backslashes, check_pattern, pattern_of, has_empty_segment,
  has_double_slash, with_valid, validate_glob, validate, compile, has_nul, with_patterns,
  compile_lines, push_pattern,
}
use tribios_vfs.CapturePolicy.Accepted.{IsAccepted, parse_pattern_line-IsAccepted}

abbrev line : Bytes
line = codes "!/out/[a-c]*/  "

abbrev pattern' : CapturePattern
pattern' = record {
  text = codes "!/out/[a-c]*/";
  line = 3;
  glob = codes "out/[a-c]*";
  negated = true;
  directory_only = true;
  anchored = true;
}

line_parses : parse_pattern_line line 3 ≡ ok (some pattern')
unfolding parse_pattern_line ends_with begins_with parse_trimmed trim_unescaped_trailing_whitespace
    trim is_blank_end count_backslashes check_pattern pattern_of has_empty_segment has_double_slash
    with_valid validate_glob validate has_slash find_class_end close_negation close_first
    close_class with_member
line_parses = refl

-- An escaped space stays, a bracket that is never closed is refused.
escaped_space :
    compile (codes "a\\ \n[b") ≡ error (codes ".tribiosignore:2: unterminated character class")
unfolding compile has_nul is_valid_utf8 scan lead_of with_patterns compile_lines push_pattern
    to_string digits parse_pattern_line ends_with begins_with parse_trimmed
    trim_unescaped_trailing_whitespace trim is_blank_end count_backslashes check_pattern pattern_of
    has_empty_segment has_double_slash with_valid validate_glob validate has_slash find_class_end
    close_negation close_first close_class with_member
escaped_space = refl

abbrev class : Bytes
class = codes "]a-c\\]]d"

class_found : find_class_end class ≡ some (codes "]a-c\\]", codes "d")
unfolding find_class_end close_negation close_first close_class with_member
class_found = refl

member_b : class_matches (codes "]a-c\\]") b'b' ≡ true
unfolding class_matches class_members any_member take_low take_range take_high
member_b = refl

parse_pattern_line-IsAccepted_example : IsAccepted pattern'
parse_pattern_line-IsAccepted_example = parse_pattern_line-IsAccepted line 3 pattern' line_parses

-- U+00E9 is valid, and U+D800 behind it is not.
abbrev accented : Bytes
accented = 0xc3 ∷ 0xa9 ∷ []

accented_is_valid : is_valid_utf8 accented ≡ true
unfolding is_valid_utf8 scan lead_of
accented_is_valid = refl
