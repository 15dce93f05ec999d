-- ===== src/CapturePolicy/Parse.antt =====
-- The lines of a `.tribiosignore`: `parse_pattern_line` and `CapturePolicy::compile` of
-- src/core/capture_policy.cpp.
use Prim.Native.Nat.{zero, suc}
use tribios_vfs.Common.{
  ℕ, ◌+◌, ◌%◌, Bool, true, false, List, [], ◌∷◌, ◌++◌, Bytes, codes, to_string, is_empty, length,
  drop_last, Option, none, some, ◌==◌, ◌&&◌, ◌||◌, not, if◌then◌else◌,
}
use tribios_vfs.Paths.{slash, has_slash}
use tribios_vfs.Store.Sql.{Outcome, ok, error}
use tribios_vfs.CapturePolicy.{CapturePattern, CapturePolicy}
use tribios_vfs.CapturePolicy.Classes.{backslash, open_bracket, find_class_end}
use tribios_vfs.CapturePolicy.Utf8.{is_valid_utf8}

-- `line.back() == c`, false of an empty line.
unfoldable pub ends_with : ℕ → Bytes → Bool
ends_with c [] = false
ends_with c (d ∷ []) = d == c
ends_with c (d ∷ e ∷ s) = ends_with c (e ∷ s)

unfoldable pub begins_with : ℕ → Bytes → Bool
begins_with c [] = false
begins_with c (d ∷ s) = d == c

-- The number of backslashes at the end of a line.
unfoldable pub count_backslashes : ℕ → Bytes → ℕ
count_backslashes zero line = 0
count_backslashes (suc n) line =
    let more = count_backslashes n (drop_last line) in
    if ends_with backslash line then more + 1 else 0

unfoldable pub is_blank_end : Bytes → Bool
is_blank_end line = ends_with 0x20 line || ends_with 0x09 line

-- At most as many bytes are dropped as the line has.
unfoldable pub trim : ℕ → Bytes → Bytes
trim zero line = line
trim (suc n) line =
    let shorter = drop_last line in
    let rest = trim n shorter in
    if not (is_blank_end line)
    then line
    else if count_backslashes (length shorter) shorter % 2 == 1
    then line
    else rest

unfoldable pub trim_unescaped_trailing_whitespace : Bytes → Bytes
trim_unescaped_trailing_whitespace line = trim (length line) line

-- Each turn takes a byte or more.
unfoldable pub validate : ℕ → Bytes → Outcome (Unit {0})
validate zero glob = ok tt
validate (suc n) [] = ok tt
validate (suc n) (c ∷ []) =
    if c == backslash
    then error (codes "pattern ends with an unfinished escape")
    else if c == open_bracket
    then error (codes "unterminated character class")
    else ok tt
validate (suc n) (c ∷ d ∷ glob) = elim (c == backslash) [
  | true ↦ validate n glob
  | false ↦ elim (c == open_bracket) [
    | false ↦ validate n (d ∷ glob)
    | true ↦ elim (find_class_end (d ∷ glob)) [
      | none ↦ error (codes "unterminated character class")
      | some (members, rest) ↦ validate n rest
    ]
  ]
]

unfoldable pub validate_glob : Bytes → Outcome (Unit {0})
validate_glob glob = validate (length glob) glob

-- `glob.find("//")`.
unfoldable pub has_double_slash : Bytes → Bool
has_double_slash [] = false
has_double_slash (c ∷ []) = false
has_double_slash (c ∷ d ∷ s) = ((c == slash) && (d == slash)) || has_double_slash (d ∷ s)

unfoldable pub has_empty_segment : Bytes → Bool
has_empty_segment glob = begins_with slash glob || ends_with slash glob || has_double_slash glob

unfoldable pub with_valid : CapturePattern → Outcome (Unit {0}) → Outcome (Option CapturePattern)
with_valid pattern (error m) = error m
with_valid pattern (ok u) = ok (some pattern)

-- The tests on the glob that is left.
unfoldable pub check_pattern : CapturePattern → Outcome (Option CapturePattern)
check_pattern pattern =
    if is_empty pattern.glob
    then error (codes "pattern names no path")
    else if has_empty_segment pattern.glob
    then error (codes "pattern contains an empty path segment")
    else with_valid pattern (validate_glob pattern.glob)

abbrev pub drop_if : Bool → Bytes → Bytes
drop_if true (c ∷ s) = s
drop_if _ s = s

abbrev pub drop_last_if : Bool → Bytes → Bytes
drop_last_if true s = drop_last s
drop_last_if false s = s

-- The pattern of a line that is not empty once it is trimmed.
unfoldable pub pattern_of : Bytes → ℕ → CapturePattern
pattern_of line number =
    let negated = begins_with 0x21 line in
    let bare = drop_if negated line in
    let directory_only = ends_with slash bare in
    let named = drop_last_if directory_only bare in
    let glob = drop_if (begins_with slash named) named in
    record {
      text = line;
      line = number;
      glob = glob;
      negated = negated;
      directory_only = directory_only;
      anchored = begins_with slash named || has_slash glob;
    }

unfoldable pub parse_trimmed : Bytes → ℕ → Outcome (Option CapturePattern)
parse_trimmed line number =
    if is_empty line then ok none else check_pattern (pattern_of line number)

unfoldable pub parse_pattern_line : Bytes → ℕ → Outcome (Option CapturePattern)
parse_pattern_line line number =
    let ended = drop_last_if (ends_with 0x0d line) line in
    if is_empty ended || begins_with 0x23 ended
    then ok none
    else parse_trimmed (trim_unescaped_trailing_whitespace ended) number

abbrev pub file_name : Bytes
file_name = codes ".tribiosignore"

unfoldable pub push_pattern :
    ℕ
    → Outcome (Option CapturePattern)
    → Outcome (List CapturePattern)
    → Outcome (List CapturePattern)
push_pattern number (error m) rest =
    error (file_name ++ codes ":" ++ to_string number ++ codes ": " ++ m)
push_pattern number (ok none) rest = rest
push_pattern number (ok (some p)) (error m) = error m
push_pattern number (ok (some p)) (ok ps) = ok (p ∷ ps)

-- The loop over the lines: `line` is what was read of line `number`. No line starts at the end.
unfoldable pub compile_lines : Bytes → ℕ → Bytes → Outcome (List CapturePattern)
compile_lines line number [] =
    if is_empty line then ok [] else push_pattern number (parse_pattern_line line number) (ok [])
compile_lines line number (c ∷ source) = elim (c == 0x0a) [
  | true ↦
      push_pattern number (parse_pattern_line line number) (compile_lines [] (number + 1) source)
  | false ↦ compile_lines (line ++ c ∷ []) number source
]

unfoldable pub has_nul : Bytes → Bool
has_nul [] = false
has_nul (c ∷ s) = (c == 0) || has_nul s

unfoldable pub with_patterns : Bytes → Outcome (List CapturePattern) → Outcome CapturePolicy
with_patterns source (error m) = error m
with_patterns source (ok ps) =
    ok (record { present = true; source_mode = 0o600; source = source; patterns = ps })

unfoldable pub compile : Bytes → Outcome CapturePolicy
compile source =
    if has_nul source
    then error (file_name ++ codes ": contains a NUL byte")
    else if not (is_valid_utf8 source)
    then error (file_name ++ codes ": is not valid UTF-8")
    else with_patterns source (compile_lines [] 1 source)
