-- ===== src/CapturePolicy/Glob.antt =====
-- `match_capture_glob` of src/core/capture_policy.cpp. A position in the glob or the text is given by
-- the bytes from it on, and the pair of positions in the table of failed states by their numbers.
use Prim.Native.Nat.{zero, suc}
use tribios_vfs.Common.{
  ℕ, Bool, true, false, List, [], ◌∷◌, Bytes, Option, none, some, length, is_empty, ◌==◌, ◌&&◌,
  ◌||◌, not, if◌then◌else◌,
}
use tribios_vfs.Paths.{slash}
use tribios_vfs.CapturePolicy.Classes.{open_bracket, backslash, find_class_end, class_matches}

abbrev pub star : ℕ
star = 0x2a

abbrev pub question : ℕ
question = 0x3f

abbrev pub Failed : Type 0
Failed = List (ℕ × ℕ)

-- `match_capture_glob_from`: whether the position in the glob starts a segment, the glob, the text and
-- the table, which comes back with the states that failed.
abbrev pub Matcher : Type 0
Matcher = Bool → Bytes → Bytes → Failed → Bool × Failed

unfoldable pub has_failed : Failed → ℕ → ℕ → Bool
has_failed [] g t = false
has_failed ((i, j) ∷ failed) g t = ((i == g) && (j == t)) || has_failed failed g t

unfoldable pub remember_failure : ℕ → ℕ → Bool × Failed → Bool × Failed
remember_failure g t (true, failed) = (true, failed)
remember_failure g t (false, failed) = (false, (g, t) ∷ failed)

-- A call: the table is asked first, and a failure is put there.
unfoldable pub enter : Matcher → Matcher
enter match starts glob text failed = elim (has_failed failed (length glob) (length text)) [
  | true ↦ (false, failed)
  | false ↦ remember_failure (length glob) (length text) (match starts glob text failed)
]

-- The text behind its next slash.
unfoldable pub after_slash : Bytes → Option Bytes
after_slash [] = none
after_slash (c ∷ text) = if c == slash then some text else after_slash text

-- The loops over `start`: the match from there, or else from the next start.
unfoldable pub or_else : Bool × Failed → (Failed → Bool × Failed) → Bool × Failed
or_else (true, failed) next = (true, failed)
or_else (false, failed) next = next failed

-- `**/`: every directory beneath; there are no more than bytes of text.
unfoldable pub match_directories : ℕ → Matcher → Bytes → Bytes → Failed → Bool × Failed
match_directories zero match glob text failed = (false, failed)
match_directories (suc n) match glob text failed = or_else (enter match true glob text failed) λ f.
    elim (after_slash text) [
      | none ↦ (false, f)
      | some rest ↦ match_directories n match glob rest f
    ]

-- `*`: every start up to the next slash or the end.
unfoldable pub match_within : Matcher → Bytes → Bytes → Failed → Bool × Failed
match_within match glob [] failed = enter match false glob [] failed
match_within match glob (c ∷ text) failed =
    or_else (enter match false glob (c ∷ text) failed)
      λ f. elim (c == slash) [ true ↦ (false, f) | false ↦ match_within match glob text f ]

-- The glob behind its stars.
unfoldable pub after_stars : Bytes → Bytes
after_stars [] = []
after_stars (c ∷ glob) = let rest = after_stars glob in if c == star then rest else c ∷ glob

unfoldable pub ends_segment : Bytes → Bool
ends_segment [] = true
ends_segment (c ∷ glob) = c == slash

unfoldable pub match_directories_behind : Matcher → Bytes → Bytes → Failed → Bool × Failed
match_directories_behind match [] text failed = (true, failed)
match_directories_behind match (c ∷ glob) text failed =
    match_directories (suc (length text)) match glob text failed

-- `glob` is what stands behind the first star.
unfoldable pub match_star : Matcher → Bool → Bytes → Bytes → Failed → Bool × Failed
match_star match starts glob text failed =
    let rest = after_stars glob in
    let two_stars = not (length glob == length rest) in
    elim (two_stars && starts && ends_segment rest) [
      | true ↦ match_directories_behind match rest text failed
      | false ↦ match_within match rest text failed
    ]

unfoldable pub match_literal : Matcher → ℕ → Bytes → ℕ → Bytes → Failed → Bool × Failed
match_literal match g glob current text failed = elim (g == current) [
  | true ↦ match (g == slash) glob text failed
  | false ↦ (false, failed)
]

unfoldable pub match_class : Matcher → Option (Bytes × Bytes) → ℕ → Bytes → Failed → Bool × Failed
match_class match none current text failed = (false, failed)
match_class match (some (members, glob)) current text failed =
    elim (not (current == slash) && class_matches members current) [
      | true ↦ match false glob text failed
      | false ↦ (false, failed)
    ]

unfoldable pub match_escaped : Matcher → Bytes → ℕ → Bytes → Failed → Bool × Failed
match_escaped match [] current text failed = (false, failed)
match_escaped match (g ∷ glob) current text failed = match_literal match g glob current text failed

-- One byte of the glob, which is no star, against one byte of the text.
unfoldable pub match_byte : Matcher → ℕ → Bytes → ℕ → Bytes → Failed → Bool × Failed
match_byte match g glob current text failed = elim (g == question) [
  | true ↦ elim (current == slash) [ true ↦ (false, failed) | false ↦ match false glob text failed ]
  | false ↦ elim (g == open_bracket) [
    | true ↦ match_class match (find_class_end glob) current text failed
    | false ↦ elim (g == backslash) [
      | true ↦ match_escaped match glob current text failed
      | false ↦ match_literal match g glob current text failed
    ]
  ]
]

-- The loop over the glob, each turn of which takes a byte of it or more.
unfoldable pub match_from : ℕ → Matcher
match_from zero starts glob text failed = (false, failed)
match_from (suc n) starts [] text failed = (is_empty text, failed)
match_from (suc n) starts (g ∷ glob) text failed = elim (g == star) [
  | true ↦ match_star (match_from n) starts glob text failed
  | false ↦ elim text [
    | [] ↦ (false, failed)
    | current ∷ rest ↦ match_byte (match_from n) g glob current rest failed
  ]
]

unfoldable pub match_capture_glob : Bytes → Bytes → Bool
match_capture_glob glob text = (enter (match_from (suc (length glob))) true glob text []).0
