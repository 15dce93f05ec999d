-- ===== src/Paths.antt =====
-- Relative paths of the view: src/core/paths.cpp.
pub mod Normal
pub mod Parent
mod Tests
use tribios_vfs.Common.{
  ℕ, Bool, true, false, List, [], ◌∷◌, ◌++◌, Bytes, codes, bytes_eq, drop_last, is_empty, ◌==◌, not,
  ◌&&◌, if◌then◌else◌, ◌≡◌, refl,
}

abbrev pub slash : ℕ
slash = b'/'

-- `take_segment`: what a finished segment does to the segments taken so far.
unfoldable pub take_segment : List Bytes → Bytes → List Bytes
unfolding bytes_eq
take_segment segments segment =
    if bytes_eq segment (codes "..")
    then drop_last segments
    else if not (is_empty segment) && not (bytes_eq segment (codes "."))
    then segments ++ segment ∷ []
    else segments

-- The loop over the characters, and the last `take_segment` behind it.
unfoldable pub take_segments : Bytes → List Bytes → Bytes → List Bytes
take_segments [] segments segment = take_segment segments segment
take_segments (c ∷ path) segments segment = elim (c == slash) [
  | true ↦ take_segments path (take_segment segments segment) []
  | false ↦ take_segments path segments (segment ++ c ∷ [])
]

-- The loop that writes the segments, a slash before each but the first.
unfoldable pub write_segments : List Bytes → Bytes → Bytes
write_segments [] normalized = normalized
write_segments (taken ∷ segments) normalized =
    write_segments segments
      ((if is_empty normalized then normalized else normalized ++ slash ∷ []) ++ taken)

unfoldable pub normalize_relative : Bytes → Bytes
unfolding take_segments take_segment write_segments
normalize_relative path = write_segments (take_segments path [] []) []

unfoldable pub has_slash : Bytes → Bool
has_slash [] = false
has_slash (c ∷ s) = if c == slash then true else has_slash s

-- The text before the last slash, or nothing where there is no slash.
unfoldable pub parent_of : Bytes → Bytes
unfolding has_slash
parent_of [] = []
parent_of (c ∷ s) = let rest = parent_of s in if has_slash s then c ∷ rest else []

unfoldable pub join_relative : Bytes → Bytes → Bytes
join_relative parent name = if is_empty parent then name else parent ++ slash ∷ name
