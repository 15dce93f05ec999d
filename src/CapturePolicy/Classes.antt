-- ===== src/CapturePolicy/Classes.antt =====
-- Character classes of the globs of src/core/capture_policy.cpp. A position in a glob is given by the
-- bytes from it on.
use Prim.Native.Nat.{zero, suc}
use tribios_vfs.Common.{
  ℕ, leb, Bool, true, false, [], ◌∷◌, Bytes, Option, none, some, length, ◌==◌, ◌&&◌, ◌||◌, not,
  if◌then◌else◌,
}

abbrev pub open_bracket : ℕ
open_bracket = 0x5b

abbrev pub close_bracket : ℕ
close_bracket = 0x5d

abbrev pub backslash : ℕ
backslash = 0x5c

abbrev pub minus : ℕ
minus = 0x2d

abbrev pub is_negation : ℕ → Bool
is_negation c = (c == 0x21) || (c == 0x5e)

-- A class split at its closing bracket: its members and the bytes behind it.
unfoldable pub with_member : ℕ → Option (Bytes × Bytes) → Option (Bytes × Bytes)
with_member c none = none
with_member c (some (members, rest)) = some (c ∷ members, rest)

-- The loop of `find_class_end`: to the first bracket that no backslash escapes.
unfoldable pub close_class : Bytes → Option (Bytes × Bytes)
close_class [] = none
close_class (c ∷ []) = if c == close_bracket then some ([], []) else none
close_class (c ∷ d ∷ glob) = elim (c == close_bracket) [
  | true ↦ some ([], d ∷ glob)
  | false ↦ elim (c == backslash) [
    | true ↦ with_member c (with_member d (close_class glob))
    | false ↦ with_member c (close_class (d ∷ glob))
  ]
]

-- A bracket straight after the opening one, or after the negation, is a member.
unfoldable pub close_first : Bytes → Option (Bytes × Bytes)
close_first [] = none
close_first (c ∷ glob) =
    if c == close_bracket then with_member c (close_class glob) else close_class (c ∷ glob)

unfoldable pub close_negation : Bytes → Option (Bytes × Bytes)
close_negation [] = none
close_negation (c ∷ glob) =
    if is_negation c then with_member c (close_first glob) else close_first (c ∷ glob)

-- `find_class_end`, behind the opening bracket: `none` is kNoClassEnd.
unfoldable pub find_class_end : Bytes → Option (Bytes × Bytes)
find_class_end glob = close_negation glob

-- A member that a backslash may escape, and the bytes behind it. The source reads the closing
-- bracket for a backslash that ends the class, which `close_class` rules out.
unfoldable pub take_low : Bytes → ℕ × Bytes
take_low [] = (close_bracket, [])
take_low (c ∷ []) = if c == backslash then (close_bracket, []) else (c, [])
take_low (c ∷ d ∷ members) = if c == backslash then (d, members) else (c, d ∷ members)

-- The end of a range, whose backslash counts as one only with a member behind it.
unfoldable pub take_high : ℕ → Bytes → ℕ × Bytes
take_high c [] = (c, [])
take_high c (d ∷ members) = if c == backslash then (d, members) else (c, d ∷ members)

-- `-` is a range only with a member behind it.
unfoldable pub take_range : ℕ → Bytes → ℕ × Bytes
take_range low [] = (low, [])
take_range low (c ∷ []) = (low, c ∷ [])
take_range low (c ∷ d ∷ members) =
    if c == minus then take_high d members else (low, c ∷ d ∷ members)

-- The loop of `class_matches`; each turn takes a member or more.
unfoldable pub any_member : ℕ → Bytes → ℕ → Bool
any_member zero members byte = false
any_member (suc fuel) [] byte = false
any_member (suc fuel) (c ∷ members) byte =
    let (low, rest) = take_low (c ∷ members) in
    let (high, rest') = take_range low rest in
    let others = any_member fuel rest' byte in (leb low byte && leb byte high) || others

unfoldable pub class_members : Bytes → ℕ → Bool
class_members [] byte = false
class_members (c ∷ members) byte =
    if is_negation c
    then not (any_member (length members) members byte)
    else any_member (suc (length members)) (c ∷ members) byte

unfoldable pub class_matches : Bytes → ℕ → Bool
class_matches members byte = class_members members byte
