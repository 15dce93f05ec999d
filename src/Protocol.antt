-- ===== src/Protocol.antt =====
-- The messages of src/daemon/protocol.cpp: fields of bytes on one line, separated by tabs and with
-- their control bytes escaped.
pub mod RoundTrip
mod Tests
use tribios_vfs.Common.{
  ℕ, ◌+◌, ◌-◌, ◌*◌, ◌/◌, ◌%◌, ltb, leb, Bool, true, false, List, [], ◌∷◌, ◌++◌, Bytes, Option, none,
  some, ◌==◌, ◌&&◌, ◌||◌, if◌then◌else◌,
}

abbrev pub tab : ℕ
tab = 9

abbrev pub newline : ℕ
newline = 10

abbrev pub carriage_return : ℕ
carriage_return = 13

abbrev pub percent : ℕ
percent = 0x25

-- A digit of `%02X`.
unfoldable pub hex_digit : ℕ → ℕ
hex_digit n = if ltb n 10 then n + 0x30 else n + 0x37

unfoldable pub is_escaped : ℕ → Bool
is_escaped c =
    (c == percent) || (c == tab) || (c == newline) || (c == carriage_return) || ltb c 0x20

unfoldable pub append_escaped : Bytes → Bytes → Bytes
append_escaped out [] = out
append_escaped out (c ∷ field) =
    append_escaped
      (out
        ++ (if is_escaped c
            then percent ∷ hex_digit (c / 16) ∷ hex_digit (c % 16) ∷ []
            else c ∷ []))
      field

-- The fields after the first, each behind its tab.
unfoldable pub append_fields : Bytes → List Bytes → Bytes
append_fields out [] = out
append_fields out (f ∷ fields) = append_fields (append_escaped (out ++ tab ∷ []) f) fields

unfoldable pub encode_body : List Bytes → Bytes
encode_body [] = []
encode_body (f ∷ fields) = append_fields (append_escaped [] f) fields

unfoldable pub encode_message : List Bytes → Bytes
encode_message fields = encode_body fields ++ newline ∷ []

-- `none` is the source's -1.
unfoldable pub hex_value : ℕ → Option ℕ
hex_value c =
    if leb 0x30 c && leb c 0x39
    then some (c - 0x30)
    else if leb 0x41 c && leb c 0x46
    then some (c - 0x41 + 10)
    else if leb 0x61 c && leb c 0x66
    then some (c - 0x61 + 10)
    else none

unfoldable pub both_digits : Option ℕ → Option ℕ → Option ℕ
both_digits (some high) (some low) = some (high * 16 + low)
both_digits _ _ = none

-- The byte that `c`, `a` and `b` escape.
unfoldable pub escaped_byte : ℕ → ℕ → ℕ → Option ℕ
escaped_byte c a b = if c == percent then both_digits (hex_value a) (hex_value b) else none

-- The loop, with the last field so far; the fields before it are in the result already. An escape
-- needs two more bytes on the line.
unfoldable pub decode_from : Bytes → Bytes → List Bytes
decode_from field [] = field ∷ []
decode_from field (c ∷ []) =
    if (c == newline) || (c == carriage_return)
    then field ∷ []
    else if c == tab
    then field ∷ [] ∷ []
    else (field ++ c ∷ []) ∷ []
decode_from field (c ∷ a ∷ []) = elim ((c == newline) || (c == carriage_return)) [
  | true ↦ field ∷ []
  | false ↦ elim (c == tab) [
    | true ↦ field ∷ decode_from [] (a ∷ [])
    | false ↦ decode_from (field ++ c ∷ []) (a ∷ [])
  ]
]
decode_from field (c ∷ a ∷ b ∷ line) = elim ((c == newline) || (c == carriage_return)) [
  | true ↦ field ∷ []
  | false ↦ elim (c == tab) [
    | true ↦ field ∷ decode_from [] (a ∷ b ∷ line)
    | false ↦ elim (escaped_byte c a b) [
      | some v ↦ decode_from (field ++ v ∷ []) line
      | none ↦ decode_from (field ++ c ∷ []) (a ∷ b ∷ line)
    ]
  ]
]

unfoldable pub decode_message : Bytes → List Bytes
decode_message line = decode_from [] line
