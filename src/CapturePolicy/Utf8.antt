-- ===== src/CapturePolicy/Utf8.antt =====
-- `is_valid_utf8` of src/core/capture_policy.cpp.
use Prim.Native.Nat.{zero, suc}
use tribios_vfs.Common.{ℕ, leb, Bool, true, false, [], ◌∷◌, Bytes, ◌==◌, ◌&&◌, if◌then◌else◌}

abbrev pub between : ℕ → ℕ → ℕ → Bool
between low high c = leb low c && leb c high

-- How a lead byte goes on: nothing, or one to three bytes of which the first has its own bounds.
-- `(c & 0xC0) == 0x80` is that `c` lies between 0x80 and 0xbf.
pub data Lead : Type 0 where
  single : Lead
  sequence : ℕ → ℕ → ℕ → Lead
  malformed : Lead

unfoldable pub lead_of : ℕ → Lead
lead_of lead =
    if leb lead 0x7f
    then single
    else if between 0xc2 0xdf lead
    then sequence 1 0x80 0xbf
    else if between 0xe0 0xef lead
    then sequence 2 (if lead == 0xe0 then 0xa0 else 0x80) (if lead == 0xed then 0x9f else 0xbf)
    else if between 0xf0 0xf4 lead
    then sequence 3 (if lead == 0xf0 then 0x90 else 0x80) (if lead == 0xf4 then 0x8f else 0xbf)
    else malformed

-- The loop: of a sequence, `left` bytes are missing, the next of them between `low` and `high`.
unfoldable pub scan : ℕ → ℕ → ℕ → Bytes → Bool
scan zero low high [] = true
scan zero low high (lead ∷ text) = elim (lead_of lead) [
  | single ↦ scan zero 0 0 text
  | sequence left low' high' ↦ scan left low' high' text
  | malformed ↦ false
]
scan (suc left) low high [] = false
scan (suc left) low high (c ∷ text) =
    let rest = scan left 0x80 0xbf text in if between low high c then rest else false

unfoldable pub is_valid_utf8 : Bytes → Bool
is_valid_utf8 text = scan 0 0 0 text
