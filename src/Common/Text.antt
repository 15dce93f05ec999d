-- ===== src/Common/Text.antt =====
-- Byte strings: equality, prefixes, and the two ways in which the source looks for a byte.
use Prim.Native.Nat.{ℕ, zero, suc, ◌+◌, ◌/◌, ◌%◌}
use Prim.Native.Char.{code}
use Prim.Native.String.{String}
use mathlib.Core.Path.{◌≡◌, refl, ap}
use mathlib.Core.Bool.{Bool, true, false, ◌&&◌}
use mathlib.Core.Logic.{◌↔◌, ◌≢◌}
use mathlib.Core.List.{List, [], ◌∷◌, ◌++◌}
use native.Mathlib.Omega.{arith}
use tribios_vfs.Common.Tests.{◌==◌, ltb, if◌then◌else◌}
use tribios_vfs.Common.Lists.{All}

abbrev pub Bytes : Type 0
Bytes = List ℕ

-- The bytes of an ASCII literal.
abbrev pub codes : String → Bytes
codes String.[] = []
codes (String.◌∷◌ c s) = code c ∷ codes s

-- `operator==` of strings.
unfoldable pub bytes_eq : Bytes → Bytes → Bool
bytes_eq [] [] = true
bytes_eq [] (b ∷ t) = false
bytes_eq (a ∷ s) [] = false
bytes_eq (a ∷ s) (b ∷ t) = (a == b) && bytes_eq s t

-- `text.starts_with(prefix)`.
unfoldable pub starts_with : Bytes → Bytes → Bool
starts_with [] text = true
starts_with (a ∷ s) [] = false
starts_with (a ∷ s) (b ∷ t) = (a == b) && starts_with s t

abbrev pub Lacks : ℕ → Bytes → Type 0
Lacks b = All (λ c. c ≢ b)

pub bytes_eq_sound : (s t : Bytes) → bytes_eq s t ≡ true → s ≡ t
unfolding bytes_eq
bytes_eq_sound [] [] h = refl
bytes_eq_sound [] (b ∷ t) h = cc
bytes_eq_sound (a ∷ s) [] h = cc
bytes_eq_sound (a ∷ s) (b ∷ t) h = ground (arith, bytes_eq_sound s t)

pub bytes_eq_refl : (s : Bytes) → bytes_eq s s ≡ true
unfolding bytes_eq
bytes_eq_refl [] = refl
bytes_eq_refl (a ∷ s) = ground (arith, bytes_eq_refl s)

pub bytes_eq_iff : (s t : Bytes) → (bytes_eq s t ≡ true) ↔ (s ≡ t)
bytes_eq_iff s t = (bytes_eq_sound s t, λ e. cc (ap (bytes_eq s) e, bytes_eq_refl s))

pub starts_with-append : (s t : Bytes) → starts_with s (s ++ t) ≡ true
unfolding starts_with
starts_with-append [] t = refl
starts_with-append (a ∷ s) t = ground (arith, starts_with-append s t)

pub starts_with_sound : (s t : Bytes) → starts_with s t ≡ true → (r : Bytes) × (t ≡ s ++ r)
unfolding starts_with
starts_with_sound [] t h = (t, refl)
starts_with_sound (a ∷ s) [] h = cc
starts_with_sound (a ∷ s) (b ∷ t) h =
    let both : (a ≡ b) × (starts_with s t ≡ true) = (ground arith, ground arith) in
    let (r, e) = starts_with_sound s t both.1 in (r, cc (both.0, e))

digit : ℕ → ℕ
digit n = n + 0x30

-- `std::to_string` of a number of at most `fuel` digits, before the digits `after`.
unfoldable pub digits : ℕ → ℕ → Bytes → Bytes
unfolding digit
digits zero n after = after
digits (suc fuel) n after =
    if ltb n 10 then digit n ∷ after else digits fuel (n / 10) (digit (n % 10) ∷ after)

-- `std::to_string` of a std::size_t, which has at most 20 digits.
unfoldable pub to_string : ℕ → Bytes
unfolding digits
to_string n = digits 20 n []
