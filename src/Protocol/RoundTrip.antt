-- ===== src/Protocol/RoundTrip.antt =====
-- What the peer reads back: `encode_message` and `decode_message` of src/daemon/protocol.cpp.
use tribios_vfs.Common.{
  ℕ, ◌/◌, ◌%◌, ◌<◌, true, false, List, [], ◌∷◌, ◌++◌, Bytes, none, some, ◌==◌, ◌||◌, if◌then◌else◌,
  ◌≡◌, refl, sym, ap, ◌∙◌, arith, append_assoc, append-nil, Lacks, All-append, Bool-cases, inl, inr,
}
use tribios_vfs.Protocol.{
  tab, newline, carriage_return, percent, hex_digit, is_escaped, append_escaped, append_fields,
  encode_body, encode_message, hex_value, both_digits, escaped_byte, decode_from, decode_message,
}

-- The bytes that stand for one byte of a field.
escape : ℕ → Bytes
escape c = if is_escaped c then percent ∷ hex_digit (c / 16) ∷ hex_digit (c % 16) ∷ [] else c ∷ []

escape_all : Bytes → Bytes
escape_all [] = []
escape_all (c ∷ f) = escape c ++ escape_all f

tabbed : List Bytes → Bytes
tabbed [] = []
tabbed (f ∷ fs) = tab ∷ (escape_all f ++ tabbed fs)

append_escaped_lem : (out f : Bytes) → append_escaped out f ≡ out ++ escape_all f
unfolding append_escaped escape_all escape
append_escaped_lem out [] = sym (append-nil out)
append_escaped_lem out (c ∷ f) =
    append_escaped_lem (out ++ escape c) f ∙ append_assoc out (escape c) (escape_all f)

append_fields_lem : (out : Bytes) (fs : List Bytes) → append_fields out fs ≡ out ++ tabbed fs
unfolding append_fields tabbed
append_fields_lem out [] = sym (append-nil out)
append_fields_lem out (f ∷ fs) =
    append_fields_lem (append_escaped (out ++ tab ∷ []) f) fs
    ∙ rw (append_escaped_lem, append_assoc, append_assoc) refl

hex_value-hex_digit : (n : ℕ) → n < 16 → hex_value (hex_digit n) ≡ some n
unfolding hex_value hex_digit
hex_value-hex_digit n h = ground arith

small : (c : ℕ) → is_escaped c ≡ true → c < 256
unfolding is_escaped
small c h = ground arith

escaped_byte-escape :
    (c : ℕ) → c < 256 → escaped_byte percent (hex_digit (c / 16)) (hex_digit (c % 16)) ≡ some c
unfolding escaped_byte both_digits
escaped_byte-escape c h =
    rw (hex_value-hex_digit (c / 16) (omega arith), hex_value-hex_digit (c % 16) (omega arith))
      (ap some (omega arith))

-- A byte that is not escaped ends nothing and starts no escape.
decode_from-plain :
    (field : Bytes) (c : ℕ) (rest : Bytes)
    → is_escaped c ≡ false
    → decode_from field (c ∷ rest) ≡ decode_from (field ++ c ∷ []) rest
decode_from-plain field c rest h = go rest
  where
    ends : ((c == newline) || (c == carriage_return)) ≡ false
    ends = unfold is_escaped in ground arith

    tabs : (c == tab) ≡ false
    tabs = unfold is_escaped in ground arith

    starts : (a b : ℕ) → escaped_byte c a b ≡ none
    starts a b = unfold is_escaped escaped_byte in ground arith

    go : (rest : Bytes) → decode_from field (c ∷ rest) ≡ decode_from (field ++ c ∷ []) rest
    go [] = unfold decode_from in rw (ends, tabs) refl
    go (a ∷ []) = unfold decode_from in ground (arith, ends, tabs)
    go (a ∷ b ∷ s) = unfold decode_from in ground (arith, ends, tabs, starts a b)

decode_from-escape :
    (field : Bytes) (c : ℕ) (rest : Bytes)
    → decode_from field (escape c ++ rest) ≡ decode_from (field ++ c ∷ []) rest
decode_from-escape field c rest = elim (Bool-cases (is_escaped c)) [
  | inr plain ↦ unfold escape in rw plain (decode_from-plain field c rest plain)
  | inl hard ↦
      unfold escape in
      rw hard (unfold decode_from in ground (arith, escaped_byte-escape c (small c hard)))
]

decode_from-escape_all :
    (field f rest : Bytes)
    → decode_from field (escape_all f ++ rest) ≡ decode_from (field ++ f) rest
unfolding escape_all
decode_from-escape_all field [] rest = rw append-nil refl
decode_from-escape_all field (c ∷ f) rest =
    rw (append_assoc, decode_from-escape)
      (decode_from-escape_all (field ++ c ∷ []) f rest ∙ rw append_assoc refl)

decode_from-tab :
    (field rest : Bytes) → decode_from field (tab ∷ rest) ≡ field ∷ decode_from [] rest
unfolding decode_from
decode_from-tab field [] = refl
decode_from-tab field (a ∷ []) = refl
decode_from-tab field (a ∷ b ∷ s) = refl

decode_from-newline : (field : Bytes) → decode_from field (newline ∷ []) ≡ field ∷ []
unfolding decode_from
decode_from-newline field = refl

decode_from-tabbed :
    (field : Bytes) (fs : List Bytes) → decode_from field (tabbed fs ++ newline ∷ []) ≡ field ∷ fs
unfolding tabbed
decode_from-tabbed field [] = decode_from-newline field
decode_from-tabbed field (f ∷ fs) =
    rw (append_assoc, decode_from-tab, decode_from-escape_all)
      (ap (λ r. field ∷ r) (decode_from-tabbed f fs))

-- A message of at least one field, whatever bytes its fields hold, is decoded to its fields.
pub decode_message-encode_message :
    (f : Bytes) (fs : List Bytes) → decode_message (encode_message (f ∷ fs)) ≡ f ∷ fs
unfolding decode_message encode_message encode_body
decode_message-encode_message f fs =
    rw
      (
        append_fields_lem, append_escaped_lem, append_assoc, decode_from-escape_all,
        decode_from-tabbed,
      )
      refl

Lacks-escape : (c : ℕ) → Lacks newline (escape c)
unfolding escape
Lacks-escape c = elim (Bool-cases (is_escaped c)) [
  | inr plain ↦ rw plain ((unfold is_escaped in ground arith), tt)
  | inl hard ↦
      rw hard (
        omega arith,
        ((unfold hex_digit in ground arith), ((unfold hex_digit in ground arith), tt)),
      )
]

Lacks-escape_all : (f : Bytes) → Lacks newline (escape_all f)
unfolding escape_all
Lacks-escape_all [] = tt
Lacks-escape_all (c ∷ f) =
    All-append _ (escape c) (escape_all f) (Lacks-escape c) (Lacks-escape_all f)

Lacks-tabbed : (fs : List Bytes) → Lacks newline (tabbed fs)
unfolding tabbed
Lacks-tabbed [] = tt
Lacks-tabbed (f ∷ fs) =
    (omega arith, All-append _ (escape_all f) (tabbed fs) (Lacks-escape_all f) (Lacks-tabbed fs))

-- A message is one line: the only newline that it holds is its last byte.
pub encode_message-OneLine :
    (fs : List Bytes)
    → (line : Bytes) × (encode_message fs ≡ line ++ newline ∷ []) × Lacks newline line
encode_message-OneLine fs = (encode_body fs, unfold encode_message in refl, body fs)
  where
    body : (fs : List Bytes) → Lacks newline (encode_body fs)
    body [] = unfold encode_body in tt
    body (f ∷ fs) =
        unfold encode_body in
        rw (append_fields_lem, append_escaped_lem)
          (All-append _ (escape_all f) (tabbed fs) (Lacks-escape_all f) (Lacks-tabbed fs))
