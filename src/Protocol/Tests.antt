-- ===== src/Protocol/Tests.antt =====
-- Runs of src/daemon/protocol.cpp, and the theorems at concrete fields.
use tribios_vfs.Common.{[], ◌∷◌, ◌++◌, Bytes, codes, Lacks, ◌≡◌, refl}
use tribios_vfs.Protocol.{
  newline, encode_message, encode_body, append_fields, append_escaped, is_escaped, hex_digit,
  decode_message, decode_from, escaped_byte, both_digits, hex_value,
}
use tribios_vfs.Protocol.RoundTrip.{decode_message-encode_message, encode_message-OneLine}

abbrev path : Bytes
path = codes "100%" ++ 9 ∷ 10 ∷ 255 ∷ []

encoded :
    encode_message (codes "ok" ∷ path ∷ [])
    ≡ codes "ok" ++ 9 ∷ codes "100%25%09%0A" ++ 255 ∷ 10 ∷ []
unfolding encode_message encode_body append_fields append_escaped is_escaped hex_digit
encoded = refl

-- An escape that is cut short or has no hexadecimal digits is taken as it stands.
bare_percent : decode_message (codes "50%,%4") ≡ codes "50%,%4" ∷ []
unfolding decode_message decode_from escaped_byte both_digits hex_value
bare_percent = refl

decode_message-encode_message_example :
    decode_message (encode_message (codes "ok" ∷ path ∷ [])) ≡ codes "ok" ∷ path ∷ []
decode_message-encode_message_example = decode_message-encode_message (codes "ok") (path ∷ [])

encode_message-OneLine_example :
    (line : Bytes) × (encode_message (path ∷ []) ≡ line ++ newline ∷ []) × Lacks newline line
encode_message-OneLine_example = encode_message-OneLine (path ∷ [])
