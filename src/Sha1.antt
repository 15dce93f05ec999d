-- ===== src/Sha1.antt =====
-- SHA-1, as src/core/sha1.cpp computes it: a std::uint32_t is a number below 2 ^ 32, and its sums
-- wrap around.
mod Tests
use Prim.Native.Nat.{zero, suc, bit_and, bit_or, bit_xor}
use tribios_vfs.Common.{
  ℕ, ◌+◌, ◌-◌, ◌*◌, ◌/◌, ◌%◌, ◌^◌, ltb, Bool, List, [], ◌∷◌, ◌++◌, Bytes, length, get_or, take,
  drop, ◌==◌, if◌then◌else◌,
}

pub record State : Type 0 where
  pub a : ℕ
  pub b : ℕ
  pub c : ℕ
  pub d : ℕ
  pub e : ℕ

-- std::rotl on 32 bits.
unfoldable pub rotl : ℕ → ℕ → ℕ
rotl x k = bit_or (x * 2 ^ k % 2 ^ 32) (x / 2 ^ (32 - k))

unfoldable pub block_words : ℕ → Bytes → List ℕ
block_words zero block = []
block_words (suc n) block =
    (get_or block 0 0 * 2 ^ 24
      + get_or block 1 0 * 2 ^ 16
      + get_or block 2 0 * 2 ^ 8
      + get_or block 3 0)
    ∷ block_words n (drop 4 block)

-- The words 16 to 79; `n` are left to append.
unfoldable pub extend_words : ℕ → List ℕ → List ℕ
unfolding rotl
extend_words zero words = words
extend_words (suc n) words =
    let i = length words in
    let word : ℕ → ℕ = λ back. get_or words (i - back) 0 in
    extend_words n
      (words ++ rotl (bit_xor (bit_xor (bit_xor (word 3) (word 8)) (word 14)) (word 16)) 1 ∷ [])

unfoldable pub choose : ℕ → ℕ → ℕ → ℕ
choose b c d = bit_or (bit_and b c) (bit_and (2 ^ 32 - 1 - b) d)

unfoldable pub majority : ℕ → ℕ → ℕ → ℕ
majority b c d = bit_or (bit_or (bit_and b c) (bit_and b d)) (bit_and c d)

unfoldable pub mixed : ℕ → State → ℕ
unfolding choose majority
mixed i s =
    if ltb i 20
    then choose s.b s.c s.d
    else if ltb i 40
    then bit_xor (bit_xor s.b s.c) s.d
    else if ltb i 60
    then majority s.b s.c s.d
    else bit_xor (bit_xor s.b s.c) s.d

unfoldable pub constant : ℕ → ℕ
constant i =
    if ltb i 20
    then 0x5a827999
    else if ltb i 40
    then 0x6ed9eba1
    else if ltb i 60
    then 0x8f1bbcdc
    else 0xca62c1d6

-- The rounds from `i` on, one for each word that is left.
unfoldable pub rounds : ℕ → List ℕ → State → State
unfolding rotl mixed constant
rounds i [] s = s
rounds i (w ∷ words) s = rounds (i + 1) words (record {
  a = (rotl s.a 5 + mixed i s + s.e + constant i + w) % 2 ^ 32;
  b = s.a;
  c = rotl s.b 30;
  d = s.c;
  e = s.d;
})

unfoldable pub compress_sha1_block : State → Bytes → State
unfolding rounds extend_words block_words
compress_sha1_block s block =
    let r = rounds 0 (extend_words 64 (block_words 16 block)) s in
    record {
      a = (s.a + r.a) % 2 ^ 32;
      b = (s.b + r.b) % 2 ^ 32;
      c = (s.c + r.c) % 2 ^ 32;
      d = (s.d + r.d) % 2 ^ 32;
      e = (s.e + r.e) % 2 ^ 32;
    }

unfoldable pub compress_blocks : ℕ → State → Bytes → State
unfolding compress_sha1_block
compress_blocks zero s message = s
compress_blocks (suc n) s message =
    compress_blocks n (compress_sha1_block s (take 64 message)) (drop 64 message)

-- At most 63 zeros bring the tail to 56 bytes past a block.
unfoldable pub pad : ℕ → Bytes → Bytes
pad zero tail = tail
pad (suc n) tail = if length tail % 64 == 56 then tail else pad n (tail ++ 0 ∷ [])

-- The length in bits, as eight bytes.
unfoldable pub length_bytes : ℕ → ℕ → Bytes
length_bytes zero bits = []
length_bytes (suc n) bits = bits / 2 ^ (8 * n) % 2 ^ 8 ∷ length_bytes n bits

unfoldable pub word_bytes : ℕ → Bytes
word_bytes w = w / 2 ^ 24 % 2 ^ 8 ∷ w / 2 ^ 16 % 2 ^ 8 ∷ w / 2 ^ 8 % 2 ^ 8 ∷ w % 2 ^ 8 ∷ []

abbrev pub initial_state : State
initial_state = record {
  a = 0x67452301;
  b = 0xefcdab89;
  c = 0x98badcfe;
  d = 0x10325476;
  e = 0xc3d2e1f0;
}

unfoldable pub padded_tail : Bytes → Bytes
unfolding pad length_bytes
padded_tail message =
    pad 64 (drop (length message / 64 * 64) message ++ 0x80 ∷ [])
    ++ length_bytes 8 (length message * 8 % 2 ^ 64)

unfoldable pub sha1_digest : Bytes → Bytes
unfolding compress_blocks padded_tail word_bytes
sha1_digest message =
    let tail = padded_tail message in
    let s =
      compress_blocks (length tail / 64)
        (compress_blocks (length message / 64) initial_state message) tail in
    word_bytes s.a ++ word_bytes s.b ++ word_bytes s.c ++ word_bytes s.d ++ word_bytes s.e
