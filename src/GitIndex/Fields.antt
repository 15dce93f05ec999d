-- ===== src/GitIndex/Fields.antt =====
-- The laws of the 32-bit fields of src/core/git_index.cpp.
use Prim.Native.Nat.{zero, suc}
use tribios_vfs.Common.{
  ℕ, ◌+◌, ◌/◌, ◌%◌, ◌^◌, ◌<◌, ◌≤◌, [], ◌∷◌, Bytes, length, length-set, get_or, set, ◌≡◌, ◌≢◌, ◌⊎◌,
  refl, sym, ◌∙◌, arith,
}
use tribios_vfs.GitIndex.{read_be32, write_be32}

get_or-set : (xs : Bytes) (i v : ℕ) → i < length xs → get_or (set xs i v) i 0 ≡ v
get_or-set [] i v h = omega arith
get_or-set (x ∷ xs) zero v h = refl
get_or-set (x ∷ xs) (suc i) v h = get_or-set xs i v (omega arith)

get_or-set_other : (xs : Bytes) (i j v : ℕ) → i ≢ j → get_or (set xs i v) j 0 ≡ get_or xs j 0
get_or-set_other [] i j v h = refl
get_or-set_other (x ∷ xs) zero zero v h = absurd (h refl)
get_or-set_other (x ∷ xs) zero (suc j) v h = refl
get_or-set_other (x ∷ xs) (suc i) zero v h = refl
get_or-set_other (x ∷ xs) (suc i) (suc j) v h = get_or-set_other xs i j v (ground arith)

module _ (xs : Bytes) (i a b c d : ℕ) where
  abbrev set4 : Bytes
  set4 = set (set (set (set xs i a) (i + 1) b) (i + 2) c) (i + 3) d

  set4_other : (k : ℕ) → k ≢ i → k ≢ i + 1 → k ≢ i + 2 → k ≢ i + 3 → get_or set4 k 0 ≡ get_or xs k 0
  set4_other k h0 h1 h2 h3 =
      get_or-set_other (set (set (set xs i a) (i + 1) b) (i + 2) c) (i + 3) k d (λ e. h3 (sym e))
      ∙ get_or-set_other (set (set xs i a) (i + 1) b) (i + 2) k c (λ e. h2 (sym e))
      ∙ get_or-set_other (set xs i a) (i + 1) k b (λ e. h1 (sym e))
      ∙ get_or-set_other xs i k a (λ e. h0 (sym e))

  set4_bytes :
      i + 4 ≤ length xs
      → (get_or set4 i 0 ≡ a)
        × (get_or set4 (i + 1) 0 ≡ b)
        × (get_or set4 (i + 2) 0 ≡ c)
        × (get_or set4 (i + 3) 0 ≡ d)
  set4_bytes h =
      let x1 = set xs i a in
      let x2 = set x1 (i + 1) b in
      let x3 = set x2 (i + 2) c in
      let l1 = length-set xs i a in
      let l2 = length-set x1 (i + 1) b in
      let l3 = length-set x2 (i + 2) c in
      (
        get_or-set_other x3 (i + 3) i d (omega arith)
            ∙ get_or-set_other x2 (i + 2) i c (omega arith)
            ∙ get_or-set_other x1 (i + 1) i b (omega arith)
            ∙ get_or-set xs i a (omega arith),
        get_or-set_other x3 (i + 3) (i + 1) d (omega arith)
            ∙ get_or-set_other x2 (i + 2) (i + 1) c (omega arith)
            ∙ get_or-set x1 (i + 1) b (omega arith),
        get_or-set_other x3 (i + 3) (i + 2) d (omega arith) ∙ get_or-set x2 (i + 2) c (omega arith),
        get_or-set x3 (i + 3) d (omega arith),
      )

pub length-write_be32 : (bytes : Bytes) (i v : ℕ) → length (write_be32 bytes i v) ≡ length bytes
unfolding write_be32
length-write_be32 bytes i v = rw (length-set, length-set, length-set, length-set) refl

pub read_be32-write_be32 :
    (bytes : Bytes) (i v : ℕ)
    → i + 4 ≤ length bytes
    → v < 2 ^ 32
    → read_be32 (write_be32 bytes i v) i ≡ v
unfolding read_be32 write_be32
read_be32-write_be32 bytes i v h w =
    let (e0, e1, e2, e3) =
      set4_bytes bytes i (v / 2 ^ 24 % 2 ^ 8) (v / 2 ^ 16 % 2 ^ 8) (v / 2 ^ 8 % 2 ^ 8) (v % 2 ^ 8)
        h in
    rw (e0, e1, e2, e3) (omega arith)

pub read_be32-write_be32_apart :
    (bytes : Bytes) (i j v : ℕ)
    → (i + 4 ≤ j) ⊎ (j + 4 ≤ i)
    → read_be32 (write_be32 bytes i v) j ≡ read_be32 bytes j
unfolding read_be32 write_be32
read_be32-write_be32_apart bytes i j v h =
    rw
      (
        same j (omega arith),
        same (j + 1) (omega arith),
        same (j + 2) (omega arith),
        same (j + 3) (omega arith),
      )
      refl
  where
    same : (k : ℕ) → (k < i) ⊎ (i + 4 ≤ k) → get_or (write_be32 bytes i v) k 0 ≡ get_or bytes k 0
    same k o = set4_other bytes i _ _ _ _ k (omega arith) (omega arith) (omega arith) (omega arith)
