-- ===== src/Engine/Inode.antt =====
-- Inode numbers of a Workspace: `workspace_inode_salt` and `salted_workspace_inode` of
-- src/core/workspace_engine.cpp, on 64-bit words.
use Prim.Native.Nat.{bit_xor}
use tribios_vfs.Common.{ℕ, ◌+◌, ◌*◌, ◌/◌, ◌%◌, ◌^◌, [], ◌∷◌, Bytes, ◌==◌, if◌then◌else◌, ◌≢◌, arith}

abbrev pub u64 : ℕ → ℕ
u64 n = n % 2 ^ 64

-- One round of FNV-1a.
unfoldable pub fnv_round : ℕ → ℕ → ℕ
fnv_round hash byte = u64 (bit_xor hash byte * 1099511628211)

unfoldable pub fnv : Bytes → ℕ → ℕ
unfolding fnv_round
fnv [] hash = hash
fnv (byte ∷ s) hash = fnv s (fnv_round hash byte)

unfoldable pub workspace_inode_salt : Bytes → ℕ
unfolding fnv
workspace_inode_salt workspace = fnv workspace 14695981039346656037

-- `value ^= value >> k`.
unfoldable pub fold_high : ℕ → ℕ → ℕ
fold_high k value = bit_xor value (value / 2 ^ k)

unfoldable pub mix_inode : ℕ → ℕ
unfolding fold_high
mix_inode value =
    fold_high 31
      (u64 (fold_high 27 (u64 (fold_high 30 value * 0xbf58476d1ce4e5b9)) * 0x94d049bb133111eb))

unfoldable pub salted_workspace_inode : ℕ → ℕ → ℕ
unfolding mix_inode
salted_workspace_inode salt backing_inode =
    let value = mix_inode (u64 (backing_inode + salt)) in if value == 0 then 1 else value

-- The reserved number zero is never reported.
pub salted_workspace_inode-ne-zero : (salt backing : ℕ) → salted_workspace_inode salt backing ≢ 0
unfolding salted_workspace_inode
salted_workspace_inode-ne-zero salt backing = ground arith
