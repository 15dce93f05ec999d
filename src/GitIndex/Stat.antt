-- ===== src/GitIndex/Stat.antt =====
-- Stat data rewritten in place: `read_git_index_stat` and `write_git_index_stat` of
-- src/core/git_index.cpp.
use tribios_vfs.Common.{
  ℕ, ◌+◌, ◌^◌, ◌<◌, ◌≤◌, leb, Bool, true, List, [], ◌∷◌, ◌++◌, Bytes, length, All, ◌&&◌, ◌||◌, ◌≡◌,
  ◌⊎◌, refl, arith, ◌∙◌, ap, sym, take, drop,
}
use tribios_vfs.GitIndex.{
  GitIndexStat, GitIndexEntry, GitIndexFile, read_be32, write_be32, read_git_index_stat,
  write_git_index_stat,
}
use tribios_vfs.GitIndex.Fields.{
  length-write_be32, read_be32-write_be32, read_be32-write_be32_apart,
}

-- Writes at fixed distances from the start of an entry, one after the other.
abbrev write_all : ℕ → List (ℕ × ℕ) → Bytes → Bytes
write_all at [] bytes = bytes
write_all at ((k, v) ∷ writes) bytes = write_all at writes (write_be32 bytes (at + k) v)

abbrev stat_writes : GitIndexStat → List (ℕ × ℕ)
stat_writes s =
    (0, s.ctime_seconds)
    ∷ (4, s.ctime_nanoseconds)
    ∷ (8, s.mtime_seconds)
    ∷ (12, s.mtime_nanoseconds)
    ∷ (16, s.device)
    ∷ (20, s.inode)
    ∷ (28, s.uid)
    ∷ (32, s.gid)
    ∷ (36, s.size)
    ∷ []

write_git_index_stat_lem :
    (index : GitIndexFile) (e : GitIndexEntry) (s : GitIndexStat)
    → (write_git_index_stat index e s).bytes ≡ write_all e.offset (stat_writes s) index.bytes
unfolding write_git_index_stat
write_git_index_stat_lem index e s =
    let start : e.offset + 0 ≡ e.offset = omega arith in rw start refl

-- None of the writes touches the field at `k`.
abbrev apart : ℕ → List (ℕ × ℕ) → Bool
apart k [] = true
apart k ((l, v) ∷ writes) = (leb (l + 4) k || leb (k + 4) l) && apart k writes

length-write_all :
    (at : ℕ) (writes : List (ℕ × ℕ)) (bytes : Bytes)
    → length (write_all at writes bytes) ≡ length bytes
length-write_all at [] bytes = refl
length-write_all at ((k, v) ∷ writes) bytes =
    length-write_all at writes (write_be32 bytes (at + k) v) ∙ length-write_be32 bytes (at + k) v

read-write_all_other :
    (at j : ℕ) (writes : List (ℕ × ℕ)) (bytes : Bytes)
    → All (λ w. (at + w.0 + 4 ≤ j) ⊎ (j + 4 ≤ at + w.0)) writes
    → read_be32 (write_all at writes bytes) j ≡ read_be32 bytes j
read-write_all_other at j [] bytes h = refl
read-write_all_other at j ((k, v) ∷ writes) bytes h =
    read-write_all_other at j writes (write_be32 bytes (at + k) v) h.1
    ∙ read_be32-write_be32_apart bytes (at + k) j v h.0

apart-All :
    (at k : ℕ) (writes : List (ℕ × ℕ))
    → apart k writes ≡ true
    → All (λ w. (at + w.0 + 4 ≤ at + k) ⊎ (at + k + 4 ≤ at + w.0)) writes
apart-All at k [] h = tt
apart-All at k ((l, v) ∷ writes) h = (ground arith, apart-All at k writes (ground arith))

-- A field that no later write touches is read back.
read-write_all :
    (at : ℕ) (before : List (ℕ × ℕ)) (k v : ℕ) (after : List (ℕ × ℕ)) (bytes : Bytes)
    → apart k after ≡ true
    → at + k + 4 ≤ length bytes
    → v < 2 ^ 32
    → read_be32 (write_all at (before ++ (k, v) ∷ after) bytes) (at + k) ≡ v
read-write_all at [] k v after bytes h n w =
    read-write_all_other at (at + k) after (write_be32 bytes (at + k) v) (apart-All at k after h)
    ∙ read_be32-write_be32 bytes (at + k) v n w
read-write_all at ((l, u) ∷ before) k v after bytes h n w =
    read-write_all at before k v after (write_be32 bytes (at + l) u) h (rw length-write_be32 n) w

-- The nine fields are std::uint32_t.
pub record IsStat (s : GitIndexStat) : Type 0 where
  pub ctime_seconds : s.ctime_seconds < 2 ^ 32
  pub ctime_nanoseconds : s.ctime_nanoseconds < 2 ^ 32
  pub mtime_seconds : s.mtime_seconds < 2 ^ 32
  pub mtime_nanoseconds : s.mtime_nanoseconds < 2 ^ 32
  pub device : s.device < 2 ^ 32
  pub inode : s.inode < 2 ^ 32
  pub uid : s.uid < 2 ^ 32
  pub gid : s.gid < 2 ^ 32
  pub size : s.size < 2 ^ 32

-- Stat data of 32-bit fields that is written for an entry whose 62 fixed bytes lie in the file is read
-- back.
pub read-write_git_index_stat :
    (index : GitIndexFile) (e : GitIndexEntry) (s : GitIndexStat)
    → e.offset + 62 ≤ length index.bytes
    → IsStat s
    → read_git_index_stat (write_git_index_stat index e s) e ≡ s
unfolding read_git_index_stat
read-write_git_index_stat index e s n w =
    let read : (before : List (ℕ × ℕ)) (k v : ℕ) (after : List (ℕ × ℕ))
        → write_all e.offset (before ++ (k, v) ∷ after) index.bytes
          ≡ write_all e.offset (stat_writes s) index.bytes
        → apart k after ≡ true
        → k + 4 ≤ 62
        → v < 2 ^ 32
        → read_be32 (write_git_index_stat index e s).bytes (e.offset + k) ≡ v =
      λ before k v after same h b u.
        ap (λ bytes. read_be32 bytes (e.offset + k)) (write_git_index_stat_lem index e s ∙ sym same)
        ∙ read-write_all e.offset before k v after index.bytes h (omega arith) u in
    let all = stat_writes s in
    let start : e.offset ≡ e.offset + 0 = omega arith in
    rw
      (
        ap (read_be32 (write_git_index_stat index e s).bytes) start
            ∙ read [] 0 s.ctime_seconds (drop 1 all) refl refl (omega arith) w.ctime_seconds,
        read (take 1 all) 4 s.ctime_nanoseconds (drop 2 all) refl refl (omega arith)
            w.ctime_nanoseconds,
        read (take 2 all) 8 s.mtime_seconds (drop 3 all) refl refl (omega arith) w.mtime_seconds,
        read (take 3 all) 12 s.mtime_nanoseconds (drop 4 all) refl refl (omega arith)
            w.mtime_nanoseconds,
        read (take 4 all) 16 s.device (drop 5 all) refl refl (omega arith) w.device,
        read (take 5 all) 20 s.inode (drop 6 all) refl refl (omega arith) w.inode,
        read (take 6 all) 28 s.uid (drop 7 all) refl refl (omega arith) w.uid,
        read (take 7 all) 32 s.gid (drop 8 all) refl refl (omega arith) w.gid,
        read (take 8 all) 36 s.size (drop 9 all) refl refl (omega arith) w.size,
      )
      refl

-- A 32-bit field that lies before the entry, behind its stat data, or between its inode and its user
-- (its mode) is not touched.
pub read-write_git_index_stat_other :
    (index : GitIndexFile) (e : GitIndexEntry) (s : GitIndexStat) (j : ℕ)
    → (j + 4 ≤ e.offset) ⊎ ((e.offset + 40 ≤ j) ⊎ (j ≡ e.offset + 24))
    → read_be32 (write_git_index_stat index e s).bytes j ≡ read_be32 index.bytes j
read-write_git_index_stat_other index e s j o = rw (write_git_index_stat_lem index e s) (
    read-write_all_other e.offset j (stat_writes s) index.bytes (
      omega arith,
      (
        omega arith,
        (
          omega arith,
          (
            omega arith,
            (omega arith, (omega arith, (omega arith, (omega arith, (omega arith, tt))))),
          ),
        ),
      ),
    ))

-- Writing the stat data of one entry changes neither the length of the file nor the stat data of an
-- entry whose 62 fixed bytes do not overlap with its own.
pub write_git_index_stat-kept :
    (index : GitIndexFile) (e other : GitIndexEntry) (s : GitIndexStat)
    → (other.offset + 62 ≤ e.offset) ⊎ (e.offset + 62 ≤ other.offset)
    → (length (write_git_index_stat index e s).bytes ≡ length index.bytes)
      × (read_git_index_stat (write_git_index_stat index e s) other
          ≡ read_git_index_stat index other)
unfolding read_git_index_stat
write_git_index_stat-kept index e other s o = (
  rw (write_git_index_stat_lem index e s) (length-write_all e.offset (stat_writes s) index.bytes),
  rw
      (
        field other.offset (omega arith),
        field (other.offset + 4) (omega arith),
        field (other.offset + 8) (omega arith),
        field (other.offset + 12) (omega arith),
        field (other.offset + 16) (omega arith),
        field (other.offset + 20) (omega arith),
        field (other.offset + 28) (omega arith),
        field (other.offset + 32) (omega arith),
        field (other.offset + 36) (omega arith),
      )
      refl,
)
  where
    field :
        (j : ℕ)
        → (j + 4 ≤ e.offset) ⊎ ((e.offset + 40 ≤ j) ⊎ (j ≡ e.offset + 24))
        → read_be32 (write_git_index_stat index e s).bytes j ≡ read_be32 index.bytes j
    field = read-write_git_index_stat_other index e s
