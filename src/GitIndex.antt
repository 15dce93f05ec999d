-- ===== src/GitIndex.antt =====
-- The Git index files of src/core/git_index.cpp, whose entries have their stat data rewritten in
-- place: the 32-bit fields, the stat data, and the checksum.
pub mod Fields
pub mod Stat
pub mod Parse
pub mod Layout
pub mod Seal
mod Tests
use tribios_vfs.Common.{
  ℕ, ◌+◌, ◌-◌, ◌*◌, ◌/◌, ◌%◌, ◌^◌, List, ◌++◌, Bytes, length, get_or, set, take,
}
use tribios_vfs.Sha1.{sha1_digest}

pub record GitIndexStat : Type 0 where
  pub ctime_seconds : ℕ
  pub ctime_nanoseconds : ℕ
  pub mtime_seconds : ℕ
  pub mtime_nanoseconds : ℕ
  pub device : ℕ
  pub inode : ℕ
  pub uid : ℕ
  pub gid : ℕ
  pub size : ℕ

pub record GitIndexEntry : Type 0 where
  pub path : Bytes
  pub mode : ℕ
  pub offset : ℕ

pub record GitIndexFile : Type 0 where
  pub bytes : Bytes
  pub entries : List GitIndexEntry

-- kChecksumSize.
abbrev pub checksum_size : ℕ
checksum_size = 20

-- Four steps of `value = (value << 8) | byte`, which no bit of a std::uint32_t leaves.
unfoldable pub read_be32 : Bytes → ℕ → ℕ
read_be32 bytes offset =
    get_or bytes offset 0 * 2 ^ 24
    + get_or bytes (offset + 1) 0 * 2 ^ 16
    + get_or bytes (offset + 2) 0 * 2 ^ 8
    + get_or bytes (offset + 3) 0

unfoldable pub write_be32 : Bytes → ℕ → ℕ → Bytes
write_be32 bytes offset value =
    let first = set bytes offset (value / 2 ^ 24 % 2 ^ 8) in
    let second = set first (offset + 1) (value / 2 ^ 16 % 2 ^ 8) in
    let third = set second (offset + 2) (value / 2 ^ 8 % 2 ^ 8) in
    set third (offset + 3) (value % 2 ^ 8)

unfoldable pub read_git_index_stat : GitIndexFile → GitIndexEntry → GitIndexStat
read_git_index_stat index entry =
    let bytes = index.bytes in
    let at = entry.offset in
    record {
      ctime_seconds = read_be32 bytes at;
      ctime_nanoseconds = read_be32 bytes (at + 4);
      mtime_seconds = read_be32 bytes (at + 8);
      mtime_nanoseconds = read_be32 bytes (at + 12);
      device = read_be32 bytes (at + 16);
      inode = read_be32 bytes (at + 20);
      uid = read_be32 bytes (at + 28);
      gid = read_be32 bytes (at + 32);
      size = read_be32 bytes (at + 36);
    }

unfoldable pub write_git_index_stat : GitIndexFile → GitIndexEntry → GitIndexStat → GitIndexFile
write_git_index_stat index entry stat =
    let at = entry.offset in
    let b1 = write_be32 index.bytes at stat.ctime_seconds in
    let b2 = write_be32 b1 (at + 4) stat.ctime_nanoseconds in
    let b3 = write_be32 b2 (at + 8) stat.mtime_seconds in
    let b4 = write_be32 b3 (at + 12) stat.mtime_nanoseconds in
    let b5 = write_be32 b4 (at + 16) stat.device in
    let b6 = write_be32 b5 (at + 20) stat.inode in
    let b7 = write_be32 b6 (at + 28) stat.uid in
    let b8 = write_be32 b7 (at + 32) stat.gid in
    record index { bytes = write_be32 b8 (at + 36) stat.size }

-- `replace(content_size, kChecksumSize, digest)`, which ends the file.
unfoldable pub seal_git_index : GitIndexFile → GitIndexFile
seal_git_index index =
    let content = take (length index.bytes - checksum_size) index.bytes in
    record index { bytes = content ++ sha1_digest content }
