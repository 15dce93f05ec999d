-- ===== src/GitIndex/Tests.antt =====
-- An index with one entry, and the theorems at it.
use Prim.Native.Nat.{zero, suc}
use tribios_vfs.Common.{
  ℕ, ◌-◌, [], ◌∷◌, ◌++◌, Bytes, codes, bytes_eq, length, take, ◌≡◌, refl, arith, inr,
}
use tribios_vfs.Store.Sql.{ok}
use tribios_vfs.GitIndex.{
  GitIndexStat, GitIndexEntry, GitIndexFile, checksum_size, read_be32, read_git_index_stat,
  write_git_index_stat, seal_git_index,
}
use tribios_vfs.GitIndex.Stat.{IsStat, read-write_git_index_stat, write_git_index_stat-kept}
use tribios_vfs.GitIndex.Parse.{
  parse_git_index, parse_extensions, parse_entries, parse_entry, parse_entry_path, padded_entry,
  find_terminator, find_nul, substr, entry_at, push_entry, finish_index, skip_extensions,
}
use tribios_vfs.GitIndex.Layout.{IsIndexOf, parse_git_index-IsIndexOf}
use tribios_vfs.GitIndex.Seal.{seal_git_index-Seals, skip_extensions-enough}

abbrev zeros : ℕ → Bytes
zeros zero = []
zeros (suc n) = 0 ∷ zeros n

-- Version 2, one entry with the path `a`, an extension of one byte, and no checksum yet.
abbrev file : Bytes
file =
    codes "DIRC"
    ++ 0 ∷ 0 ∷ 0 ∷ 2 ∷ 0 ∷ 0 ∷ 0 ∷ 1 ∷ zeros 27
    ++ 7 ∷ zeros 34
    ++ codes "a"
    ++ 0 ∷ codes "TREE"
    ++ 0 ∷ 0 ∷ 0 ∷ 1 ∷ 9 ∷ zeros 20

abbrev entry : GitIndexEntry
entry = record { path = codes "a"; mode = 7; offset = 12 }

abbrev index : GitIndexFile
index = record { bytes = file; entries = entry ∷ [] }

file_parses : parse_git_index file ≡ ok index
unfolding parse_git_index bytes_eq read_be32 parse_extensions parse_entries parse_entry
    parse_entry_path padded_entry find_terminator find_nul substr entry_at push_entry finish_index
    skip_extensions
file_parses = refl

parse_git_index-IsIndexOf_example : IsIndexOf file index
parse_git_index-IsIndexOf_example = parse_git_index-IsIndexOf file index file_parses

abbrev stat : GitIndexStat
stat = record {
  ctime_seconds = 0xffffffff;
  ctime_nanoseconds = 2;
  mtime_seconds = 3;
  mtime_nanoseconds = 4;
  device = 5;
  inode = 6;
  uid = 7;
  gid = 8;
  size = 0x010203;
}

stat-IsStat : IsStat stat
stat-IsStat = record {
  ctime_seconds = omega arith;
  ctime_nanoseconds = omega arith;
  mtime_seconds = omega arith;
  mtime_nanoseconds = omega arith;
  device = omega arith;
  inode = omega arith;
  uid = omega arith;
  gid = omega arith;
  size = omega arith;
}

read-write_git_index_stat_example :
    read_git_index_stat (write_git_index_stat index entry stat) entry ≡ stat
read-write_git_index_stat_example =
    read-write_git_index_stat index entry stat (omega arith) stat-IsStat

abbrev next : GitIndexEntry
next = record { path = codes "b"; mode = 0; offset = 76 }

write_git_index_stat-kept_example :
    (length (write_git_index_stat index entry stat).bytes ≡ length index.bytes)
    × (read_git_index_stat (write_git_index_stat index entry stat) next
        ≡ read_git_index_stat index next)
write_git_index_stat-kept_example =
    write_git_index_stat-kept index entry next stat (inr (omega arith))

seal_git_index-Seals_example :
    (length (seal_git_index index).bytes ≡ length index.bytes)
    × (take (length index.bytes - checksum_size) (seal_git_index index).bytes
        ≡ take (length index.bytes - checksum_size) index.bytes)
    × (seal_git_index (seal_git_index index) ≡ seal_git_index index)
seal_git_index-Seals_example = seal_git_index-Seals index (omega arith)

skip_extensions-enough_example : skip_extensions 90 file 85 76 ≡ skip_extensions 9 file 85 76
skip_extensions-enough_example = skip_extensions-enough 9 90 file 85 76 (omega arith) (omega arith)
