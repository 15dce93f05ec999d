-- ===== src/GitIndex/Parse.antt =====
-- `parse_git_index` of src/core/git_index.cpp. Offsets are std::size_t and a file is shorter than
-- 2 ^ 63 bytes, so their sums do not wrap around.
use Prim.Native.Nat.{zero, suc}
use tribios_vfs.Common.{
  ℕ, ◌+◌, ◌-◌, ◌*◌, ◌/◌, ◌%◌, ◌^◌, ltb, leb, List, [], ◌∷◌, ◌++◌, Bytes, codes, bytes_eq, to_string,
  length, get_or, take, drop, Option, none, some, ◌==◌, ◌||◌, not, if◌then◌else◌,
}
use tribios_vfs.Store.Sql.{Outcome, ok, error}
use tribios_vfs.GitIndex.{GitIndexEntry, GitIndexFile, checksum_size, read_be32}

abbrev pub header_size : ℕ
header_size = 12

abbrev pub path_offset : ℕ
path_offset = 62

-- A varint behind its first byte: `cursor` is the offset of the bytes left before the checksum.
unfoldable pub continue_strip_length : ℕ → ℕ → Bytes → Option (ℕ × ℕ)
continue_strip_length value cursor [] = none
continue_strip_length value cursor (byte ∷ bytes) =
    let next = (value + 1) * 2 ^ 7 + byte % 2 ^ 7 in
    let rest = continue_strip_length next (cursor + 1) bytes in
    if leb ((2 ^ 64 - 1) / 2 ^ 7) value
    then none
    else if leb 0x80 byte
    then rest
    else some (next, cursor + 1)

unfoldable pub strip_length : ℕ → Bytes → Option (ℕ × ℕ)
strip_length cursor [] = none
strip_length cursor (byte ∷ bytes) =
    if leb 0x80 byte
    then continue_strip_length (byte % 2 ^ 7) (cursor + 1) bytes
    else some (byte, cursor + 1)

-- The value and the cursor behind it.
unfoldable pub read_path_strip_length : Bytes → ℕ → ℕ → Option (ℕ × ℕ)
read_path_strip_length bytes cursor end = strip_length cursor (drop cursor (take end bytes))

-- `bytes.find('\0', at)`, with the bytes from `at` on.
unfoldable pub find_nul : ℕ → Bytes → Option ℕ
find_nul at [] = none
find_nul at (b ∷ bytes) = let rest = find_nul (at + 1) bytes in if b == 0 then some at else rest

unfoldable pub find_terminator : Bytes → ℕ → ℕ → Option ℕ
find_terminator bytes at end = elim (find_nul at (drop at bytes)) [
  | none ↦ none
  | some terminator ↦ if leb end terminator then none else some terminator
]

-- `substr`.
unfoldable pub substr : Bytes → ℕ → ℕ → Bytes
substr bytes start count = take count (drop start bytes)

-- An entry and the offset of the one behind it.
unfoldable pub entry_at : Bytes → ℕ → Bytes → ℕ → Outcome (GitIndexEntry × ℕ)
entry_at bytes offset path next =
    ok (record { path = path; mode = read_be32 bytes (offset + 24); offset = offset }, next)

unfoldable pub unterminated : Outcome (GitIndexEntry × ℕ)
unterminated = error (codes "unterminated Git index path")

unfoldable pub suffixed_entry : Bytes → ℕ → Bytes → ℕ → Option ℕ → Outcome (GitIndexEntry × ℕ)
suffixed_entry bytes offset prefix cursor none = unterminated
suffixed_entry bytes offset prefix cursor (some terminator) =
    entry_at bytes offset (prefix ++ substr bytes cursor (terminator - cursor)) (terminator + 1)

-- Version 4.
unfoldable pub stripped_entry : Bytes → ℕ → ℕ → Bytes → Option (ℕ × ℕ) → Outcome (GitIndexEntry × ℕ)
stripped_entry bytes end offset previous none = error (codes "corrupt Git index path prefix")
stripped_entry bytes end offset previous (some (strip, cursor)) =
    if ltb (length previous) strip
    then error (codes "corrupt Git index path prefix")
    else suffixed_entry bytes offset (take (length previous - strip) previous) cursor
        (find_terminator bytes cursor end)

-- Versions 2 and 3.
unfoldable pub padded_entry : Bytes → ℕ → ℕ → ℕ → Option ℕ → Outcome (GitIndexEntry × ℕ)
padded_entry bytes end offset path_start none = unterminated
padded_entry bytes end offset path_start (some terminator) =
    let path = substr bytes path_start (terminator - path_start) in
    let next = offset + (path_start - offset + length path + 8) / 8 * 8 in
    if ltb end next
    then error (codes "truncated Git index entry")
    else entry_at bytes offset path next

unfoldable pub parse_entry_path : Bytes → ℕ → ℕ → ℕ → Bytes → ℕ → Outcome (GitIndexEntry × ℕ)
parse_entry_path bytes version end offset previous path_start =
    if version == 4
    then stripped_entry bytes end offset previous (read_path_strip_length bytes path_start end)
    else padded_entry bytes end offset path_start (find_terminator bytes path_start end)

-- One turn of the loop. Bit 14 of the flags is kExtendedFlag.
unfoldable pub parse_entry : Bytes → ℕ → ℕ → ℕ → Bytes → Outcome (GitIndexEntry × ℕ)
parse_entry bytes version end offset previous =
    let flags = get_or bytes (offset + 60) 0 * 2 ^ 8 + get_or bytes (offset + 61) 0 in
    if ltb end (offset + path_offset)
    then error (codes "truncated Git index entry")
    else if flags / 2 ^ 14 % 2 == 1
    then (if ltb version 3
        then error (codes "extended Git index flags in a version 2 index")
        else parse_entry_path bytes version end offset previous (offset + path_offset + 2))
    else parse_entry_path bytes version end offset previous (offset + path_offset)

unfoldable pub push_entry :
    GitIndexEntry → Outcome (List GitIndexEntry × ℕ) → Outcome (List GitIndexEntry × ℕ)
push_entry e (error m) = error m
push_entry e (ok (entries, offset)) = ok (e ∷ entries, offset)

-- The loop over `entry_count`: the entries and the offset behind them.
unfoldable pub parse_entries : ℕ → Bytes → ℕ → ℕ → ℕ → Bytes → Outcome (List GitIndexEntry × ℕ)
parse_entries zero bytes version end offset previous = ok ([], offset)
parse_entries (suc count) bytes version end offset previous =
    elim (parse_entry bytes version end offset previous) [
      | error m ↦ error m
      | ok (e, next) ↦ push_entry e (parse_entries count bytes version end next e.path)
    ]

-- The loop over the extensions, each of which takes eight bytes or more: the offset behind them.
unfoldable pub skip_extensions : ℕ → Bytes → ℕ → ℕ → Outcome ℕ
skip_extensions zero bytes end offset = ok offset
skip_extensions (suc fuel) bytes end offset =
    let signature = substr bytes offset 4 in
    let size = read_be32 bytes (offset + 4) in
    let rest = skip_extensions fuel bytes end (offset + 8 + size) in
    if ltb end (offset + 8)
    then ok offset
    else if bytes_eq signature (codes "link")
    then error (codes "split Git indexes are not supported")
    else if ltb (end - offset - 8) size
    then error (codes "truncated Git index extension " ++ signature)
    else rest

unfoldable pub finish_index : Bytes → ℕ → List GitIndexEntry → Outcome ℕ → Outcome GitIndexFile
finish_index bytes end entries (error m) = error m
finish_index bytes end entries (ok offset) =
    if offset == end
    then ok (record { bytes = bytes; entries = entries })
    else error (codes "trailing bytes after the Git index extensions")

unfoldable pub parse_extensions :
    Bytes → ℕ → Outcome (List GitIndexEntry × ℕ) → Outcome GitIndexFile
parse_extensions bytes end (error m) = error m
parse_extensions bytes end (ok (entries, offset)) =
    finish_index bytes end entries (skip_extensions end bytes end offset)

unfoldable pub parse_git_index : Bytes → Outcome GitIndexFile
parse_git_index bytes =
    let version = read_be32 bytes 4 in
    let end = length bytes - checksum_size in
    if ltb (length bytes) (header_size + checksum_size)
      || not (bytes_eq (take 4 bytes) (codes "DIRC"))
    then error (codes "not a Git index file")
    else if ltb version 2 || ltb 4 version
    then error (codes "unsupported Git index version " ++ to_string version)
    else parse_extensions bytes end
        (parse_entries (read_be32 bytes 8) bytes version end header_size [])
