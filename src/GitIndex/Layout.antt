-- ===== src/GitIndex/Layout.antt =====
-- Where the entries of a parsed index lie, and that the loop over its extensions ends:
-- `parse_git_index` of src/core/git_index.cpp.
use Prim.Native.Nat.{zero, suc}
use tribios_vfs.Common.{
  ℕ, ◌+◌, ◌-◌, ◌*◌, ◌/◌, ◌%◌, ◌^◌, ◌<◌, ◌≤◌, ltb, leb, List, [], ◌∷◌, Bytes, codes, bytes_eq,
  length, get_or, take, drop, Option, none, some, ◌==◌, ◌||◌, not, if◌then◌else◌, ◌≡◌, refl, arith,
  Bool-cases, inl, inr,
}
use tribios_vfs.Store.Sql.{Outcome, ok, error}
use tribios_vfs.GitIndex.{GitIndexEntry, GitIndexFile, checksum_size, read_be32}
use tribios_vfs.GitIndex.Parse.{
  header_size, path_offset, continue_strip_length, strip_length, read_path_strip_length, find_nul,
  find_terminator, substr, entry_at, unterminated, suffixed_entry, stripped_entry, padded_entry,
  parse_entry_path, parse_entry, push_entry, parse_entries, skip_extensions, finish_index,
  parse_extensions, parse_git_index,
}

-- The entries follow one another from `low` on, with their 62 bytes before `end`.
abbrev pub IsLaidOut : ℕ → ℕ → List GitIndexEntry → Type 0
IsLaidOut low end [] = Unit
IsLaidOut low end (e ∷ entries) =
    (low ≤ e.offset)
    × (e.offset + path_offset ≤ end)
    × IsLaidOut (e.offset + path_offset) end entries

IsLaidOut-weaken :
    (low less end : ℕ) (entries : List GitIndexEntry)
    → less ≤ low
    → IsLaidOut low end entries
    → IsLaidOut less end entries
IsLaidOut-weaken low less end [] h l = tt
IsLaidOut-weaken low less end (e ∷ entries) h l = (omega (arith, l.0), l.1, l.2)

find_nul-bound : (at : ℕ) (bytes : Bytes) (t : ℕ) → find_nul at bytes ≡ some t → at ≤ t
unfolding find_nul
find_nul-bound at [] t h = cc
find_nul-bound at (b ∷ bytes) t h = ground (arith, find_nul-bound (at + 1) bytes t)

find_terminator-bound :
    (bytes : Bytes) (at end t : ℕ) → find_terminator bytes at end ≡ some t → (at ≤ t) × (t < end)
unfolding find_terminator
find_terminator-bound bytes at end t h = go (find_nul at (drop at bytes)) refl h
  where
    go :
        (o : Option ℕ)
        → find_nul at (drop at bytes) ≡ o
        → (elim o [ none ↦ none | some s ↦ if leb end s then none else some s ]) ≡ some t
        → (at ≤ t) × (t < end)
    go none e h = cc
    go (some s) e h = let b = find_nul-bound at (drop at bytes) s e in (ground arith, ground arith)

continue_strip_length-bound :
    (value cursor : ℕ) (bytes : Bytes) (v c : ℕ)
    → continue_strip_length value cursor bytes ≡ some (v, c)
    → cursor ≤ c
unfolding continue_strip_length
continue_strip_length-bound value cursor [] v c h = cc
continue_strip_length-bound value cursor (byte ∷ bytes) v c h =
    ground (
      arith,
      continue_strip_length-bound ((value + 1) * 2 ^ 7 + byte % 2 ^ 7) (cursor + 1) bytes v c,
    )

-- What one turn of the loop leaves.
abbrev EntryBound : ℕ → ℕ → Outcome (GitIndexEntry × ℕ) → Type 0
EntryBound offset end (error m) = Unit
EntryBound offset end (ok (e, next)) =
    (e.offset ≡ offset) × (offset + path_offset ≤ end) × (offset + path_offset ≤ next)

strip_length-bound :
    (cursor : ℕ) (bytes : Bytes) (v c : ℕ) → strip_length cursor bytes ≡ some (v, c) → cursor ≤ c
unfolding strip_length
strip_length-bound cursor [] v c h = cc
strip_length-bound cursor (byte ∷ bytes) v c h =
    ground (arith, continue_strip_length-bound (byte % 2 ^ 7) (cursor + 1) bytes v c)

suffixed_entry-EntryBound :
    (bytes : Bytes) (end offset : ℕ) (prefix : Bytes) (cursor : ℕ) (t : Option ℕ)
    → offset + path_offset ≤ end
    → offset + path_offset ≤ cursor
    → ((s : ℕ) → t ≡ some s → cursor ≤ s)
    → EntryBound offset end (suffixed_entry bytes offset prefix cursor t)
unfolding suffixed_entry entry_at unterminated
suffixed_entry-EntryBound bytes end offset prefix cursor none b c k = tt
suffixed_entry-EntryBound bytes end offset prefix cursor (some s) b c k =
    let below = k s refl in (refl, b, omega arith)

stripped_entry-EntryBound :
    (bytes : Bytes) (end offset : ℕ) (previous : Bytes) (start : ℕ) (r : Option (ℕ × ℕ))
    → offset + path_offset ≤ end
    → offset + path_offset ≤ start
    → ((v c : ℕ) → r ≡ some (v, c) → start ≤ c)
    → EntryBound offset end (stripped_entry bytes end offset previous r)
unfolding stripped_entry
stripped_entry-EntryBound bytes end offset previous start none b c k = tt
stripped_entry-EntryBound bytes end offset previous start (some (strip, cursor)) b c k =
    elim (Bool-cases (ltb (length previous) strip)) [
      | inl long ↦ rw long tt
      | inr fits ↦
          let behind = k strip cursor refl in
          rw fits (
            suffixed_entry-EntryBound bytes end offset (take (length previous - strip) previous)
              cursor (find_terminator bytes cursor end) b (omega arith)
              (λ s e. (find_terminator-bound bytes cursor end s e).0))
    ]

padded_entry-EntryBound :
    (bytes : Bytes) (end offset start : ℕ) (t : Option ℕ)
    → offset + path_offset ≤ end
    → offset + path_offset ≤ start
    → EntryBound offset end (padded_entry bytes end offset start t)
unfolding padded_entry entry_at unterminated
padded_entry-EntryBound bytes end offset start none b c = tt
padded_entry-EntryBound bytes end offset start (some s) b c =
    let size = length (substr bytes start (s - start)) in
    elim (Bool-cases (ltb end (offset + (start - offset + size + 8) / 8 * 8))) [
      | inl long ↦ rw long tt
      | inr fits ↦ rw fits (refl, b, omega arith)
    ]

parse_entry_path-EntryBound :
    (bytes : Bytes) (version end offset : ℕ) (previous : Bytes) (start : ℕ)
    → offset + path_offset ≤ end
    → offset + path_offset ≤ start
    → EntryBound offset end (parse_entry_path bytes version end offset previous start)
unfolding parse_entry_path
parse_entry_path-EntryBound bytes version end offset previous start b c =
    elim (Bool-cases (version == 4)) [
      | inl four ↦ rw four (
          stripped_entry-EntryBound bytes end offset previous start
            (read_path_strip_length bytes start end) b c
            (λ v k e.
              strip_length-bound start (drop start (take end bytes)) v k
                (unfold read_path_strip_length in e)))
      | inr other ↦
          rw other
            (padded_entry-EntryBound bytes end offset start (find_terminator bytes start end) b c)
    ]

parse_entry-EntryBound :
    (bytes : Bytes) (version end offset : ℕ) (previous : Bytes)
    → EntryBound offset end (parse_entry bytes version end offset previous)
unfolding parse_entry
parse_entry-EntryBound bytes version end offset previous =
    let flags = get_or bytes (offset + 60) 0 * 2 ^ 8 + get_or bytes (offset + 61) 0 in
    elim (Bool-cases (ltb end (offset + path_offset))) [
      | inl long ↦ rw long tt
      | inr fits ↦
          let plain =
            parse_entry_path-EntryBound bytes version end offset previous (offset + path_offset)
              (ground arith) (omega arith) in
          let extended =
            parse_entry_path-EntryBound bytes version end offset previous (offset + path_offset + 2)
              (ground arith) (omega arith) in
          elim (Bool-cases (flags / 2 ^ 14 % 2 == 1)) [
            | inr clear ↦ rw (fits, clear) plain
            | inl flagged ↦ elim (Bool-cases (ltb version 3)) [
              | inl old ↦ rw (fits, flagged, old) tt
              | inr new ↦ rw (fits, flagged, new) extended
            ]
          ]
    ]

-- What the loop leaves: the entries, and the offset behind them.
abbrev EntriesBound : ℕ → ℕ → Outcome (List GitIndexEntry × ℕ) → Type 0
EntriesBound low end (error m) = Unit
EntriesBound low end (ok (entries, offset)) = IsLaidOut low end entries

push_entry-EntriesBound :
    (e : GitIndexEntry) (low next end : ℕ) (r : Outcome (List GitIndexEntry × ℕ))
    → e.offset ≡ low
    → low + path_offset ≤ end
    → low + path_offset ≤ next
    → EntriesBound next end r
    → EntriesBound low end (push_entry e r)
unfolding push_entry
push_entry-EntriesBound e low next end (error m) same b c h = tt
push_entry-EntriesBound e low next end (ok (entries, offset)) same b c h = (
  omega arith,
  omega arith,
  IsLaidOut-weaken next (e.offset + path_offset) end entries (omega arith) h,
)

parse_entries-EntriesBound :
    (count : ℕ) (bytes : Bytes) (version end offset : ℕ) (previous : Bytes)
    → EntriesBound offset end (parse_entries count bytes version end offset previous)
unfolding parse_entries
parse_entries-EntriesBound zero bytes version end offset previous = tt
parse_entries-EntriesBound (suc count) bytes version end offset previous =
    go (parse_entry bytes version end offset previous)
      (parse_entry-EntryBound bytes version end offset previous)
      (λ next path. parse_entries-EntriesBound count bytes version end next path)
  where
    go :
        (r : Outcome (GitIndexEntry × ℕ))
        → EntryBound offset end r
        → ((next : ℕ) (path : Bytes)
            → EntriesBound next end (parse_entries count bytes version end next path))
        → EntriesBound offset end (elim r [
          | error m ↦ error m
          | ok (e, next) ↦ push_entry e (parse_entries count bytes version end next e.path)
        ])
    go (error m) h rest = tt
    go (ok (e, next)) h rest =
        push_entry-EntriesBound e offset next end
          (parse_entries count bytes version end next e.path) h.0 h.1 h.2 (rest next e.path)

-- The index keeps the file as it is, and its entries lie apart behind the header.
abbrev pub IsIndexOf : Bytes → GitIndexFile → Type 0
IsIndexOf bytes index =
    (index.bytes ≡ bytes) × IsLaidOut header_size (length bytes - checksum_size) index.entries

abbrev IndexBound : Bytes → Outcome GitIndexFile → Type 0
IndexBound bytes (error m) = Unit
IndexBound bytes (ok index) = IsIndexOf bytes index

parse_extensions-IndexBound :
    (bytes : Bytes) (r : Outcome (List GitIndexEntry × ℕ))
    → EntriesBound header_size (length bytes - checksum_size) r
    → IndexBound bytes (parse_extensions bytes (length bytes - checksum_size) r)
unfolding parse_extensions
parse_extensions-IndexBound bytes (error m) h = tt
parse_extensions-IndexBound bytes (ok (entries, offset)) h =
    go (skip_extensions (length bytes - checksum_size) bytes (length bytes - checksum_size) offset)
  where
    go :
        (r : Outcome ℕ)
        → IndexBound bytes (finish_index bytes (length bytes - checksum_size) entries r)
    go (error m) = unfold finish_index in tt
    go (ok at) =
        unfold finish_index in
        elim (Bool-cases (at == length bytes - checksum_size)) [
          | inl y ↦ rw y (refl, h)
          | inr n ↦ rw n tt
        ]

parse_git_index-IndexBound : (bytes : Bytes) → IndexBound bytes (parse_git_index bytes)
unfolding parse_git_index
parse_git_index-IndexBound bytes =
    let version = read_be32 bytes 4 in
    let end = length bytes - checksum_size in
    elim (Bool-cases (
      ltb (length bytes) (header_size + checksum_size)
      || not (bytes_eq (take 4 bytes) (codes "DIRC")))) [
        | inl bad ↦ rw bad tt
        | inr good ↦ elim (Bool-cases (ltb version 2 || ltb 4 version)) [
          | inl bad ↦ rw (good, bad) tt
          | inr known ↦
              rw (good, known)
                (parse_extensions-IndexBound bytes _
                  (parse_entries-EntriesBound (read_be32 bytes 8) bytes version end header_size []))
        ]
      ]

-- A file that is parsed keeps its bytes, and its entries follow one another behind the header without
-- overlap, each with its 62 fixed bytes before the checksum.
pub parse_git_index-IsIndexOf :
    (bytes : Bytes) (index : GitIndexFile)
    → parse_git_index bytes ≡ ok index
    → IsIndexOf bytes index
parse_git_index-IsIndexOf bytes index h = rw h at (parse_git_index-IndexBound bytes)
