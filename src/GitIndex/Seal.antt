-- ===== src/GitIndex/Seal.antt =====
-- The checksum and the extensions of an index: `seal_git_index` and the last loop of
-- `parse_git_index` of src/core/git_index.cpp.
use Prim.Native.Nat.{zero, suc}
use tribios_vfs.Common.{
  ℕ, ◌+◌, ◌-◌, ◌≤◌, ltb, [], ◌∷◌, ◌++◌, Bytes, codes, bytes_eq, length, length-append, take,
  if◌then◌else◌, ◌≡◌, refl, arith, ap, sym, ◌∙◌,
}
use tribios_vfs.Sha1.{sha1_digest, word_bytes}
use tribios_vfs.Store.Sql.{ok, error}
use tribios_vfs.GitIndex.{GitIndexFile, checksum_size, read_be32, seal_git_index}
use tribios_vfs.GitIndex.Parse.{skip_extensions, substr}

length-sha1_digest : (message : Bytes) → length (sha1_digest message) ≡ checksum_size
unfolding sha1_digest word_bytes
length-sha1_digest message = refl

length-take : (n : ℕ) (s : Bytes) → n ≤ length s → length (take n s) ≡ n
length-take zero s h = refl
length-take (suc n) [] h = absurd (omega arith)
length-take (suc n) (c ∷ s) h = ap suc (length-take n s (omega arith))

take-append : (s t : Bytes) → take (length s) (s ++ t) ≡ s
take-append [] t = refl
take-append (c ∷ s) t = ap (λ r. c ∷ r) (take-append s t)

abbrev content : GitIndexFile → Bytes
content index = take (length index.bytes - checksum_size) index.bytes

abbrev with_content : GitIndexFile → Bytes → GitIndexFile
with_content index c = record index { bytes = c ++ sha1_digest c }

sealed :
    (index : GitIndexFile)
    → seal_git_index index ≡ record index { bytes = content index ++ sha1_digest (content index) }
unfolding seal_git_index
sealed index = refl

module _ (index : GitIndexFile) (h : checksum_size ≤ length index.bytes) where
  cut : length (content index) ≡ length index.bytes - checksum_size
  cut = length-take (length index.bytes - checksum_size) index.bytes (omega arith)

  whole : length (seal_git_index index).bytes ≡ length index.bytes
  whole =
      let parts = length-append (content index) (sha1_digest (content index)) in
      let tail = length-sha1_digest (content index) in rw sealed (omega (arith, parts, tail, cut))

  kept : take (length index.bytes - checksum_size) (seal_git_index index).bytes ≡ content index
  kept =
      ap (λ i. take (length index.bytes - checksum_size) i.bytes) (sealed index)
      ∙ ap (λ n. take n (content index ++ sha1_digest (content index))) (sym cut)
      ∙ take-append (content index) (sha1_digest (content index))

  same_content : content (seal_git_index index) ≡ content index
  same_content = rw whole kept

-- Sealing keeps the length of a file with room for its checksum and every byte before the checksum,
-- and a file that is sealed is not changed by sealing it again.
pub seal_git_index-Seals :
    (index : GitIndexFile)
    → checksum_size ≤ length index.bytes
    → (length (seal_git_index index).bytes ≡ length index.bytes)
      × (take (length index.bytes - checksum_size) (seal_git_index index).bytes
          ≡ take (length index.bytes - checksum_size) index.bytes)
      × (seal_git_index (seal_git_index index) ≡ seal_git_index index)
seal_git_index-Seals index h = (whole index h, kept index h, again)
  where
    again : seal_git_index (seal_git_index index) ≡ seal_git_index index
    again =
        sealed (seal_git_index index)
        ∙ ap (with_content (seal_git_index index)) (same_content index h)
        ∙ ap (λ i. with_content i (content index)) (sealed index)
        ∙ sym (sealed index)

-- The extensions are read to their end: with as much fuel as bytes are left, more fuel changes
-- nothing.
pub skip_extensions-enough :
    (fuel more : ℕ) (bytes : Bytes) (end offset : ℕ)
    → end ≤ offset + fuel
    → fuel ≤ more
    → skip_extensions more bytes end offset ≡ skip_extensions fuel bytes end offset
unfolding skip_extensions
skip_extensions-enough zero zero bytes end offset e m = refl
skip_extensions-enough zero (suc more) bytes end offset e m = ground arith
skip_extensions-enough (suc fuel) zero bytes end offset e m = absurd (omega arith)
skip_extensions-enough (suc fuel) (suc more) bytes end offset e m =
    ap
      (λ rest.
        if ltb end (offset + 8)
        then ok offset
        else if bytes_eq (substr bytes offset 4) (codes "link")
        then error (codes "split Git indexes are not supported")
        else if ltb (end - offset - 8) (read_be32 bytes (offset + 4))
        then error (codes "truncated Git index extension " ++ substr bytes offset 4)
        else rest)
      (skip_extensions-enough fuel more bytes end (offset + 8 + read_be32 bytes (offset + 4))
        (omega arith) (omega arith))
