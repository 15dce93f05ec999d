-- ===== src/FuseAdapter/Pages.antt =====
-- Directory reading in pages: `tri_readdir` of src/fuse/fuse_adapter.cpp for a reader that goes on at the
-- offset behind the last entry it got.
use tribios_vfs.Common.{
  ℕ, suc, zero, ◌+◌, ◌-◌, ◌⊎◌, All, ◌≤◌, Bool, true, false, List, [], ◌∷◌, ◌++◌, map, length, take,
  drop, Bytes, Option, none, some, ◌==◌, ◌&&◌, not, ◌≡◌, refl, ap, ◌∙◌, sym, arith, inl, inr,
}
use tribios_vfs.Engine.Host.{Host, Result, ok, fail}
use tribios_vfs.Engine.State.{DirEntry}
use tribios_vfs.FuseAdapter.{View}
use tribios_vfs.FuseAdapter.Directories.{
  DirectorySnapshot, Filled, fill_from, read_snapshot, tri_readdir,
}

unfoldable pub last_offset : ℕ → List Filled → ℕ
last_offset offset [] = offset
last_offset offset ((e, next) ∷ filled) = last_offset next filled

unfoldable pub filled_of : Result (List Filled) → List Filled
filled_of (fail c) = []
filled_of (ok filled) = filled

unfoldable pub kept_snapshot : DirectorySnapshot → Option DirectorySnapshot → DirectorySnapshot
kept_snapshot old none = old
kept_snapshot old (some d) = d

-- What a reader collects in one call for each room: it asks with the offset that it got last.
unfoldable pub read_pages : Host → Bytes → List ℕ → ℕ → DirectorySnapshot → View → List DirEntry
read_pages h path [] offset snapshot s = []
read_pages h path (room ∷ rooms) offset snapshot s =
    let (r, after, t) = tri_readdir h path room offset (some (some snapshot)) s in
    let filled = filled_of r in
    let rest =
      read_pages h path rooms (last_offset offset filled) (kept_snapshot snapshot after) t in
    map (λ (f : Filled). f.0) filled ++ rest

fill_from-take :
    (room index : ℕ) (es : List DirEntry)
    → map (λ (f : Filled). f.0) (fill_from room index es) ≡ take room es
unfolding fill_from
fill_from-take zero index [] = refl
fill_from-take (suc room) index [] = refl
fill_from-take zero index (e ∷ es) = refl
fill_from-take (suc room) index (e ∷ es) = ap (λ l. e ∷ l) (fill_from-take room (index + 1) es)

last_offset-fill_from :
    (room index : ℕ) (es : List DirEntry)
    → last_offset index (fill_from room index es) ≡ index + length (take room es)
unfolding fill_from last_offset
last_offset-fill_from zero index [] = omega arith
last_offset-fill_from (suc room) index [] = omega arith
last_offset-fill_from zero index (e ∷ es) = omega arith
last_offset-fill_from (suc room) index (e ∷ es) =
    last_offset-fill_from room (index + 1) es ∙ omega arith

module _ {ℓ} {A : Type ℓ} where
  drop-nil : (n : ℕ) → drop {A = A} n [] ≡ []
  drop-nil zero = refl
  drop-nil (suc n) = refl

  drop-add : (m n : ℕ) (xs : List A) → drop (m + n) xs ≡ drop n (drop m xs)
  drop-add zero n xs = ap (λ k. drop k xs) (omega arith)
  drop-add (suc m) n [] = drop-nil (suc m + n) ∙ sym (drop-nil n)
  drop-add (suc m) n (x ∷ xs) =
      let e : suc m + n ≡ suc (m + n) = omega arith in ap (λ k. drop k (x ∷ xs)) e ∙ drop-add m n xs

  take-rest : (n : ℕ) (xs : List A) → take n xs ++ drop (length (take n xs)) xs ≡ xs
  take-rest zero xs = refl
  take-rest (suc n) [] = refl
  take-rest (suc n) (x ∷ xs) = ap (λ l. x ∷ l) (take-rest n xs)

  length-drop : (n : ℕ) (xs : List A) → length (drop n xs) ≡ length xs - n
  length-drop zero xs = omega arith
  length-drop (suc n) [] = omega arith
  length-drop (suc n) (x ∷ xs) = omega (arith, length-drop n xs)

  nil-of_length : (xs : List A) → length xs ≤ 0 → xs ≡ []
  nil-of_length [] h = refl
  nil-of_length (x ∷ xs) h = absurd (omega (arith, h))

  length-take : (n : ℕ) (xs : List A) → 1 ≤ n → 1 ≤ length xs → 1 ≤ length (take n xs)
  length-take zero xs n_pos h = absurd (omega (arith, n_pos))
  length-take (suc n) [] n_pos h = h
  length-take (suc n) (x ∷ xs) n_pos h = omega arith

  -- A page of one entry or more leaves fewer.
  length-rest :
      (room n : ℕ) (xs : List A)
      → 1 ≤ room
      → length xs ≤ suc n
      → length (drop (length (take room xs)) xs) ≤ n
  length-rest zero n xs r h = absurd (omega (arith, r))
  length-rest (suc room) n [] r h = omega arith
  length-rest (suc room) n (x ∷ xs) r h = omega (arith, h, length-drop (length (take room xs)) xs)

module _ (h : Host) (path : Bytes) where
  -- Behind the start, the snapshot is read as it is.
  tri_readdir-on :
      (room offset : ℕ) (snapshot : DirectorySnapshot) (s : View)
      → ((offset == 0) && not snapshot.first_read_pending) ≡ false
      → tri_readdir h path room offset (some (some snapshot)) s ≡ (
        ok (fill_from room offset (drop offset snapshot.entries)),
        some (record snapshot { first_read_pending = false }),
        s,
      )
  unfolding tri_readdir read_snapshot
  tri_readdir-on room offset snapshot s e = rw e refl

  page :
      (room offset : ℕ) (rooms : List ℕ) (snapshot : DirectorySnapshot) (s : View)
      → ((offset == 0) && not snapshot.first_read_pending) ≡ false
      → read_pages h path (room ∷ rooms) offset snapshot s
        ≡ take room (drop offset snapshot.entries)
          ++ read_pages h path rooms
              (offset + length (take room (drop offset snapshot.entries)))
              (record snapshot { first_read_pending = false })
              s
  unfolding read_pages filled_of kept_snapshot
  page room offset rooms snapshot s e =
      rw
        (
          tri_readdir-on room offset snapshot s e,
          fill_from-take room offset (drop offset snapshot.entries),
          last_offset-fill_from room offset (drop offset snapshot.entries),
        )
        refl

  module _ (entries : List DirEntry) (s : View) where
    on-pos :
        (room offset : ℕ)
        → 1 ≤ room
        → (1 ≤ offset) ⊎ (1 ≤ length entries)
        → 1 ≤ offset + length (take room (drop offset entries))
    on-pos room zero r moves = omega (
      arith,
      length-take room entries r (elim moves [ inl h ↦ absurd (omega (arith, h)) | inr h ↦ h ]),
    )
    on-pos room (suc offset) r moves = omega arith

    pages-rest :
        (rooms : List ℕ) (offset : ℕ) (first : Bool)
        → ((offset == 0) && not first) ≡ false
        → All (λ r. 1 ≤ r) rooms
        → (1 ≤ offset) ⊎ (1 ≤ length entries)
        → length (drop offset entries) ≤ length rooms
        → read_pages h path rooms offset
            (record { entries = entries; first_read_pending = first })
            s
          ≡ drop offset entries
    pages-rest [] offset first e ok_ moves fits =
        unfold read_pages in sym (nil-of_length (drop offset entries) fits)
    pages-rest (room ∷ rooms) offset first e (r, rs) moves fits =
        let xs = drop offset entries in
        let on = offset + length (take room xs) in
        let rest : drop on entries ≡ drop (length (take room xs)) xs =
          drop-add offset (length (take room xs)) entries in
        let later : 1 ≤ on = on-pos room offset r moves in
        let fewer : length (drop on entries) ≤ length rooms =
          rw rest (length-rest room (length rooms) xs r fits) in
        rw (page room offset rooms (record { entries = entries; first_read_pending = first }) s e) (
          rw (pages-rest rooms on false (ground (arith, later)) rs (inl later) fewer, rest)
            (take-rest room xs))

    -- A reader that opens a directory, calls `tri_readdir` with the offset behind the last entry it
    -- got, and takes one entry or more from each call, has after as many calls as there are entries
    -- read every entry of the snapshot once, in its order, however the calls are cut.
    pub read_pages-entries :
        (rooms : List ℕ)
        → All (λ r. 1 ≤ r) rooms
        → 1 ≤ length entries
        → length entries ≤ length rooms
        → read_pages h path rooms 0 (record { entries = entries; first_read_pending = true }) s
          ≡ entries
    read_pages-entries rooms rs some_ fits =
        pages-rest rooms 0 true (ground arith) rs (inr some_) fits
