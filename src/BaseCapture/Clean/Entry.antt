-- ===== src/BaseCapture/Clean/Entry.antt =====
-- One entry of a capture of src/core/base_capture.cpp: Git's and Tribios' own files stay out.
use tribios_vfs.Common.{
  Bool, false, List, [], ◌∷◌, ◌++◌, Bytes, Option, none, some, ◌≡◌, refl, ◌==◌, arith, Bool-cases,
  inl, inr, ◌||◌, if◌then◌else◌, All, bytes_eq, is_empty,
}
use tribios_vfs.Paths.{slash, has_slash}
use tribios_vfs.Store.Sql.{ok, error}
use tribios_vfs.CapturePolicy.{CaptureDecision}
use tribios_vfs.BaseCapture.{
  FileType, regular, directory, symlink, special, Stat, Entries, no_more, gone, entry, Saved,
  saved_link, saved_directory, saved_file, CaptureWalk, Sink,
}
use tribios_vfs.BaseCapture.Walk.{
  Captured, and_then, save, add_entry, add_bytes, capture_link, create_directory, copied, copy_file,
  capture_kind, capture_decided, read_directory, exclude, git_dir_name, tribios_dir_name,
}

-- The bytes before the first slash.
unfoldable pub first_segment : Bytes → Bytes
first_segment [] = []
first_segment (c ∷ s) = let rest = first_segment s in if c == slash then [] else c ∷ rest

pub first_segment-plain : (s : Bytes) → has_slash s ≡ false → first_segment s ≡ s
unfolding first_segment has_slash
first_segment-plain [] h = refl
first_segment-plain (c ∷ s) h = elim (Bool-cases (c == slash)) [
  | inl e ↦ cc
  | inr e ↦ rw (e, first_segment-plain s (ground (arith, h, e))) refl
]

pub first_segment-join : (s name : Bytes) → first_segment (s ++ slash ∷ name) ≡ first_segment s
unfolding first_segment
first_segment-join [] name = refl
first_segment-join (c ∷ s) name = rw (first_segment-join s name) refl

-- The path is the `.git` or the `.tribios` of the Project's root, or lies in one of them.
unfoldable pub is_metadata : Bytes → Bool
is_metadata path =
    bytes_eq (first_segment path) git_dir_name || bytes_eq (first_segment path) tribios_dir_name

unfoldable pub path_of : Saved → Bytes
path_of (saved_link path target) = path
path_of (saved_directory path mode) = path
path_of (saved_file path body mode) = path

abbrev pub IsClean : List Saved → Type 0
IsClean = All (λ x. is_metadata (path_of x) ≡ false)

-- The names of a directory: none is empty or has a slash.
abbrev pub ArePlain : Entries → Type 0
ArePlain no_more = Unit
ArePlain (gone name rest) = ArePlain rest
ArePlain (entry name st content unreadable inside rest) =
    (is_empty name ≡ false) × (has_slash name ≡ false) × ArePlain rest

abbrev pub Keeps : (Sink → Captured) → Type 0
Keeps f = (s : Sink) → IsClean s.base → IsClean (f s).1.base

pub and_then-IsClean :
    (r : Captured) (f : Sink → Captured)
    → IsClean r.1.base
    → Keeps f
    → IsClean (and_then r f).1.base
unfolding and_then
and_then-IsClean (error m, s) f h k = h
and_then-IsClean (ok u, s) f h k = k s h

module _ (w : CaptureWalk) where
  module _ (s : Sink) (clean : IsClean s.base) (child : Bytes)
      (own : is_metadata child ≡ false) where
    capture_link-IsClean :
        (b : Option Bytes) (target : Bytes) → IsClean (capture_link w b child target s).1.base
    unfolding capture_link save path_of
    capture_link-IsClean none target = clean
    capture_link-IsClean (some b) target = elim (Bool-cases (w.disk.link_fails child)) [
      | inl f ↦ rw f clean
      | inr f ↦ rw f (own, clean)
    ]

    create_directory-IsClean :
        (b : Option Bytes) (st : Stat) → IsClean (create_directory w b child st s).1.base
    unfolding create_directory save path_of
    create_directory-IsClean none st = clean
    create_directory-IsClean (some b) st = elim (Bool-cases (w.disk.directory_fails child)) [
      | inl f ↦ rw f clean
      | inr f ↦ rw f (own, clean)
    ]

    copied-IsClean :
        (content : Bytes) (st : Stat) (e : Option Bytes)
        → IsClean (copied w child content st e s).1.base
    unfolding copied save path_of
    copied-IsClean content st none = (own, clean)
    copied-IsClean content st (some m) = clean

    copy_file-IsClean :
        (b : Option Bytes) (content : Bytes) (st : Stat)
        → IsClean (copy_file w b child content st s).1.base
    unfolding copy_file
    copy_file-IsClean none content st = clean
    copy_file-IsClean (some b) content st = copied-IsClean content st (w.disk.copy_error child)

    capture_kind-IsClean :
        (st : Stat) (kind : FileType) (content : Bytes) (f : Sink → Captured)
        → Keeps f
        → IsClean (capture_kind w child st kind content f s).1.base
    unfolding capture_kind add_bytes
    capture_kind-IsClean st symlink content f k = capture_link-IsClean w.base_root content
    capture_kind-IsClean st directory content f k =
        and_then-IsClean (create_directory w w.base_root child st s) f
          (create_directory-IsClean w.base_root st) k
    capture_kind-IsClean st regular content f k =
        and_then-IsClean (copy_file w w.base_root child content st s) _
          (copy_file-IsClean w.base_root content st) (λ t h. h)
    capture_kind-IsClean st special content f k = clean

    pub capture_decided-IsClean :
        (st : Stat) (content : Bytes) (unreadable : Option Bytes) (inside : Entries)
        (d : CaptureDecision) (f : Sink → Captured)
        → Keeps f
        → IsClean (capture_decided w child st content unreadable inside d f s).1.base
    unfolding capture_decided exclude add_entry
    capture_decided-IsClean st content unreadable inside d f k = elim (Bool-cases d.excluded) [
      | inl e ↦ rw e clean
      | inr e ↦ rw e (
          and_then-IsClean (capture_kind w child st st.file_type content f s) _
            (capture_kind-IsClean st st.file_type content f k) (λ t h. h))
    ]

  pub read_directory-IsClean :
      (relative : Bytes) (unreadable : Option Bytes) (f : Sink → Captured)
      → Keeps f
      → Keeps (read_directory w relative unreadable f)
  unfolding read_directory
  read_directory-IsClean relative none f k s h = k s h
  read_directory-IsClean relative (some m) f k s h = h
