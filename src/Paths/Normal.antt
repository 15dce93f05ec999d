-- ===== src/Paths/Normal.antt =====
-- What `normalize_relative` of src/core/paths.cpp returns: a chain of plain segments.
use mathlib.Core.List.{cons-ne-nil}
use tribios_vfs.Common.{
  ◌↔◌, ℕ, Bool, true, false, List, [], ◌∷◌, ◌++◌, Bytes, codes, bytes_eq, bytes_eq_iff, is_empty,
  ◌==◌, not, ◌&&◌, ◌≡◌, ◌≢◌, refl, sym, ap, arith, All, All-append, All-drop_last, Lacks,
  append_assoc, append-nil, Bool-cases, inl, inr, ◌∙◌,
}
use tribios_vfs.Paths.{slash, take_segment, take_segments, write_segments, normalize_relative}

-- A segment that names an entry of a directory.
pub record IsSegment (s : Bytes) : Type 0 where
  pub named : s ≢ []
  pub not_dot : s ≢ codes "."
  pub not_dot_dot : s ≢ codes ".."
  pub whole : Lacks slash s

-- A path of the view in its one normal form.
abbrev pub IsNormal : Bytes → Type 0
IsNormal path =
    (segments : List Bytes) × All IsSegment segments × (path ≡ write_segments segments [])

-- The test of `take_segment` for a segment that is taken.
abbrev is_plain : Bytes → Bool
is_plain s = not (is_empty s) && not (bytes_eq s (codes "."))

plain-IsSegment :
    (s : Bytes) → Lacks slash s → bytes_eq s (codes "..") ≡ false → is_plain s ≡ true → IsSegment s
plain-IsSegment [] w up plain = cc
plain-IsSegment (c ∷ s) w up plain = record {
  named = cons-ne-nil c s;
  not_dot = λ e. ground (arith, (bytes_eq_iff (c ∷ s) (codes ".")).1 e);
  not_dot_dot = λ e. ground (arith, (bytes_eq_iff (c ∷ s) (codes "..")).1 e);
  whole = w;
}

take_segment-IsSegment :
    (segments : List Bytes) (s : Bytes)
    → All IsSegment segments
    → Lacks slash s
    → All IsSegment (take_segment segments s)
unfolding take_segment
take_segment-IsSegment segments s h w = elim (Bool-cases (bytes_eq s (codes ".."))) [
  | inl up ↦ rw up (All-drop_last IsSegment segments h)
  | inr down ↦ elim (Bool-cases (is_plain s)) [
    | inl plain ↦
        rw (down, plain)
          (All-append IsSegment segments (s ∷ []) h (plain-IsSegment s w down plain, tt))
    | inr skipped ↦ rw (down, skipped) h
  ]
]

-- From plain segments and a segment in progress, only plain segments are taken.
pub take_segments-IsSegment :
    (path : Bytes) (segments : List Bytes) (s : Bytes)
    → All IsSegment segments
    → Lacks slash s
    → All IsSegment (take_segments path segments s)
unfolding take_segments
take_segments-IsSegment [] segments s h w = take_segment-IsSegment segments s h w
take_segments-IsSegment (c ∷ path) segments s h w = elim (Bool-cases (c == slash)) [
  | inl e ↦
      rw (e, take_segments)
        (take_segments-IsSegment path (take_segment segments s) []
          (take_segment-IsSegment segments s h w) tt)
  | inr e ↦
      rw (e, take_segments)
        (take_segments-IsSegment path segments (s ++ c ∷ []) h
          (All-append (λ b. b ≢ slash) s (c ∷ []) w (ground arith, tt)))
]

take_segment-push :
    (segments : List Bytes) (s : Bytes) → IsSegment s → take_segment segments s ≡ segments ++ s ∷ []
unfolding take_segment
take_segment-push segments [] g = absurd (g.named refl)
take_segment-push segments (c ∷ s) g = ground (
  arith,
  bytes_eq_iff (c ∷ s) (codes "."),
  bytes_eq_iff (c ∷ s) (codes ".."),
  g.not_dot,
  g.not_dot_dot,
)

take_segments-append :
    (s rest : Bytes) (segments : List Bytes) (begun : Bytes)
    → Lacks slash s
    → take_segments (s ++ rest) segments begun ≡ take_segments rest segments (begun ++ s)
unfolding take_segments
take_segments-append [] rest segments begun w = rw append-nil
take_segments-append (c ∷ s) rest segments begun w = ground (
  arith,
  take_segments-append s rest segments (begun ++ c ∷ []) w.1,
  append_assoc begun (c ∷ []) s,
)

take_segments_at_slash :
    (rest : Bytes) (segments : List Bytes) (s : Bytes)
    → take_segments (slash ∷ rest) segments s ≡ take_segments rest (take_segment segments s) []
unfolding take_segments
take_segments_at_slash rest segments s = ground arith

-- Every segment behind a slash.
unfoldable pub separated : List Bytes → Bytes
separated [] = []
separated (s ∷ ss) = slash ∷ s ++ separated ss

write_segments-separated :
    (segments : List Bytes) (c : ℕ) (out : Bytes)
    → write_segments segments (c ∷ out) ≡ c ∷ out ++ separated segments
unfolding write_segments separated
write_segments-separated [] c out = rw append-nil
write_segments-separated (s ∷ ss) c out =
    write_segments-separated ss c (out ++ slash ∷ [] ++ s) ∙ simp append_assoc

-- A normal path with a segment at its head: that segment, and the others behind slashes.
pub write_segments-cons :
    (s : Bytes) (ss : List Bytes) → IsSegment s → write_segments (s ∷ ss) [] ≡ s ++ separated ss
unfolding write_segments
write_segments-cons [] ss g = absurd (g.named refl)
write_segments-cons (c ∷ s) ss g = write_segments-separated ss c s

take_segments-separated :
    (ss taken : List Bytes) (s rest : Bytes)
    → IsSegment s
    → All IsSegment ss
    → take_segments (separated ss ++ slash ∷ rest) taken s ≡ take_segments rest (taken ++ s ∷ ss) []
unfolding separated
take_segments-separated [] taken s rest g h =
    take_segments_at_slash rest taken s
    ∙ ap (λ l. take_segments rest l []) (take_segment-push taken s g)
take_segments-separated (t ∷ ss) taken s rest g (ht, h) =
    rw
      (
        take_segments_at_slash,
        take_segment-push taken s g,
        append_assoc t (separated ss) (slash ∷ rest),
        take_segments-append t _ _ [] ht.whole,
        take_segments-separated ss (taken ++ s ∷ []) t rest ht h,
      )
      (ap (λ l. take_segments rest l []) (append_assoc taken (s ∷ []) (t ∷ ss)))

take_segments-separated_end :
    (ss taken : List Bytes) (s : Bytes)
    → IsSegment s
    → All IsSegment ss
    → take_segments (separated ss) taken s ≡ taken ++ s ∷ ss
unfolding separated
take_segments-separated_end [] taken s g h = unfold take_segments in take_segment-push taken s g
take_segments-separated_end (t ∷ ss) taken s g (ht, h) =
    rw
      (
        take_segments_at_slash,
        take_segment-push taken s g,
        take_segments-append t _ _ [] ht.whole,
        take_segments-separated_end ss (taken ++ s ∷ []) t ht h,
      )
      (append_assoc taken (s ∷ []) (t ∷ ss))

-- Reading back a written path gives its segments.
pub take_segments-write_segments :
    (ss : List Bytes) → All IsSegment ss → take_segments (write_segments ss []) [] [] ≡ ss
take_segments-write_segments [] h = unfold take_segments take_segment write_segments in refl
take_segments-write_segments (s ∷ ss) (g, h) =
    rw (write_segments-cons s ss g, take_segments-append s _ [] [] g.whole)
      (take_segments-separated_end ss [] s g h)

-- The same with more path behind a slash.
pub take_segments-write_segments-slash :
    (s : Bytes) (ss : List Bytes) (rest : Bytes)
    → All IsSegment (s ∷ ss)
    → take_segments (write_segments (s ∷ ss) [] ++ slash ∷ rest) [] []
      ≡ take_segments rest (s ∷ ss) []
take_segments-write_segments-slash s ss rest (g, h) =
    rw
      (
        write_segments-cons s ss g,
        append_assoc s (separated ss) (slash ∷ rest),
        take_segments-append s _ [] [] g.whole,
      )
      (take_segments-separated ss [] s rest g h)

-- For every input, the result is empty or a chain of segments joined by single slashes, none of
-- which is empty, `.` or `..` or holds a slash.
pub normalize_relative-IsNormal : (path : Bytes) → IsNormal (normalize_relative path)
unfolding normalize_relative
normalize_relative-IsNormal path =
    (take_segments path [] [], take_segments-IsSegment path [] [] tt tt, refl)

-- A path in normal form is left as it is.
pub normalize_relative-eq_of_IsNormal :
    (path : Bytes) → IsNormal path → normalize_relative path ≡ path
unfolding normalize_relative
normalize_relative-eq_of_IsNormal path (ss, h, e) =
    rw e (ap (λ l. write_segments l []) (take_segments-write_segments ss h))

-- The test `normalize_relative(path) == path`, by which recovery judges a stored path, accepts
-- exactly the paths in normal form.
pub normalize_relative-eq_iff : (path : Bytes) → (normalize_relative path ≡ path) ↔ IsNormal path
normalize_relative-eq_iff path = (
  λ e. let (ss, h, w) = normalize_relative-IsNormal path in (ss, h, sym e ∙ w),
  normalize_relative-eq_of_IsNormal path,
)
