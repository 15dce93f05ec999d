-- ===== src/Paths/Parent.antt =====
-- `parent_of` and `join_relative` of src/core/paths.cpp, and joining against normalization.
use tribios_vfs.Common.{
  ◌<◌, true, false, List, [], ◌∷◌, ◌++◌, Bytes, ◌≡◌, ◌≢◌, refl, sym, ap, arith, All, Lacks,
  Bool-cases, inl, inr, ◌∙◌, length,
}
use tribios_vfs.Paths.{
  slash, take_segment, has_slash, parent_of, join_relative, take_segments, write_segments,
  normalize_relative,
}
use tribios_vfs.Paths.Normal.{
  IsSegment, take_segments-IsSegment, take_segments-write_segments-slash, write_segments-cons,
}

has_slash-Lacks : (s : Bytes) → Lacks slash s → has_slash s ≡ false
unfolding has_slash
has_slash-Lacks [] w = refl
has_slash-Lacks (c ∷ s) w = ground (arith, has_slash-Lacks s w.1)

has_slash-append : (p s : Bytes) → has_slash (p ++ slash ∷ s) ≡ true
unfolding has_slash
has_slash-append [] s = refl
has_slash-append (c ∷ p) s = ground (arith, has_slash-append p s)

parent_of-Lacks : (s : Bytes) → Lacks slash s → parent_of s ≡ []
unfolding parent_of
parent_of-Lacks [] w = refl
parent_of-Lacks (c ∷ s) w = rw (has_slash-Lacks s w.1)

parent_of-append : (p s : Bytes) → Lacks slash s → parent_of (p ++ slash ∷ s) ≡ p
unfolding parent_of
parent_of-append [] s w = rw (has_slash-Lacks s w)
parent_of-append (c ∷ p) s w = rw (has_slash-append p s) (ap (λ l. c ∷ l) (parent_of-append p s w))

-- The parent of an entry that is named, without a slash, within a directory is that directory.
pub parent_of-join_relative :
    (parent name : Bytes) → Lacks slash name → parent_of (join_relative parent name) ≡ parent
unfolding join_relative
parent_of-join_relative [] name w = parent_of-Lacks name w
parent_of-join_relative (c ∷ p) name w = parent_of-append (c ∷ p) name w

length-parent_of_slash : (s : Bytes) → has_slash s ≡ true → length (parent_of s) < length s
unfolding parent_of has_slash
length-parent_of_slash [] h = cc
length-parent_of_slash (c ∷ s) h = elim (Bool-cases (has_slash s)) [
  | inl e ↦ rw e (omega (arith, length-parent_of_slash s e))
  | inr e ↦ rw e (omega arith)
]

-- Each step to the parent shortens a path that is not the root, so a walk over the ancestors ends.
pub length-parent_of : (path : Bytes) → path ≢ [] → length (parent_of path) < length path
unfolding parent_of
length-parent_of [] h = absurd (h refl)
length-parent_of (c ∷ s) h = elim (Bool-cases (has_slash s)) [
  | inl e ↦ rw e (omega (arith, length-parent_of_slash s e))
  | inr e ↦ rw e (omega arith)
]

take_segments_past_slash :
    (p q : Bytes) (segments : List Bytes) (s : Bytes)
    → take_segments (p ++ slash ∷ q) segments s ≡ take_segments q (take_segments p segments s) []
unfolding take_segments
take_segments_past_slash [] q segments s = ground arith
take_segments_past_slash (c ∷ p) q segments s = ground (
  arith,
  take_segments_past_slash p q (take_segment segments s) [],
  take_segments_past_slash p q segments (s ++ c ∷ []),
)

join_relative-write_segments :
    (ss : List Bytes) (q : Bytes)
    → All IsSegment ss
    → take_segments (join_relative (write_segments ss []) q) [] [] ≡ take_segments q ss []
unfolding join_relative
join_relative-write_segments [] q h = unfold write_segments in refl
join_relative-write_segments ([] ∷ ss) q h = absurd (h.0.named refl)
join_relative-write_segments ((c ∷ s) ∷ ss) q h = rw (write_segments-cons (c ∷ s) ss h.0) (
    ap (λ l. take_segments (l ++ slash ∷ q) [] []) (sym (write_segments-cons (c ∷ s) ss h.0))
    ∙ take_segments-write_segments-slash (c ∷ s) ss q h)

-- Normalizing the first of two paths before they are joined by a slash changes nothing: the second
-- resolves from the place to which the first leads.
pub normalize_relative-join_relative :
    (p q : Bytes)
    → normalize_relative (join_relative (normalize_relative p) q)
      ≡ normalize_relative (p ++ slash ∷ q)
unfolding normalize_relative
normalize_relative-join_relative p q =
    ap (λ l. write_segments l [])
      (join_relative-write_segments (take_segments p [] []) q
          (take_segments-IsSegment p [] [] tt tt)
        ∙ sym (take_segments_past_slash p q [] []))
