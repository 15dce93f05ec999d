-- ===== src/FuseAdapter/Paths.antt =====
-- Which Workspace and path a FUSE path names: `parse_project_view_path` of src/fuse/fuse_adapter.cpp, with
-- the names that `is_valid_workspace_name` of src/core/project_manager.cpp accepts.
use tribios_vfs.Common.{
  ℕ, true, false, List, [], ◌∷◌, ◌++◌, Bytes, codes, bytes_eq, bytes_eq_iff, is_empty, length, ltb,
  none, some, All, Lacks, ◌||◌, if◌then◌else◌, ◌≡◌, ◌≢◌, ◌⊎◌, inl, inr, refl, sym, ap, ◌∙◌, arith,
  Bool-cases, append-nil,
}
use tribios_vfs.Paths.{
  slash, has_slash, take_segment, take_segments, write_segments, normalize_relative,
}
use tribios_vfs.Paths.Normal.{
  IsSegment, IsNormal, separated, write_segments-cons, normalize_relative-IsNormal,
  normalize_relative-eq_of_IsNormal, normalize_relative-eq_iff,
}
use tribios_vfs.Projects.Names.{is_alnum, is_allowed, all_allowed, is_valid_workspace_name}
use tribios_vfs.FuseAdapter.{
  ViewPath, cons_before, split_slash, view_of, parse_normalized, parse_project_view_path,
}

allowed-Lacks : (name : Bytes) → all_allowed name ≡ true → Lacks slash name
unfolding all_allowed is_allowed is_alnum
allowed-Lacks [] h = tt
allowed-Lacks (c ∷ name) h = ((λ e. ground arith), allowed-Lacks name (ground arith))

-- A name that `create_workspace` accepts is a plain segment of a path.
pub valid_name-IsSegment : (name : Bytes) → is_valid_workspace_name name ≡ true → IsSegment name
unfolding is_valid_workspace_name
valid_name-IsSegment name h =
    elim (Bool-cases (
      is_empty name
      || ltb 64 (length name)
      || bytes_eq name (codes ".")
      || bytes_eq name (codes ".."))) [
        | inl bad ↦ ground (arith, h, bad)
        | inr good ↦
            let plain : all_allowed name ≡ true = ground (arith, h, good) in
            record {
              named = λ e. let b = ap is_empty e in ground arith;
              not_dot = λ e. let b = (bytes_eq_iff name (codes ".")).1 e in ground arith;
              not_dot_dot = λ e. let b = (bytes_eq_iff name (codes "..")).1 e in ground arith;
              whole = allowed-Lacks name plain;
            }
      ]

Lacks-has_slash : (s : Bytes) → Lacks slash s → has_slash s ≡ false
unfolding has_slash
Lacks-has_slash [] h = refl
Lacks-has_slash (c ∷ s) (other, h) = ground (arith, other, Lacks-has_slash s h)

split_slash-segment : (s : Bytes) → Lacks slash s → split_slash s ≡ none
unfolding split_slash cons_before
split_slash-segment [] h = refl
split_slash-segment (c ∷ s) (other, h) = rw (split_slash-segment s h) (ground (arith, other))

split_slash-join :
    (s rest : Bytes) → Lacks slash s → split_slash (s ++ slash ∷ rest) ≡ some (s, rest)
unfolding split_slash cons_before
split_slash-join [] rest h = refl
split_slash-join (c ∷ s) rest (other, h) = rw (split_slash-join s rest h) (ground (arith, other))

-- What a parsed path is: the root of the view, or a Workspace with a normal path within it.
abbrev pub IsView : ViewPath → Type 0
IsView view = (view.is_root ≡ true) ⊎ (IsSegment view.workspace × IsNormal view.relative)

nonempty : (c : ℕ) (x : Bytes) → parse_normalized (c ∷ x) ≡ view_of (c ∷ x) (split_slash (c ∷ x))
unfolding parse_normalized
nonempty c x = refl

parse_normalized-cons :
    (s x : Bytes) → s ≢ [] → parse_normalized (s ++ x) ≡ view_of (s ++ x) (split_slash (s ++ x))
parse_normalized-cons [] x h = absurd (h refl)
parse_normalized-cons (c ∷ s) x h = nonempty c (s ++ x)

alone :
    (s : Bytes)
    → Lacks slash s
    → view_of (s ++ []) (split_slash (s ++ []))
      ≡ record { workspace = s; relative = []; is_root = false }
alone s h = rw (append-nil, split_slash-segment s h) (unfold view_of in refl)

joined :
    (s rest : Bytes)
    → Lacks slash s
    → view_of (s ++ slash ∷ rest) (split_slash (s ++ slash ∷ rest))
      ≡ record { workspace = s; relative = rest; is_root = false }
joined s rest h = rw (split_slash-join s rest h) (unfold view_of in refl)

-- A segment and the path behind it.
parse_normalized-segments :
    (s : Bytes) (ss : List Bytes)
    → All IsSegment (s ∷ ss)
    → parse_normalized (write_segments (s ∷ ss) [])
      ≡ record { workspace = s; relative = write_segments ss []; is_root = false }
unfolding write_segments separated
parse_normalized-segments s [] (g, h) =
    ap parse_normalized (write_segments-cons s [] g)
    ∙ parse_normalized-cons s [] g.named
    ∙ alone s g.whole
parse_normalized-segments s (t ∷ ss) (g, h) =
    ap parse_normalized (write_segments-cons s (t ∷ ss) g)
    ∙ parse_normalized-cons s (slash ∷ t ++ separated ss) g.named
    ∙ joined s (t ++ separated ss) g.whole
    ∙ ap (λ rest. record { workspace = s; relative = rest; is_root = false })
        (sym (write_segments-cons t ss h.0))

parse_segments :
    (ss : List Bytes) → All IsSegment ss → IsView (parse_normalized (write_segments ss []))
parse_segments [] h = unfold parse_normalized write_segments in inl refl
parse_segments (s ∷ ss) (g, h) = rw (parse_normalized-segments s ss (g, h)) (inr (g, (ss, h, refl)))

-- Every path of a FUSE request names the root of the view, or a Workspace by a plain segment and a path
-- within it in normal form: without an empty segment, `.` or `..`, so none leads out of the Workspace.
pub parse_project_view_path-IsView : (path : Bytes) → IsView (parse_project_view_path path)
unfolding parse_project_view_path
parse_project_view_path-IsView path =
    let (ss, h, e) = normalize_relative-IsNormal path in rw e (parse_segments ss h)

-- The path of the mount at which the entry `relative` of a Workspace stands.
unfoldable pub mounted_at : Bytes → Bytes → Bytes
mounted_at workspace relative =
    slash ∷ workspace ++ (if is_empty relative then [] else slash ∷ relative)

is_empty-append : (s x : Bytes) → s ≢ [] → is_empty (s ++ x) ≡ false
is_empty-append [] x h = absurd (h refl)
is_empty-append (c ∷ s) x h = refl

mounted-segments :
    (s : Bytes) (ss : List Bytes)
    → All IsSegment (s ∷ ss)
    → mounted_at s (write_segments ss []) ≡ slash ∷ write_segments (s ∷ ss) []
unfolding mounted_at write_segments separated
mounted-segments s [] (g, h) = ap (λ x. slash ∷ x) (sym (write_segments-cons s [] g))
mounted-segments s (t ∷ ss) (g, h) =
    let filled : is_empty (write_segments (t ∷ ss) []) ≡ false =
      ap is_empty (write_segments-cons t ss h.0) ∙ is_empty-append t (separated ss) h.0.named in
    let inner : s ++ slash ∷ write_segments (t ∷ ss) [] ≡ write_segments (s ∷ t ∷ ss) [] =
      ap (λ r. s ++ slash ∷ r) (write_segments-cons t ss h.0)
      ∙ sym (write_segments-cons s (t ∷ ss) g) in
    ap (λ b. slash ∷ s ++ (if b then [] else slash ∷ write_segments (t ∷ ss) [])) filled
    ∙ ap (λ x. slash ∷ x) inner

normalize-slash : (x : Bytes) → normalize_relative (slash ∷ x) ≡ normalize_relative x
unfolding normalize_relative take_segments take_segment
normalize-slash x = refl

-- The path that leads to an entry of a Workspace through the mount names that Workspace and that entry,
-- for every name that `create_workspace` accepts and every path in normal form.
pub parse_project_view_path-mounted_at :
    (name relative : Bytes)
    → is_valid_workspace_name name ≡ true
    → normalize_relative relative ≡ relative
    → parse_project_view_path (mounted_at name relative)
      ≡ record { workspace = name; relative = relative; is_root = false }
unfolding parse_project_view_path
parse_project_view_path-mounted_at name relative valid normal =
    let (ss, h, e) = (normalize_relative-eq_iff relative).0 normal in
    let all : All IsSegment (name ∷ ss) = (valid_name-IsSegment name valid, h) in
    ap (λ r. parse_normalized (normalize_relative (mounted_at name r))) e
    ∙ ap (λ p. parse_normalized (normalize_relative p)) (mounted-segments name ss all)
    ∙ ap parse_normalized (
        normalize-slash (write_segments (name ∷ ss) [])
        ∙ normalize_relative-eq_of_IsNormal (write_segments (name ∷ ss) []) (name ∷ ss, all, refl))
    ∙ parse_normalized-segments name ss all
    ∙ ap (λ r. record { workspace = name; relative = r; is_root = false }) (sym e)
