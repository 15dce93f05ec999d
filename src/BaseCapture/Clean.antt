-- ===== src/BaseCapture/Clean.antt =====
-- Git's and Tribios' own files in a capture of src/core/base_capture.cpp.
pub mod Entry
use tribios_vfs.Common.{
  Bool, false, List, [], ◌∷◌, ◌++◌, Bytes, Option, none, some, ◌≡◌, refl, ◌∙◌, ◌==◌, arith,
  Bool-cases, inl, inr, ◌||◌, if◌then◌else◌, All, bytes_eq, is_empty,
}
use tribios_vfs.Paths.{slash, has_slash, join_relative}
use tribios_vfs.Store.Sql.{ok, error}
use tribios_vfs.CapturePolicy.{CapturePolicy, CaptureDecision}
use tribios_vfs.CapturePolicy.Decide.{decide}
use tribios_vfs.BaseCapture.{
  FileType, regular, directory, symlink, special, Stat, Entries, no_more, gone, entry, Saved,
  saved_link, saved_directory, saved_file, Disk, CaptureWalk, Sink,
}
use tribios_vfs.BaseCapture.Excluded.{is_passed_over, is_directory}
use tribios_vfs.BaseCapture.Walk.{
  Captured, and_then, save, add_entry, add_bytes, capture_link, create_directory, copied, copy_file,
  capture_kind, capture_decided, capture_entries, read_directory, capture_directory, exclude,
  is_left_out, write_compiled_policy, capture_policy_file, walk_made, base_missing, no_stats,
  stats_of, walk_root, walk_project, capture_base_state, Project, git_dir_name, tribios_dir_name,
}
use tribios_vfs.BaseCapture.Clean.Entry.{
  is_metadata, path_of, IsClean, ArePlain, Keeps, and_then-IsClean, first_segment,
  first_segment-plain, first_segment-join, capture_decided-IsClean, read_directory-IsClean,
}

module _ (w : CaptureWalk) where
  entry-IsClean :
      (relative name : Bytes) (st : Stat) (content : Bytes) (unreadable : Option Bytes)
      (inside rest : Entries)
      → (is_left_out relative name ≡ false → is_metadata (join_relative relative name) ≡ false)
      → (is_metadata (join_relative relative name) ≡ false
          → Keeps (capture_entries w (join_relative relative name) inside))
      → Keeps (capture_entries w relative rest)
      → Keeps (capture_entries w relative (entry name st content unreadable inside rest))
  unfolding capture_entries and_then
  entry-IsClean relative name st content unreadable inside rest own k after s h =
      let child = join_relative relative name in
      let f = read_directory w child unreadable (capture_entries w child inside) in
      let d = decide w.policy child (is_directory st.file_type) in
      elim (Bool-cases (is_left_out relative name || is_passed_over w.project_device st)) [
        | inl e ↦ rw e (after s h)
        | inr e ↦
            let here : is_left_out relative name ≡ false = ground (arith, e) in
            rw e (
              and_then-IsClean (capture_decided w child st content unreadable inside d f s)
                (capture_entries w relative rest)
                (capture_decided-IsClean w s h child (own here) st content unreadable inside d f (
                  read_directory-IsClean w child unreadable (capture_entries w child inside)
                    (k (own here))))
                after)
      ]

  join-IsMetadata :
      (relative name : Bytes)
      → is_empty relative ≡ false
      → is_metadata (join_relative relative name) ≡ is_metadata relative
  unfolding is_metadata join_relative
  join-IsMetadata relative name e = rw (e, first_segment-join relative name) refl

  join-filled :
      (relative name : Bytes)
      → is_empty relative ≡ false
      → is_empty (join_relative relative name) ≡ false
  unfolding join_relative
  join-filled [] name e = cc
  join-filled (c ∷ s) name e = refl

  -- Below an entry that is not Git's or Tribios' own.
  within-IsClean :
      (relative : Bytes) (es : Entries)
      → is_empty relative ≡ false
      → is_metadata relative ≡ false
      → Keeps (capture_entries w relative es)
  unfolding capture_entries
  within-IsClean relative no_more e own s h = h
  within-IsClean relative (gone name rest) e own s h = within-IsClean relative rest e own s h
  within-IsClean relative (entry name st content unreadable inside rest) e own s h =
      entry-IsClean relative name st content unreadable inside rest
        (λ out. join-IsMetadata relative name e ∙ own)
        (λ clean.
          within-IsClean (join_relative relative name) inside (join-filled relative name e) clean)
        (within-IsClean relative rest e own) s h

  left_in :
      (name : Bytes)
      → has_slash name ≡ false
      → is_left_out [] name ≡ false
      → is_metadata (join_relative [] name) ≡ false
  unfolding is_metadata join_relative is_left_out
  left_in name plain h = rw (first_segment-plain name plain) (ground (arith, h))

  root-IsClean : (es : Entries) → ArePlain es → Keeps (capture_entries w [] es)
  unfolding capture_entries join_relative
  root-IsClean no_more plain s h = h
  root-IsClean (gone name rest) plain s h = root-IsClean rest plain s h
  root-IsClean (entry name st content unreadable inside rest) (filled, plain, others) s h =
      entry-IsClean [] name st content unreadable inside rest (left_in name plain)
        (λ clean. within-IsClean name inside filled clean) (root-IsClean rest others) s h

  policy_written :
      (b : Option Bytes) (s : Sink) → IsClean s.base → IsClean (write_compiled_policy w b s).1.base
  unfolding write_compiled_policy save path_of is_metadata first_segment bytes_eq
  policy_written none s h = h
  policy_written (some b) s h = elim (Bool-cases w.disk.policy_write_fails) [
    | inl e ↦ rw e h
    | inr e ↦ rw e (elim (Bool-cases w.disk.policy_chmod_fails) [
      | inl f ↦ rw f (refl, h)
      | inr f ↦ rw f (refl, h)
    ])
  ]

  capture_policy_file-IsClean : Keeps (capture_policy_file w)
  unfolding capture_policy_file add_entry add_bytes write_compiled_policy
  capture_policy_file-IsClean s h = elim (Bool-cases w.policy.present) [
    | inl e ↦ rw e (
        and_then-IsClean (write_compiled_policy w w.base_root s) _ (policy_written w.base_root s h)
          (λ t g. g))
    | inr e ↦ rw e h
  ]

  walk_made-IsClean :
      (m unreadable : Option Bytes) (es : Entries)
      → ArePlain es
      → IsClean (walk_made w m unreadable es).1.base
  unfolding walk_made capture_directory
  walk_made-IsClean (some m) unreadable es plain = tt
  walk_made-IsClean none unreadable es plain =
      and_then-IsClean (capture_policy_file w (record { stats = no_stats; base = [] }))
        (read_directory w [] unreadable (capture_entries w [] es))
        (capture_policy_file-IsClean (record { stats = no_stats; base = [] }) tt)
        (read_directory-IsClean w [] unreadable (capture_entries w [] es) (root-IsClean es plain))

stats_of-base : (r : Captured) → (stats_of r).1 ≡ r.1.base
unfolding stats_of
stats_of-base (error m, s) = refl
stats_of-base (ok u, s) = refl

walk_root-IsClean :
    (disk : Disk) (p : Project) (base : Option Bytes) (policy : CapturePolicy) (st : Option Stat)
    → ArePlain p.entries
    → IsClean (walk_root disk p base policy st).1
unfolding walk_root
walk_root-IsClean disk p base policy none plain = tt
walk_root-IsClean disk p base policy (some st) plain =
    elim (Bool-cases (is_directory st.file_type)) [
      | inl e ↦
          rw (e, stats_of-base _)
            (walk_made-IsClean _ (base_missing disk base) p.unreadable p.entries plain)
      | inr e ↦ rw e tt
    ]

-- No entry that a capture leaves in the Base state, however it ends, is the `.git` or the `.tribios` of
-- the Project's root or lies in one of them, where the names in the root are neither empty nor have a
-- slash. Of a `.git` further below nothing is said: the capture takes it as any directory.
pub capture_base_state-IsClean :
    (disk : Disk) (p : Project) (base : Bytes) (policy : CapturePolicy)
    → ArePlain p.entries
    → All (λ x. is_metadata (path_of x) ≡ false) (capture_base_state disk p base policy).1
unfolding capture_base_state walk_project
capture_base_state-IsClean disk p base policy plain =
    walk_root-IsClean disk p (some base) policy p.stat plain
