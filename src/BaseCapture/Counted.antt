-- ===== src/BaseCapture/Counted.antt =====
-- What a capture of src/core/base_capture.cpp counts against what it leaves in the Base state.
pub mod Balanced
use tribios_vfs.Common.{
  ℕ, ◌+◌, true, false, List, [], ◌∷◌, Bytes, length, Option, none, some, ◌≡◌, refl, ◌∙◌, arith,
  Bool-cases, inl, inr, ◌||◌,
}
use mathlib.Core.Path.{subst}
use tribios_vfs.Paths.{join_relative}
use tribios_vfs.Store.Sql.{Outcome, ok, error}
use tribios_vfs.CapturePolicy.{CapturePolicy, CaptureDecision}
use tribios_vfs.CapturePolicy.Decide.{decide}
use tribios_vfs.BaseCapture.{
  FileType, regular, directory, symlink, special, Stat, Entries, no_more, gone, entry, CaptureStats,
  Saved, saved_link, saved_directory, saved_file, Disk, CaptureWalk, Sink,
}
use tribios_vfs.CapturePolicy.Describe.{describe_pattern}
use tribios_vfs.BaseCapture.Excluded.{
  within, add_excluded, count_excluded_tree, count_excluded_entries, is_passed_over,
  is_capturable_type, is_directory,
}
use tribios_vfs.BaseCapture.Walk.{
  Captured, and_then, save, add_entry, add_bytes, capture_link, create_directory, copied, copy_file,
  preserved, capture_kind, capture_decided, capture_entries, read_directory, capture_directory,
  exclude, is_left_out, write_compiled_policy, capture_policy_file, walk_made, base_missing,
  no_stats, stats_of, walk_root, walk_project, capture_base_state, Project,
}
use tribios_vfs.BaseCapture.Counted.Balanced.{
  IsBalanced, Balances, same-IsBalanced, IsBalanced-trans, and_then-Balances, exclude-IsBalanced,
  saved_bytes,
}

add_entry-Balances :
    (s : Sink) (r : Captured)
    → Balances 1 s r
    → Balances 0 s (and_then r (λ t. (ok tt, add_entry t)))
unfolding and_then add_entry
add_entry-Balances s (error m, t) h = tt
add_entry-Balances s (ok u, t) h = record {
  entries = omega (arith, h.entries);
  content = h.content;
}

copied-Balances :
    (w : CaptureWalk) (child content : Bytes) (st : Stat) (e : Option Bytes) (s : Sink)
    → Balances 1 s
        (and_then (copied w child content st e s) (λ t. (ok tt, add_bytes (length content) t)))
unfolding copied and_then save add_bytes saved_bytes
copied-Balances w child content st none s = record { entries = omega arith; content = omega arith }
copied-Balances w child content st (some e) s = tt

module _ (w : CaptureWalk) (base : Bytes) where
  capture_link-Balances :
      (child target : Bytes) (s : Sink) → Balances 1 s (capture_link w (some base) child target s)
  unfolding capture_link save saved_bytes
  capture_link-Balances child target s = elim (Bool-cases (w.disk.link_fails child)) [
    | inl e ↦ rw e tt
    | inr e ↦ rw e (record { entries = omega arith; content = omega arith })
  ]

  create_directory-Balances :
      (child : Bytes) (st : Stat) (s : Sink)
      → Balances 1 s (create_directory w (some base) child st s)
  unfolding create_directory save saved_bytes
  create_directory-Balances child st s = elim (Bool-cases (w.disk.directory_fails child)) [
    | inl e ↦ rw e tt
    | inr e ↦ rw e (record { entries = omega arith; content = omega arith })
  ]

module _ (w : CaptureWalk) (base : Bytes) (written : w.base_root ≡ some base) where
  capture_kind-Balances :
      (child : Bytes) (st : Stat) (kind : FileType) (content : Bytes) (deeper : Sink → Captured)
      (s : Sink)
      → is_capturable_type kind ≡ true
      → ((t : Sink) → Balances 0 t (deeper t))
      → Balances 1 s (capture_kind w child st kind content deeper s)
  unfolding capture_kind copy_file is_capturable_type copied preserved create_directory capture_link
  capture_kind-Balances child st symlink content deeper s capturable h =
      rw written (capture_link-Balances w base child content s)
  capture_kind-Balances child st directory content deeper s capturable h = rw written (
      and_then-Balances s 1 0 (create_directory w (some base) child st s) deeper
        (create_directory-Balances w base child st s) h)
  capture_kind-Balances child st regular content deeper s capturable h =
      rw written (copied-Balances w child content st (w.disk.copy_error child) s)
  capture_kind-Balances child st special content deeper s capturable h = cc

  capture_decided-Balances :
      (child : Bytes) (st : Stat) (content : Bytes) (unreadable : Option Bytes) (inside : Entries)
      (d : CaptureDecision) (deeper : Sink → Captured) (s : Sink)
      → is_capturable_type st.file_type ≡ true
      → ((t : Sink) → Balances 0 t (deeper t))
      → Balances 0 s (capture_decided w child st content unreadable inside d deeper s)
  unfolding capture_decided exclude describe_pattern
  capture_decided-Balances child st content unreadable inside d deeper s capturable h =
      elim (Bool-cases d.excluded) [
        | inl e ↦ rw e (exclude-IsBalanced w child st content unreadable inside d s)
        | inr e ↦ rw e (
            add_entry-Balances s (capture_kind w child st st.file_type content deeper s)
              (capture_kind-Balances child st st.file_type content deeper s capturable h))
      ]

  read_directory-Balances :
      (relative : Bytes) (unreadable : Option Bytes) (walk : Sink → Captured) (s : Sink)
      → ((t : Sink) → Balances 0 t (walk t))
      → Balances 0 s (read_directory w relative unreadable walk s)
  unfolding read_directory
  read_directory-Balances relative none walk s h = h s
  read_directory-Balances relative (some e) walk s h = tt

  capturable_of :
      (relative name : Bytes) (st : Stat)
      → (is_left_out relative name || is_passed_over w.project_device st) ≡ false
      → is_capturable_type st.file_type ≡ true
  unfolding is_passed_over
  capturable_of relative name st h = ground (arith, h)

  capture_entries-Balances :
      (relative : Bytes) (es : Entries) (s : Sink) → Balances 0 s (capture_entries w relative es s)
  unfolding capture_entries and_then
  capture_entries-Balances relative no_more s = same-IsBalanced s
  capture_entries-Balances relative (gone name rest) s = capture_entries-Balances relative rest s
  capture_entries-Balances relative (entry name st content unreadable inside rest) s =
      let child = join_relative relative name in
      let deeper = read_directory w child unreadable (capture_entries w child inside) in
      let d = decide w.policy child (is_directory st.file_type) in
      elim (Bool-cases (is_left_out relative name || is_passed_over w.project_device st)) [
        | inl e ↦ rw e (capture_entries-Balances relative rest s)
        | inr e ↦ rw e (
            and_then-Balances s 0 0
              (capture_decided w child st content unreadable inside d deeper s)
              (capture_entries w relative rest)
              (capture_decided-Balances child st content unreadable inside d deeper s
                (capturable_of relative name st e)
                (λ t.
                  read_directory-Balances child unreadable (capture_entries w child inside) t
                    (capture_entries-Balances child inside)))
              (capture_entries-Balances relative rest))
      ]

write_compiled_policy-Balances :
    (w : CaptureWalk) (base : Bytes) (s : Sink)
    → Balances 0 s (
        and_then
          (write_compiled_policy w (some base) s)
          (λ t. (ok tt, add_entry (add_bytes (length w.policy.source) t))))
unfolding write_compiled_policy and_then save add_bytes add_entry saved_bytes
write_compiled_policy-Balances w base s = elim (Bool-cases w.disk.policy_write_fails) [
  | inl e ↦ rw e tt
  | inr e ↦ rw e (elim (Bool-cases w.disk.policy_chmod_fails) [
    | inl f ↦ rw f tt
    | inr f ↦ rw f (record { entries = omega arith; content = omega arith })
  ])
]

abbrev start : Sink
start = record { stats = no_stats; base = [] }

abbrev Counts : Outcome CaptureStats × List Saved → Type 0
Counts (error m, saved) = Unit
Counts (ok stats, saved) = (stats.entry_count ≡ length saved) × (stats.bytes ≡ saved_bytes saved)

stats_of-Counts : (r : Captured) → Balances 0 start r → Counts (stats_of r)
unfolding stats_of no_stats saved_bytes
stats_of-Counts (error m, t) h = tt
stats_of-Counts (ok u, t) h = (omega (arith, h.entries), omega (arith, h.content))

module _ (source_root base : Bytes) (policy : CapturePolicy) (device : ℕ) (disk : Disk) where
  abbrev walk : CaptureWalk
  walk = record {
    source_root = source_root;
    base_root = some base;
    policy = policy;
    project_device = device;
    disk = disk;
  }

  capture_policy_file-Balances : (s : Sink) → Balances 0 s (capture_policy_file walk s)
  unfolding capture_policy_file write_compiled_policy
  capture_policy_file-Balances s = elim (Bool-cases policy.present) [
    | inl e ↦ rw e (write_compiled_policy-Balances walk base s)
    | inr e ↦ rw e (same-IsBalanced s)
  ]

  walk_made-Balances :
      (m unreadable : Option Bytes) (es : Entries)
      → Balances 0 start (walk_made walk m unreadable es)
  unfolding walk_made capture_directory
  walk_made-Balances (some m) unreadable es = tt
  walk_made-Balances none unreadable es =
      and_then-Balances start 0 0 (capture_policy_file walk start)
        (read_directory walk [] unreadable (capture_entries walk [] es))
        (capture_policy_file-Balances start)
        (λ t.
          read_directory-Balances walk base refl [] unreadable (capture_entries walk [] es) t
            (capture_entries-Balances walk base refl [] es))

walk_root-Counts :
    (disk : Disk) (p : Project) (base : Bytes) (policy : CapturePolicy) (st : Option Stat)
    → Counts (walk_root disk p (some base) policy st)
unfolding walk_root
walk_root-Counts disk p base policy none = tt
walk_root-Counts disk p base policy (some st) = elim (Bool-cases (is_directory st.file_type)) [
  | inl e ↦ rw e (
      stats_of-Counts _ (
        walk_made-Balances p.root base policy st.device disk (base_missing disk (some base))
          p.unreadable p.entries))
  | inr e ↦ rw e tt
]

-- When a capture succeeds, the entries it reports are as many as those it left in the Base state, the
-- policy file included, and the bytes it reports are those of the files in the Base state.
pub capture_base_state-counts :
    (disk : Disk) (p : Project) (base : Bytes) (policy : CapturePolicy) (stats : CaptureStats)
    (saved : List Saved)
    → capture_base_state disk p base policy ≡ (ok stats, saved)
    → (stats.entry_count ≡ length saved) × (stats.bytes ≡ saved_bytes saved)
unfolding capture_base_state walk_project
capture_base_state-counts disk p base policy stats saved h =
    subst Counts h (walk_root-Counts disk p base policy p.stat)
