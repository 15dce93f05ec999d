-- ===== src/BaseCapture/Planned.antt =====
-- A dry run of src/core/base_capture.cpp against a capture of the same Project.
pub mod Writes
use tribios_vfs.Common.{
  arith, ℕ, ◌+◌, true, List, [], Bytes, length, Option, none, some, ◌≡◌, refl, ap, Bool-cases, inl,
  inr, ◌⊎◌, ◌||◌,
}
use mathlib.Core.Path.{subst}
use tribios_vfs.Paths.{join_relative}
use tribios_vfs.Store.Sql.{Outcome, ok, error}
use tribios_vfs.CapturePolicy.{CapturePolicy, CaptureDecision}
use tribios_vfs.CapturePolicy.Decide.{decide}
use tribios_vfs.BaseCapture.{
  FileType, regular, directory, symlink, special, Stat, Entries, no_more, gone, entry, CaptureStats,
  Saved, Disk, CaptureWalk, Sink,
}
use tribios_vfs.CapturePolicy.Describe.{describe_pattern}
use tribios_vfs.BaseCapture.Excluded.{is_passed_over, is_directory}
use tribios_vfs.BaseCapture.Walk.{
  Captured, and_then, save, add_entry, add_bytes, capture_link, create_directory, copied, copy_file,
  capture_kind, capture_decided, capture_entries, read_directory, capture_directory, exclude,
  is_left_out, write_compiled_policy, capture_policy_file, walk_made, base_missing, no_stats,
  stats_of, walk_root, walk_project, capture_base_state, Project, plan_base_state_capture,
  source_path,
}
use tribios_vfs.BaseCapture.Planned.Writes.{
  making_base, StepFails, IsSame, IsPlanned, and_then-IsPlanned, add_entry-IsSame, add_bytes-IsSame,
  capture_link-IsPlanned, create_directory-IsPlanned, copied-IsPlanned,
  write_compiled_policy-IsPlanned,
}

module _ (source_root base : Bytes) (policy : CapturePolicy) (device : ℕ) (disk other : Disk) where
  abbrev real : CaptureWalk
  real = record {
    source_root = source_root;
    base_root = some base;
    policy = policy;
    project_device = device;
    disk = disk;
  }

  abbrev dry : CaptureWalk
  dry = record {
    source_root = source_root;
    base_root = none;
    policy = policy;
    project_device = device;
    disk = other;
  }

  capture_policy_file-IsPlanned :
      (s t : Sink)
      → IsSame s t
      → IsPlanned disk base (capture_policy_file real s) (capture_policy_file dry t)
  unfolding capture_policy_file write_compiled_policy
  capture_policy_file-IsPlanned s t e = elim (Bool-cases policy.present) [
    | inl f ↦ rw f (
        and_then-IsPlanned disk base (write_compiled_policy real (some base) s) (ok tt, t)
          (λ a. (ok tt, add_entry (add_bytes (length policy.source) a)))
          (λ a. (ok tt, add_entry (add_bytes (length policy.source) a)))
          (write_compiled_policy-IsPlanned real base s t e)
          (λ a b p. add_entry-IsSame (add_bytes _ a) (add_bytes _ b) (add_bytes-IsSame _ a b p)))
    | inr f ↦ rw f e
  ]

  capture_kind-IsPlanned :
      (child : Bytes) (st : Stat) (kind : FileType) (content : Bytes) (f g : Sink → Captured)
      (s t : Sink)
      → IsSame s t
      → ((a b : Sink) → IsSame a b → IsPlanned disk base (f a) (g b))
      → IsPlanned disk base
          (capture_kind real child st kind content f s)
          (capture_kind dry child st kind content g t)
  unfolding capture_kind copy_file create_directory capture_link
  capture_kind-IsPlanned child st symlink content f g s t e h =
      capture_link-IsPlanned real base s t e child content
  capture_kind-IsPlanned child st directory content f g s t e h =
      and_then-IsPlanned disk base (create_directory real (some base) child st s) (ok tt, t) f g
        (create_directory-IsPlanned real base s t e child st) h
  capture_kind-IsPlanned child st regular content f g s t e h =
      and_then-IsPlanned disk base (copied real child content st (disk.copy_error child) s)
        (ok tt, t) (λ a. (ok tt, add_bytes (length content) a))
        (λ a. (ok tt, add_bytes (length content) a))
        (copied-IsPlanned real base s t e child content st (disk.copy_error child) refl)
        (add_bytes-IsSame (length content))
  capture_kind-IsPlanned child st special content f g s t e h = e

  exclude-IsSame :
      (child : Bytes) (st : Stat) (content : Bytes) (unreadable : Option Bytes) (inside : Entries)
      (d : CaptureDecision) (s t : Sink)
      → IsSame s t
      → IsSame
          (exclude real child st content unreadable inside d s)
          (exclude dry child st content unreadable inside d t)
  unfolding exclude
  exclude-IsSame child st content unreadable inside d s t e = (rw e.0 refl, e.1)

  capture_decided-IsPlanned :
      (child : Bytes) (st : Stat) (content : Bytes) (unreadable : Option Bytes) (inside : Entries)
      (d : CaptureDecision) (f g : Sink → Captured) (s t : Sink)
      → IsSame s t
      → ((a b : Sink) → IsSame a b → IsPlanned disk base (f a) (g b))
      → IsPlanned disk base
          (capture_decided real child st content unreadable inside d f s)
          (capture_decided dry child st content unreadable inside d g t)
  unfolding capture_decided exclude describe_pattern
  capture_decided-IsPlanned child st content unreadable inside d f g s t e h =
      elim (Bool-cases d.excluded) [
        | inl x ↦ rw x (exclude-IsSame child st content unreadable inside d s t e)
        | inr x ↦ rw x (
            and_then-IsPlanned disk base (capture_kind real child st st.file_type content f s)
              (capture_kind dry child st st.file_type content g t) (λ a. (ok tt, add_entry a))
              (λ a. (ok tt, add_entry a))
              (capture_kind-IsPlanned child st st.file_type content f g s t e h) add_entry-IsSame)
      ]

  read_directory-IsPlanned :
      (relative : Bytes) (unreadable : Option Bytes) (f g : Sink → Captured) (s t : Sink)
      → IsSame s t
      → ((a b : Sink) → IsSame a b → IsPlanned disk base (f a) (g b))
      → IsPlanned disk base
          (read_directory real relative unreadable f s)
          (read_directory dry relative unreadable g t)
  unfolding read_directory source_path
  read_directory-IsPlanned relative none f g s t e h = h s t e
  read_directory-IsPlanned relative (some m) f g s t e h = inr refl

  capture_entries-IsPlanned :
      (relative : Bytes) (es : Entries) (s t : Sink)
      → IsSame s t
      → IsPlanned disk base (capture_entries real relative es s) (capture_entries dry relative es t)
  unfolding capture_entries and_then
  capture_entries-IsPlanned relative no_more s t e = e
  capture_entries-IsPlanned relative (gone name rest) s t e =
      capture_entries-IsPlanned relative rest s t e
  capture_entries-IsPlanned relative (entry name st content unreadable inside rest) s t e =
      let child = join_relative relative name in
      let f = read_directory real child unreadable (capture_entries real child inside) in
      let g = read_directory dry child unreadable (capture_entries dry child inside) in
      let d = decide policy child (is_directory st.file_type) in
      elim (Bool-cases (is_left_out relative name || is_passed_over device st)) [
        | inl x ↦ rw x (capture_entries-IsPlanned relative rest s t e)
        | inr x ↦ rw x (
            and_then-IsPlanned disk base
              (capture_decided real child st content unreadable inside d f s)
              (capture_decided dry child st content unreadable inside d g t)
              (capture_entries real relative rest) (capture_entries dry relative rest)
              (capture_decided-IsPlanned child st content unreadable inside d f g s t e (λ a b p.
                read_directory-IsPlanned child unreadable (capture_entries real child inside)
                  (capture_entries dry child inside) a b p
                  (capture_entries-IsPlanned child inside)))
              (capture_entries-IsPlanned relative rest))
      ]

  abbrev start : Sink
  start = record { stats = no_stats; base = [] }

  walk_made-IsPlanned :
      (m unreadable : Option Bytes) (es : Entries)
      → base_missing disk (some base) ≡ m
      → IsPlanned disk base (walk_made real m unreadable es) (walk_made dry none unreadable es)
  unfolding walk_made capture_directory base_missing
  walk_made-IsPlanned (some m) unreadable es e = elim (Bool-cases disk.base_fails) [
    | inl f ↦ inl (making_base f (ground (arith, e, f)))
    | inr f ↦ cc
  ]
  walk_made-IsPlanned none unreadable es e =
      and_then-IsPlanned disk base (capture_policy_file real start) (capture_policy_file dry start)
        (read_directory real [] unreadable (capture_entries real [] es))
        (read_directory dry [] unreadable (capture_entries dry [] es))
        (capture_policy_file-IsPlanned start start (refl, refl))
        (λ a b p.
          read_directory-IsPlanned [] unreadable (capture_entries real [] es)
            (capture_entries dry [] es) a b p (capture_entries-IsPlanned [] es))

abbrev Forecasts :
    Disk → Bytes → Outcome CaptureStats × List Saved → Outcome CaptureStats × List Saved → Type 0
Forecasts d base q (error m, saved) = StepFails d base m ⊎ (q.0 ≡ error m)
Forecasts d base q (ok stats, saved) = q ≡ (ok stats, [])

stats_of-Forecasts :
    (d : Disk) (base : Bytes) (r q : Captured)
    → IsPlanned d base r q
    → Forecasts d base (stats_of q) (stats_of r)
unfolding stats_of
stats_of-Forecasts d base (error m, s) q (inl x) = inl x
stats_of-Forecasts d base (error m, s) (error n, t) (inr e) = inr (cc)
stats_of-Forecasts d base (error m, s) (ok v, t) (inr e) = cc
stats_of-Forecasts d base (ok u, s) (error m, t) h = absurd h
stats_of-Forecasts d base (ok u, s) (ok v, t) h = rw (h.0, h.1) refl

walk_root-Forecasts :
    (disk other : Disk) (p : Project) (base : Bytes) (policy : CapturePolicy) (st : Option Stat)
    → Forecasts disk base
        (walk_root other p none policy st)
        (walk_root disk p (some base) policy st)
unfolding walk_root base_missing
walk_root-Forecasts disk other p base policy none = inr refl
walk_root-Forecasts disk other p base policy (some st) =
    elim (Bool-cases (is_directory st.file_type)) [
      | inl e ↦ rw e (
          stats_of-Forecasts disk base _ _ (
            walk_made-IsPlanned p.root base policy st.device disk other
              (base_missing disk (some base)) p.unreadable p.entries refl))
      | inr e ↦ rw e (inr refl)
    ]

-- When a capture of a Project succeeds, a dry run on it, whatever the disk, reports the same counts and
-- the same exclusions with their reasons, and writes nothing.
pub plan_base_state_capture-capture :
    (disk other : Disk) (p : Project) (base : Bytes) (policy : CapturePolicy) (stats : CaptureStats)
    (saved : List Saved)
    → capture_base_state disk p base policy ≡ (ok stats, saved)
    → plan_base_state_capture other p policy ≡ (ok stats, [])
unfolding capture_base_state plan_base_state_capture walk_project
plan_base_state_capture-capture disk other p base policy stats saved h =
    subst (Forecasts disk base (plan_base_state_capture other p policy)) h
      (walk_root-Forecasts disk other p base policy p.stat)

-- When a capture of a Project stops at an error, that error is the one of a step which a dry run leaves
-- out (making the Base directory, writing the policy file or setting its mode, making a link or a
-- directory, copying a file), at the path that it names, and the disk fails that step there; or a dry
-- run on the Project, whatever the disk, stops at the same error.
pub capture_base_state-fails :
    (disk other : Disk) (p : Project) (base : Bytes) (policy : CapturePolicy) (m : Bytes)
    (saved : List Saved)
    → capture_base_state disk p base policy ≡ (error m, saved)
    → StepFails disk base m ⊎ ((plan_base_state_capture other p policy).0 ≡ error m)
unfolding capture_base_state plan_base_state_capture walk_project
capture_base_state-fails disk other p base policy m saved h =
    subst (Forecasts disk base (plan_base_state_capture other p policy)) h
      (walk_root-Forecasts disk other p base policy p.stat)
