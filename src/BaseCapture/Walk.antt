-- ===== src/BaseCapture/Walk.antt =====
-- The walk of src/core/base_capture.cpp.
use tribios_vfs.Common.{
  ℕ, ◌+◌, Bool, List, [], ◌∷◌, ◌++◌, Bytes, codes, length, Option, none, some, ◌&&◌, ◌||◌,
  if◌then◌else◌, bytes_eq, is_empty,
}
use tribios_vfs.Paths.{join_relative}
use tribios_vfs.Store.Sql.{Outcome, ok, error}
use tribios_vfs.CapturePolicy.{CapturePolicy, CaptureDecision}
use tribios_vfs.CapturePolicy.Decide.{decide}
use tribios_vfs.BaseCapture.{
  FileType, regular, directory, symlink, special, Stat, Entries, no_more, gone, entry, CaptureStats,
  Saved, saved_link, saved_directory, saved_file, Disk, CaptureWalk, Sink,
}
use tribios_vfs.CapturePolicy.Describe.{capture_policy_file_name, describe_pattern}
use tribios_vfs.BaseCapture.Excluded.{is_directory, is_passed_over, count_excluded_tree}

abbrev pub git_dir_name : Bytes
git_dir_name = codes ".git"

abbrev pub tribios_dir_name : Bytes
tribios_dir_name = codes ".tribios"

unfoldable pub preserved : CaptureWalk → Bytes → ℕ → Option ℕ
preserved w child mode = if w.disk.chmod_fails child then none else some mode

unfoldable pub save : Saved → Sink → Sink
save x s = record s { base = x ∷ s.base }

unfoldable pub add_entry : Sink → Sink
add_entry s = record s { stats = record s.stats { entry_count = s.stats.entry_count + 1 } }

unfoldable pub add_bytes : ℕ → Sink → Sink
add_bytes n s = record s { stats = record s.stats { bytes = s.stats.bytes + n } }

abbrev pub Captured : Type 0
Captured = Outcome (Unit {0}) × Sink

unfoldable pub and_then : Captured → (Sink → Captured) → Captured
and_then (error m, s) k = (error m, s)
and_then (ok u, s) k = k s

-- `read_symlink` gives the target of a link that `lstat` has found.
unfoldable pub capture_link : CaptureWalk → Option Bytes → Bytes → Bytes → Sink → Captured
capture_link w none child target s = (ok tt, s)
capture_link w (some base) child target s =
    if w.disk.link_fails child
    then (error (codes "base capture: cannot recreate symlink " ++ child), s)
    else (ok tt, save (saved_link child target) s)

unfoldable pub create_directory : CaptureWalk → Option Bytes → Bytes → Stat → Sink → Captured
create_directory w none child st s = (ok tt, s)
create_directory w (some base) child st s =
    if w.disk.directory_fails child
    then (error (codes "base capture: cannot create " ++ base ++ codes "/" ++ child), s)
    else (ok tt, save (saved_directory child (preserved w child st.mode)) s)

unfoldable pub copied : CaptureWalk → Bytes → Bytes → Stat → Option Bytes → Sink → Captured
copied w child content st (some e) s =
    (error (codes "base capture: cannot copy " ++ child ++ codes ": " ++ e), s)
copied w child content st none s =
    (ok tt, save (saved_file child content (preserved w child st.mode)) s)

unfoldable pub copy_file : CaptureWalk → Option Bytes → Bytes → Bytes → Stat → Sink → Captured
copy_file w none child content st s = (ok tt, s)
copy_file w (some base) child content st s = copied w child content st (w.disk.copy_error child) s

unfoldable pub source_path : CaptureWalk → Bytes → Bytes
source_path w relative =
    if is_empty relative then w.source_root else w.source_root ++ codes "/" ++ relative

-- Opening the directory, before its entries are walked.
unfoldable pub read_directory :
    CaptureWalk → Bytes → Option Bytes → (Sink → Captured) → Sink → Captured
read_directory w relative none walk_entries s = walk_entries s
read_directory w relative (some e) walk_entries s =
    (error (codes "base capture: cannot read " ++ source_path w relative ++ codes ": " ++ e), s)

-- The walk has passed over special files before, so their clause is never reached.
unfoldable pub capture_kind :
    CaptureWalk → Bytes → Stat → FileType → Bytes → (Sink → Captured) → Sink → Captured
capture_kind w child st symlink content deeper s = capture_link w w.base_root child content s
capture_kind w child st directory content deeper s =
    and_then (create_directory w w.base_root child st s) deeper
capture_kind w child st regular content deeper s =
    and_then (copy_file w w.base_root child content st s)
      (λ t. (ok tt, add_bytes (length content) t))
capture_kind w child st special content deeper s = (ok tt, s)

unfoldable pub is_left_out : Bytes → Bytes → Bool
is_left_out relative name =
    is_empty relative
    && (bytes_eq name git_dir_name
        || (bytes_eq name tribios_dir_name || bytes_eq name capture_policy_file_name))

unfoldable pub exclude :
    CaptureWalk → Bytes → Stat → Bytes → Option Bytes → Entries → CaptureDecision → Sink → Sink
exclude w child st content unreadable inside d s =
    let stats = count_excluded_tree w.project_device st content unreadable inside s.stats in
    record s {
      stats = record stats {
        exclusions =
            stats.exclusions
            ++ record {
              relative = child;
              is_directory = is_directory st.file_type;
              reason = describe_pattern w.policy d;
            }
              ∷ [];
      };
    }

-- An entry that is not passed over.
unfoldable pub capture_decided :
    CaptureWalk
    → Bytes
    → Stat
    → Bytes
    → Option Bytes
    → Entries
    → CaptureDecision
    → (Sink → Captured)
    → Sink
    → Captured
capture_decided w child st content unreadable inside d deeper s =
    if d.excluded
    then (ok tt, exclude w child st content unreadable inside d s)
    else and_then (capture_kind w child st st.file_type content deeper s)
        (λ t. (ok tt, add_entry t))

unfoldable pub capture_entries : CaptureWalk → Bytes → Entries → Sink → Captured
capture_entries w relative no_more s = (ok tt, s)
capture_entries w relative (gone name rest) s = capture_entries w relative rest s
capture_entries w relative (entry name st content unreadable inside rest) s =
    let child = join_relative relative name in
    let deeper = read_directory w child unreadable (capture_entries w child inside) in
    and_then
      (if is_left_out relative name || is_passed_over w.project_device st
        then (ok tt, s)
        else capture_decided w child st content unreadable inside
            (decide w.policy child (is_directory st.file_type)) deeper s)
      (capture_entries w relative rest)

unfoldable pub capture_directory : CaptureWalk → Bytes → Option Bytes → Entries → Sink → Captured
capture_directory w relative unreadable entries =
    read_directory w relative unreadable (capture_entries w relative entries)

unfoldable pub write_compiled_policy : CaptureWalk → Option Bytes → Sink → Captured
write_compiled_policy w none s = (ok tt, s)
write_compiled_policy w (some base) s =
    let target = base ++ codes "/" ++ capture_policy_file_name in
    if w.disk.policy_write_fails
    then (error (codes "base capture: cannot write " ++ target), s)
    else if w.disk.policy_chmod_fails
    then (
      error (codes "base capture: cannot preserve policy permissions " ++ target),
      save (saved_file capture_policy_file_name w.policy.source none) s,
    )
    else (
      ok tt,
      save (saved_file capture_policy_file_name w.policy.source (some w.policy.source_mode)) s,
    )

unfoldable pub capture_policy_file : CaptureWalk → Sink → Captured
capture_policy_file w s =
    if w.policy.present
    then and_then (write_compiled_policy w w.base_root s)
        (λ t. (ok tt, add_entry (add_bytes (length w.policy.source) t)))
    else (ok tt, s)

unfoldable pub no_stats : CaptureStats
no_stats = record {
  entry_count = 0;
  bytes = 0;
  excluded_entry_count = 0;
  excluded_bytes = 0;
  exclusions = [];
}

unfoldable pub base_missing : Disk → Option Bytes → Option Bytes
base_missing disk none = none
base_missing disk (some base) =
    if disk.base_fails then some (codes "base capture: cannot create " ++ base) else none

unfoldable pub walk_made : CaptureWalk → Option Bytes → Option Bytes → Entries → Captured
walk_made w (some m) unreadable entries = (error m, record { stats = no_stats; base = [] })
walk_made w none unreadable entries =
    and_then (capture_policy_file w (record { stats = no_stats; base = [] }))
      (capture_directory w [] unreadable entries)

unfoldable pub stats_of : Captured → Outcome CaptureStats × List Saved
stats_of (error m, s) = (error m, s.base)
stats_of (ok u, s) = (ok s.stats, s.base)

-- The Project's root: its `lstat` if it is there, the error of reading it and its entries.
pub record Project : Type 0 where
  pub root : Bytes
  pub stat : Option Stat
  pub unreadable : Option Bytes
  pub entries : Entries

unfoldable pub walk_root :
    Disk → Project → Option Bytes → CapturePolicy → Option Stat → Outcome CaptureStats × List Saved
walk_root disk p base policy none =
    (error (codes "base capture: " ++ p.root ++ codes " is not a directory"), [])
walk_root disk p base policy (some st) =
    if is_directory st.file_type
    then stats_of (
        walk_made
          (record {
            source_root = p.root;
            base_root = base;
            policy = policy;
            project_device = st.device;
            disk = disk;
          })
          (base_missing disk base) p.unreadable p.entries)
    else (error (codes "base capture: " ++ p.root ++ codes " is not a directory"), [])

unfoldable pub walk_project :
    Disk → Project → Option Bytes → CapturePolicy → Outcome CaptureStats × List Saved
walk_project disk p base policy = walk_root disk p base policy p.stat

unfoldable pub capture_base_state :
    Disk → Project → Bytes → CapturePolicy → Outcome CaptureStats × List Saved
capture_base_state disk p base_dir policy = walk_project disk p (some base_dir) policy

unfoldable pub plan_base_state_capture :
    Disk → Project → CapturePolicy → Outcome CaptureStats × List Saved
plan_base_state_capture disk p policy = walk_project disk p none policy
