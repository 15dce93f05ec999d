-- ===== src/Projects/State.antt =====
-- The state of the Project manager, `ProjectManager` of includes/core/project_manager.hpp, with the
-- storage that it owns, and what its operations do to that storage.
use tribios_vfs.Common.{
  ℕ, Bool, true, false, List, [], ◌∷◌, Bytes, bytes_eq, Option, none, some, if◌then◌else◌,
}
use tribios_vfs.Store.Types.{Int64, Database, reclaimed}
use tribios_vfs.Store.Sql.{Sqlite, Outcome}
use tribios_vfs.Store.Workspaces.{set_workspace_state}
use tribios_vfs.Store.Journal.{abandon_recovery_operation}
use tribios_vfs.Engine.Host.{Tree, Host}
use tribios_vfs.Projects.Git.{Repository}

-- `workspaces_dir / name`: its directory `upper`, and the staged entries in `recovery`.
pub record WorkspaceDir : Type 0 where
  pub name : Bytes
  pub upper : Option Tree
  pub stages : List (ℕ × Tree)

-- `engines` has the names with a Workspace engine, and `reclaimers` the reclamations that were
-- started and have not run yet. The other members survive the process.
pub record Manager (W : Type 0) : Type 0 where
  pub db : Database
  pub dirs : List WorkspaceDir
  pub git : W
  pub engines : List Bytes
  pub reclaimers : List (Bytes × ℕ)

pub record ProjectPaths : Type 0 where
  pub root : Bytes
  pub tribios_dir : Bytes
  pub base_dir : Bytes
  pub workspaces_dir : Bytes
  pub staging_dir : Bytes
  pub mount_point : Bytes

-- The names of the failpoints, at which `TRIBIOS_FAILPOINT` ends the process.
pub data Failpoint : Type 0 where
  create_after_journal create_after_state_commit create_after_storage : Failpoint
  create_after_git_register create_after_git_pointer create_after_active_commit : Failpoint
  create_before_reply remove_after_journal remove_after_removed_commit : Failpoint
  before_git_cleanup after_git_cleanup before_storage_cleanup after_storage_cleanup : Failpoint
  before_tombstone_cleanup after_tombstone_cleanup before_reclaimed_commit : Failpoint
  after_reclaimed_commit remove_before_reply : Failpoint

-- The steps that fail, by injected faults (the first six) or by the host.
pub data Fault : Type 0 where
  journal_write state_write storage_create git_pointer_write active_write removed_write : Fault
  make_upper sync_upper write_pointer remove_storage sync_workspaces list_workspaces : Fault
  remove_staging sync_staging : Fault

-- The moments at which a statement runs: SQLite may refuse it at one and not at another.
pub data Moment : Type 0 where
  loading journaling creating_commit active_commit removed_commit : Moment
  undo_state undo_journal clearing timing reclaiming settling : Moment

-- `integrity` is the answer of `validate_database_integrity`, which asks SQLite; `host` is what
-- recovery of an engine's operations meets.
pub record Machine (W : Type 0) : Type 0 where
  pub paths : ProjectPaths
  pub fault : Fault → ℕ
  pub strerror : ℕ → Bytes
  pub exits : Failpoint → Bool
  pub sql : Moment → Sqlite
  pub now : Int64
  pub elapsed : Int64
  pub git : Repository W
  pub host : Host
  pub integrity : Database → Outcome (Unit {0})
  pub has_base : Bool
  pub has_database : Bool
  pub populate : Bytes → Bytes → W → Outcome (Unit {0}) × W

-- What a caller sees: a reply, or the end of the process.
pub data Ran {ℓ} (A : Type ℓ) : Type ℓ where
  replied : Outcome A → Ran A
  exited : Ran A

unfoldable pub find_dir : Bytes → List WorkspaceDir → Option WorkspaceDir
unfolding bytes_eq
find_dir name [] = none
find_dir name (d ∷ ds) = if bytes_eq d.name name then some d else find_dir name ds

-- `remove_all(workspaces_dir / name)`.
unfoldable pub drop_dir : Bytes → List WorkspaceDir → List WorkspaceDir
unfolding bytes_eq
drop_dir name [] = []
drop_dir name (d ∷ ds) =
    let rest = drop_dir name ds in if bytes_eq d.name name then rest else d ∷ rest

-- The directory with its upper tree changed; it is made where it is missing.
unfoldable pub set_upper : Bytes → Option Tree → List WorkspaceDir → List WorkspaceDir
unfolding bytes_eq
set_upper name t [] = record { name = name; upper = t; stages = [] } ∷ []
set_upper name t (d ∷ ds) =
    let rest = set_upper name t ds in
    if bytes_eq d.name name then record d { upper = t } ∷ ds else d ∷ rest

unfoldable pub upper_of : Bytes → List WorkspaceDir → Option Tree
unfolding find_dir
upper_of name ds = elim (find_dir name ds) [ none ↦ none | some d ↦ d.upper ]

-- `engines_.contains(name)`.
unfoldable pub has_name : Bytes → List Bytes → Bool
unfolding bytes_eq
has_name name [] = false
has_name name (n ∷ ns) = if bytes_eq n name then true else has_name name ns

-- `engines_.erase(name)`.
unfoldable pub erase_name : Bytes → List Bytes → List Bytes
unfolding bytes_eq
erase_name name [] = []
erase_name name (n ∷ ns) =
    let rest = erase_name name ns in if bytes_eq n name then rest else n ∷ rest

-- `trigger_failpoint`, without the trace that it writes.
unfoldable pub trigger_failpoint {ℓ} :
    {W : Type 0} {A : Type ℓ}
    → Machine W
    → Failpoint
    → Manager W
    → Ran A × Manager W
    → Ran A × Manager W
trigger_failpoint m p s rest = if m.exits p then (exited, s) else rest

module _ {W : Type 0} (m : Machine W) where
  -- `abandon_recovery_operation`, its result not looked at.
  unfoldable pub abandon : ℕ → Manager W → Manager W
  unfolding abandon_recovery_operation
  abandon id s = record s { db = (abandon_recovery_operation (m.sql undo_journal) id s.db).1 }

  -- `set_workspace_state(name, Reclaimed)`, its result not looked at.
  unfoldable pub mark_reclaimed : Bytes → Manager W → Manager W
  unfolding set_workspace_state
  mark_reclaimed name s = record s {
    db = (set_workspace_state (m.sql undo_state) name reclaimed s.db).1;
  }
