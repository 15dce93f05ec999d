-- ===== src/Projects/Startup.antt =====
-- Startup: `recover_interrupted_operations` and `validate_completed_workspace_creation` of
-- src/core/recovery.cpp. A refusal is given by its detail; the head of its message, which names
-- the Project and the operation, is left out.
pub mod Validate
use tribios_vfs.Common.{
  ℕ, Bool, true, false, List, [], ◌∷◌, ◌++◌, Bytes, codes, bytes_eq, is_empty, starts_with, drop,
  map, to_string, Option, none, some, ◌==◌, ◌&&◌, ◌||◌, not, if◌then◌else◌,
}
use tribios_vfs.Store.Types.{
  Database, ProjectRecord, RecoveryOperation, WorkspaceState, WorkspaceRecord, creating, active,
  removed, reclaimed,
}
use tribios_vfs.Store.Sql.{Outcome, ok, error}
use tribios_vfs.Store.Workspaces.{
  load_project_record, load_workspace_record, load_all_workspace_records, set_workspace_state,
  set_workspace_reclamation_duration,
}
use tribios_vfs.Store.Tombstones.{clear_tombstones, load_workspace_tombstones}
use tribios_vfs.Store.Journal.{
  abandon_recovery_operation, load_recovery_operations, record_recovery_diagnostic,
}
use tribios_vfs.Engine.Host.{Tree, Node, lstat}
use tribios_vfs.Recovery.{Storage, valid_recovery_relative_path, recover_operation}
use tribios_vfs.Projects.Names.{is_unsafe_name, path_join}
use tribios_vfs.Projects.Git.{
  Repository, Run, git_dir_name, contains_text, in_git, unregister_linked_worktree,
  rollback_linked_worktree_creation,
}
use tribios_vfs.Projects.State.{
  Manager, Machine, WorkspaceDir, find_dir, drop_dir, upper_of, loading, clearing, timing,
  reclaiming, undo_state, undo_journal, settling, remove_storage, sync_workspaces, list_workspaces,
  remove_staging, sync_staging,
}
use tribios_vfs.Projects.Remove.{is_active}

-- `std::getline` on a file.
unfoldable pub line_of : Bytes → Bytes
line_of [] = []
line_of (c ∷ s) = let rest = line_of s in if c == b'\n' then [] else c ∷ rest

unfoldable pub pointer_in : Option Tree → Bytes
unfolding line_of lstat
pointer_in none = []
pointer_in (some t) = elim (lstat t git_dir_name) [ none ↦ [] | some n ↦ line_of n.body ]

unfoldable pub or_empty : Option Bytes → Bytes
or_empty none = []
or_empty (some s) = s

unfoldable pub is_active_record : Option WorkspaceRecord → Bool
is_active_record none = false
is_active_record (some r) = is_active r.state

-- Without a record, or with an Active one, the removal never took effect.
unfoldable pub is_not_removed : Option WorkspaceRecord → Bool
is_not_removed none = true
is_not_removed (some r) = is_active r.state

-- The storage of one Workspace, for the operations of its engine, and back.
unfoldable pub tree_or_empty : Option Tree → Tree
tree_or_empty none = []
tree_or_empty (some t) = t

unfoldable pub storage_of : Option WorkspaceDir → Database → Storage
storage_of none db = record { upper = []; stages = []; db = db }
storage_of (some d) db = record { upper = tree_or_empty d.upper; stages = d.stages; db = db }

unfoldable pub kept_upper : Option Tree → Tree → Option Tree
kept_upper none [] = none
kept_upper o t = some t

unfoldable pub put_storage : Bytes → Storage → List WorkspaceDir → List WorkspaceDir
put_storage name t = map λ d.
    if bytes_eq d.name name
    then record d { upper = kept_upper d.upper t.upper; stages = t.stages }
    else d

module _ {W : Type 0} (m : Machine W) where
  abbrev Result : Type 0
  Result = Outcome (Unit {0}) × Manager W

  unfoldable pub check_list : Bytes → Bytes → Run × W → Outcome (Unit {0}) × W
  check_list target listed_path (r, w) =
      if not r.succeeded
        || not (contains_text (codes "worktree " ++ listed_path) r.output)
        || (not (is_empty target)
            && not (contains_text (codes "branch refs/heads/" ++ target) r.output))
      then (error (codes "Git linked-worktree registry is inconsistent"), w)
      else (ok tt, w)

  unfoldable pub check_objects : Bytes → Bytes → Run × W → Outcome (Unit {0}) × W
  check_objects target listed_path (r, w) =
      if not r.succeeded
      then (error (codes "Git integrity check failed: " ++ r.output), w)
      else check_list target listed_path (
          m.git.run
            (codes "git"
              ∷ codes "-C"
              ∷ m.paths.root
              ∷ codes "worktree"
              ∷ codes "list"
              ∷ codes "--porcelain"
              ∷ [])
            w)

  -- The tests of the administrative directory to which the pointer leads.
  unfoldable pub check_admin : Bytes → Bytes → Bytes → W → Outcome (Unit {0}) × W
  check_admin workspace target admin w =
      let registry = m.git.canonical (in_git m.git m.paths.root (codes "worktrees")) w in
      let git_file = m.git.first_line (path_join admin (codes "gitdir")) w in
      let listed_path = m.git.parent_path git_file in
      if not (m.git.is_directory admin w)
      then (error (codes "active Workspace Git administrative directory is missing"), w)
      else if elim registry [ none ↦ true | some r ↦ false ]
          || not (
              bytes_eq (m.git.parent_path (or_empty (m.git.canonical admin w))) (or_empty registry))
      then (error (codes "Git administrative directory is outside the Project registry"), w)
      else if not (bytes_eq (m.git.filename git_file) git_dir_name)
          || not (bytes_eq (m.git.filename listed_path) workspace)
      then (error (codes "Git linked-worktree record points at the wrong Workspace"), w)
      else check_objects target listed_path (
          m.git.run
            (codes "git"
              ∷ codes "--git-dir"
              ∷ admin
              ∷ codes "fsck"
              ∷ codes "--connectivity-only"
              ∷ [])
            w)

  unfoldable pub validate_completed_workspace_creation :
      Bytes → Bytes → Option Tree → W → Outcome (Unit {0}) × W
  validate_completed_workspace_creation workspace target upper w =
      let pointer = pointer_in upper in
      if not (starts_with (codes "gitdir: ") pointer)
      then (error (codes "active Workspace has no valid .git pointer"), w)
      else check_admin workspace target (drop 8 pointer) w

  unfoldable pub with_git : Outcome (Unit {0}) × W → Manager W → Result
  with_git (r, w) s = (r, record s { git = w })

  unfoldable pub with_tables : Outcome (Unit {0}) × Database → Manager W → Result
  with_tables (r, db) s = (r, record s { db = db })

  -- The next step, where the last one succeeded.
  unfoldable pub then_do : Result → (Manager W → Result) → Result
  then_do (error e, s) next = (error e, s)
  then_do (ok u, s) next = next s

  unfoldable pub abandon_journaled : RecoveryOperation → Manager W → Result
  abandon_journaled o s = with_tables (abandon_recovery_operation (m.sql settling) o.id s.db) s

  unfoldable pub reclaim_record : RecoveryOperation → Option WorkspaceRecord → Manager W → Result
  reclaim_record o none s = (ok tt, s)
  reclaim_record o (some r) s =
      with_tables (set_workspace_state (m.sql undo_state) o.workspace reclaimed s.db) s

  unfoldable pub roll_back_git : RecoveryOperation → ProjectRecord → Manager W → Result
  roll_back_git o project s =
      with_git
        (rollback_linked_worktree_creation m.git m.paths.root o.target
          (path_join project.mount_point o.workspace)
          (path_join (path_join m.paths.tribios_dir (codes "staging")) o.workspace) s.git)
        s

  unfoldable pub roll_back_creation :
      RecoveryOperation → Option WorkspaceRecord → Option ProjectRecord → Manager W → Result
  roll_back_creation o r none s =
      (error (codes "Project record is missing during Workspace creation rollback"), s)
  roll_back_creation o r (some project) s =
      if not (m.fault remove_storage == 0)
      then (error (m.strerror (m.fault remove_storage)), s)
      else then_do (roll_back_git o project (record s { dirs = drop_dir o.workspace s.dirs }))
          (reclaim_record o r)

  unfoldable pub recover_creation : RecoveryOperation → Manager W → Result
  recover_creation o s =
      let r = load_workspace_record (m.sql loading) o.workspace s.db in
      then_do
        (if is_active_record r
          then with_git
              (validate_completed_workspace_creation o.workspace o.target
                (upper_of o.workspace s.dirs) s.git)
              s
          else roll_back_creation o r (load_project_record s.db) s)
        (abandon_journaled o)

  unfoldable pub clear_removed : RecoveryOperation → Manager W → Result
  clear_removed o s =
      then_do (with_tables (clear_tombstones (m.sql clearing) o.workspace s.db) s) λ a.
        then_do
          (with_tables (set_workspace_reclamation_duration (m.sql timing) o.workspace 0 a.db) a)
          λ b.
            then_do
              (with_tables (set_workspace_state (m.sql reclaiming) o.workspace reclaimed b.db) b)
              (abandon_journaled o)

  unfoldable pub remove_storage_of : RecoveryOperation → Manager W → Result
  remove_storage_of o s =
      let after = record s { dirs = drop_dir o.workspace s.dirs } in
      if not (m.fault remove_storage == 0)
      then (error (m.strerror (m.fault remove_storage)), s)
      else if not (m.fault sync_workspaces == 0)
      then (error (codes "cannot flush Workspace cleanup"), after)
      else (ok tt, after)

  unfoldable pub complete_removal : RecoveryOperation → Option ProjectRecord → Manager W → Result
  complete_removal o none s = (error (codes "Project record is missing"), s)
  complete_removal o (some project) s =
      then_do
        (with_git
          (unregister_linked_worktree m.git m.paths.root (path_join project.mount_point o.workspace)
            s.git)
          s)
        λ a. then_do (remove_storage_of o a) (clear_removed o)

  unfoldable pub recover_removal : RecoveryOperation → Manager W → Result
  recover_removal o s =
      if is_not_removed (load_workspace_record (m.sql loading) o.workspace s.db)
      then abandon_journaled o s
      else complete_removal o (load_project_record s.db) s

  unfoldable pub with_storage : Bytes → Outcome (Unit {0}) × Storage → Manager W → Result
  with_storage name (r, t) s = (r, record s { db = t.db; dirs = put_storage name t s.dirs })

  unfoldable pub recover_one : RecoveryOperation → Manager W → Result
  recover_one o s =
      if bytes_eq o.kind (codes "workspace_create")
      then recover_creation o s
      else if bytes_eq o.kind (codes "workspace_remove")
      then recover_removal o s
      else with_storage o.workspace
          (recover_operation m.host o (storage_of (find_dir o.workspace s.dirs) s.db)) s

  unfoldable pub recover_each : List RecoveryOperation → Manager W → Result
  recover_each [] s = (ok tt, s)
  recover_each (o ∷ os) s = then_do (recover_one o s) (recover_each os)

  -- A listing that fails gives no directories, and then nothing is said of it.
  unfoldable pub clear_recovery_dirs : List WorkspaceDir → List WorkspaceDir
  clear_recovery_dirs dirs =
      if not (m.fault list_workspaces == 0)
      then dirs
      else map {A = WorkspaceDir} (λ d. record d { stages = [] }) dirs

  unfoldable pub remake_staging : Manager W → Result
  remake_staging s =
      let staging = path_join m.paths.tribios_dir (codes "staging") in
      let after = record s { git = m.git.make_dirs staging (m.git.remove_dir staging s.git) } in
      if not (m.fault remove_staging == 0)
      then (
        error (codes "cannot reclaim staging artifacts: " ++ m.strerror (m.fault remove_staging)),
        s,
      )
      else if not (m.fault sync_staging == 0)
      then (error (codes "cannot recreate durable staging directory"), after)
      else (ok tt, after)

  unfoldable pub recover_loaded : Outcome (List RecoveryOperation) → Manager W → Result
  recover_loaded (error e) s = (error e, s)
  recover_loaded (ok os) s =
      then_do (recover_each os s)
        (λ t. remake_staging (record t { dirs = clear_recovery_dirs t.dirs }))

  unfoldable pub recover_interrupted_operations : Manager W → Result
  recover_interrupted_operations s =
      recover_loaded (load_recovery_operations (m.sql loading) s.db) s
