-- ===== src/Projects/Startup/Validate.antt =====
-- `validate_project_storage_invariants` of src/core/recovery.cpp, and `open_configured_project` of
-- src/core/project_manager.cpp.
use tribios_vfs.Common.{
  ℕ, Bool, true, false, List, [], ◌∷◌, ◌++◌, Bytes, codes, bytes_eq, to_string, Option, none, some,
  not, if◌then◌else◌,
}
use tribios_vfs.Store.Types.{
  Database, ProjectRecord, RecoveryOperation, WorkspaceState, WorkspaceRecord, creating,
}
use tribios_vfs.Store.Sql.{Outcome, ok, error}
use tribios_vfs.Store.Workspaces.{load_project_record, load_all_workspace_records}
use tribios_vfs.Store.Tombstones.{load_workspace_tombstones}
use tribios_vfs.Store.Journal.{load_recovery_operations, record_recovery_diagnostic}
use tribios_vfs.Recovery.{valid_recovery_relative_path}
use tribios_vfs.Projects.Names.{is_unsafe_name}
use tribios_vfs.Projects.State.{Manager, Machine, upper_of, loading, settling}
use tribios_vfs.Projects.Remove.{is_active}
use tribios_vfs.Projects.Startup.{
  or_empty, validate_completed_workspace_creation, with_git, then_do,
  recover_interrupted_operations,
}

unfoldable pub is_creating : WorkspaceState → Bool
is_creating creating = true
is_creating _ = false

unfoldable pub check_tombstones : List Bytes → Outcome (Unit {0})
check_tombstones [] = ok tt
check_tombstones (path ∷ paths) =
    let rest = check_tombstones paths in
    if not (valid_recovery_relative_path path false)
    then error (codes "tombstone path is unsafe")
    else rest

unfoldable pub check_nothing_pending : Outcome (List RecoveryOperation) → Outcome (Unit {0})
check_nothing_pending (error e) = error e
check_nothing_pending (ok []) = ok tt
check_nothing_pending (ok (o ∷ os)) =
    error (codes "recovery left operation " ++ to_string o.id ++ codes " unsettled")

module _ {W : Type 0} (m : Machine W) where
  abbrev Result : Type 0
  Result = Outcome (Unit {0}) × Manager W

  unfoldable pub check_active : WorkspaceRecord → Manager W → Result
  check_active r s =
      let checked =
        with_git m
          (validate_completed_workspace_creation m r.name r.branch (upper_of r.name s.dirs) s.git)
          s in
      if not (is_active r.state) then (ok tt, s) else elim (upper_of r.name s.dirs) [
        | none ↦ (error (codes "upper tree is missing"), s)
        | some t ↦ checked
      ]

  unfoldable pub check_record : WorkspaceRecord → Manager W → Result
  check_record r s =
      if is_unsafe_name r.name
      then (error (codes "Workspace record has an unsafe name " ++ r.name), s)
      else if is_creating r.state
      then (error (codes "creation has no recoverable operation record"), s)
      else then_do m (check_active r s)
          (λ t. (check_tombstones (load_workspace_tombstones (m.sql loading) r.name t.db), t))

  unfoldable pub check_records : List WorkspaceRecord → Manager W → Result
  check_records [] s = (ok tt, s)
  check_records (r ∷ rs) s = then_do m (check_record r s) (check_records rs)

  unfoldable pub check_project : Option ProjectRecord → Manager W → Result
  check_project none s = (error (codes "Project record is missing"), s)
  check_project (some project) s =
      let recorded = or_empty (m.git.canonical project.root s.git) in
      let opened = or_empty (m.git.canonical m.paths.root s.git) in
      if not (bytes_eq recorded opened)
      then (error (codes "Project record points at " ++ project.root), s)
      else then_do m (check_nothing_pending (load_recovery_operations (m.sql loading) s.db), s)
          (check_records (load_all_workspace_records (m.sql loading) s.db))

  unfoldable pub validate_project_storage_invariants : Manager W → Result
  validate_project_storage_invariants s =
      then_do m (m.integrity s.db, s)
        λ t.
          if not m.has_base
          then (error (codes "Base state directory is missing"), t)
          else check_project (load_project_record t.db) t

  -- A failed startup is recorded, under a number that the message names.
  unfoldable pub numbered : Bytes → Outcome ℕ × Database → Manager W → Result
  numbered e (ok id, db) s = (
    error (codes "recovery diagnostic R" ++ to_string id ++ codes ": " ++ e),
    record s { db = db },
  )
  numbered e (error f, db) s = (error e, record s { db = db })

  unfoldable pub diagnosed : Result → Result
  diagnosed (ok u, s) = (ok u, s)
  diagnosed (error e, s) =
      numbered e (record_recovery_diagnostic (m.sql settling) m.paths.root e s.db) s

  -- The loop that makes an engine for each Active record.
  unfoldable pub active_names : List WorkspaceRecord → List Bytes
  active_names [] = []
  active_names (r ∷ rs) =
      let rest = active_names rs in if is_active r.state then r.name ∷ rest else rest

  unfoldable pub start_engines : Manager W → Result
  start_engines s = (
    ok tt,
    record s {
      engines = active_names (load_all_workspace_records (m.sql loading) s.db);
      reclaimers = [];
    },
  )

  unfoldable pub open_recorded : Option ProjectRecord → Manager W → Result
  open_recorded none s = (error (codes "project record is missing from the metadata store"), s)
  open_recorded (some project) s =
      then_do m (diagnosed (recover_interrupted_operations m s))
        λ t. then_do m (diagnosed (validate_project_storage_invariants t)) start_engines

  unfoldable pub open_configured_project : Manager W → Result
  open_configured_project s =
      if not m.has_database
      then (error (codes "project is not configured: run `tribios configure` first"), s)
      else open_recorded (load_project_record s.db) s
