-- ===== src/Projects/Create.antt =====
-- Creation of a Workspace: `create_workspace` of src/core/project_manager.cpp.
use tribios_vfs.Common.{
  ℕ, Bool, true, false, [], ◌∷◌, ◌++◌, Bytes, codes, is_empty, Option, none, some, ◌==◌, ◌-◌, ◌^◌,
  not, if◌then◌else◌,
}
use tribios_vfs.Store.Types.{
  Int64, Database, RecoveryOperation, prepared, WorkspaceState, WorkspaceRecord, creating, active,
  reclaimed,
}
use tribios_vfs.Store.Sql.{Outcome, ok, error}
use tribios_vfs.Store.Workspaces.{save_workspace_record, load_workspace_record}
use tribios_vfs.Store.Journal.{begin_recovery_operation, abandon_recovery_operation}
use tribios_vfs.Engine.Host.{Tree, Node, dir, reg}
use tribios_vfs.Projects.Names.{is_valid_workspace_name, path_join}
use tribios_vfs.Projects.Git.{
  git_dir_name, register_linked_worktree, rollback_linked_worktree_creation,
}
use tribios_vfs.Projects.State.{
  Manager, Machine, Ran, replied, upper_of, set_upper, has_name, trigger_failpoint, abandon,
  mark_reclaimed, journal_write, state_write, storage_create, git_pointer_write, active_write,
  make_upper, sync_upper, write_pointer, loading, journaling, creating_commit, active_commit,
  settling, create_after_journal, create_after_state_commit, create_after_storage,
  create_after_git_register, create_after_git_pointer, create_after_active_commit,
  create_before_reply,
}

pub record CreateResult : Type 0 where
  pub name : Bytes
  pub branch : Bytes
  pub create_us : Int64
  pub path : Bytes

-- Whether a record stands in the way of a new Workspace.
unfoldable pub in_use : Option WorkspaceRecord → Bool
in_use none = false
in_use (some r) = elim r.state [ reclaimed ↦ false | _ ↦ true ]

unfoldable pub creation : Bytes → Bytes → RecoveryOperation
creation name branch = record {
  id = 0;
  workspace = name;
  kind = codes "workspace_create";
  path = name;
  target = branch;
  phase = prepared;
  add_path_tombstone = false;
  drop_target_tombstones = false;
}

-- What the host puts at the top of a new upper tree, and the file that holds the pointer.
abbrev pub new_entry : Bytes → Node
new_entry body = record { kind = reg; mode = 0o644; body = body; atime = 0; mtime = 0; ino = 0 }

abbrev pub new_top : Node
new_top = record (new_entry []) { kind = dir; mode = 0o755 }

unfoldable pub made_upper : Option Tree → Tree
made_upper none = ([], new_top) ∷ []
made_upper (some t) = t

unfoldable pub with_pointer : Bytes → Option Tree → Tree
unfolding made_upper
with_pointer git_file t = (git_dir_name, new_entry git_file) ∷ made_upper t

module _ {W : Type 0} (m : Machine W) (name branch : Bytes) where
  abbrev pub workspace_path : Bytes
  workspace_path = path_join m.paths.mount_point name

  abbrev pub staging_path : Bytes
  staging_path = path_join m.paths.staging_dir name

  unfoldable pub fault_error : Bytes → ℕ → Outcome CreateResult
  fault_error what code = error (what ++ codes ": " ++ m.strerror code)

  unfoldable pub record_in : WorkspaceState → Int64 → WorkspaceRecord
  record_in state create_us = record {
    name = name;
    branch = branch;
    state = state;
    created_at = m.now;
    create_us = create_us;
    removed_at = 0;
    logical_remove_us = 0;
    reclaim_us = 2 ^ 64 - 1;
  }

  -- The failing ends, from the first on: each undoes more.
  unfoldable pub undo_record : ℕ → Manager W → Manager W
  unfolding abandon mark_reclaimed
  undo_record id s = abandon m id (mark_reclaimed m name s)

  unfoldable pub undo_storage : ℕ → Manager W → Manager W
  unfolding undo_record
  undo_storage id s = undo_record id (record s { dirs = set_upper name none s.dirs })

  unfoldable pub undo_git : ℕ → Manager W → Manager W
  unfolding undo_storage
  undo_git id s =
      let rolled_back =
        rollback_linked_worktree_creation m.git m.paths.root branch workspace_path staging_path
          s.git in
      undo_storage id (record s { git = rolled_back.1 })

  unfoldable pub enlisted : Outcome (Unit {0}) × Database → Manager W → Ran CreateResult × Manager W
  enlisted (error e, db) s = (replied (error e), record s { db = db })
  enlisted (ok u, db) s =
      let after = record s { db = db; engines = s.engines ++ name ∷ [] } in
      trigger_failpoint m create_before_reply after (
        replied (
            ok (record {
              name = name;
              branch = branch;
              create_us = m.elapsed;
              path = workspace_path;
            })),
        after,
      )

  unfoldable pub activated :
      ℕ → Outcome (Unit {0}) × Database → Manager W → Ran CreateResult × Manager W
  activated id (error e, db) s = (replied (error e), undo_git id s)
  activated id (ok u, db) s =
      let after = record s { db = db } in
      trigger_failpoint m create_after_active_commit after
        (enlisted (abandon_recovery_operation (m.sql settling) id db) after)

  unfoldable pub activate : ℕ → Manager W → Ran CreateResult × Manager W
  activate id s =
      if not (m.fault active_write == 0)
      then (
        replied (fault_error (codes "Workspace activation failed") (m.fault active_write)),
        undo_git id s,
      )
      else activated id
          (save_workspace_record (m.sql active_commit) (record_in active m.elapsed) s.db) s

  unfoldable pub write_git_pointer : ℕ → Bytes → Manager W → Ran CreateResult × Manager W
  write_git_pointer id git_file s =
      let after = record s {
        dirs = set_upper name (some (with_pointer git_file (upper_of name s.dirs))) s.dirs;
      } in
      if not (m.fault git_pointer_write == 0)
      then (
        replied (fault_error (codes "Workspace Git pointer failed") (m.fault git_pointer_write)),
        undo_git id s,
      )
      else if not (m.fault write_pointer == 0)
      then (
        replied (
            error (
              codes "cannot write "
              ++ path_join (path_join (path_join m.paths.workspaces_dir name) (codes "upper"))
                  git_dir_name)),
        undo_git id s,
      )
      else trigger_failpoint m create_after_git_pointer after (activate id after)

  unfoldable pub registered : ℕ → Outcome Bytes × W → Manager W → Ran CreateResult × Manager W
  registered id (error e, w) s = (replied (error e), undo_storage id (record s { git = w }))
  registered id (ok git_file, w) s =
      let after = record s { git = w } in
      trigger_failpoint m create_after_git_register after (write_git_pointer id git_file after)

  -- `create_directories(upper)` may fail, and then leaves the record and the journal as they are.
  unfoldable pub make_storage : ℕ → Manager W → Ran CreateResult × Manager W
  make_storage id s =
      let after = record s {
        dirs = set_upper name (some (made_upper (upper_of name s.dirs))) s.dirs;
      } in
      if not (m.fault storage_create == 0)
      then (
        replied (fault_error (codes "Workspace storage creation failed") (m.fault storage_create)),
        undo_record id s,
      )
      else if not (m.fault make_upper == 0)
      then (replied (fault_error (codes "cannot create Workspace storage") (m.fault make_upper)), s)
      else if not (m.fault sync_upper == 0)
      then (replied (error (codes "cannot flush Workspace storage directory")), after)
      else trigger_failpoint m create_after_storage after (
          registered id
            (register_linked_worktree m.git m.paths.root (m.populate name) branch workspace_path
              staging_path after.git)
            after)

  unfoldable pub stated :
      ℕ → Outcome (Unit {0}) × Database → Manager W → Ran CreateResult × Manager W
  stated id (error e, db) s = (replied (error e), abandon m id s)
  stated id (ok u, db) s =
      let after = record s { db = db } in
      trigger_failpoint m create_after_state_commit after (make_storage id after)

  unfoldable pub write_state : ℕ → Manager W → Ran CreateResult × Manager W
  write_state id s =
      if not (m.fault state_write == 0)
      then (
        replied (fault_error (codes "Workspace creation state failed") (m.fault state_write)),
        abandon m id s,
      )
      else stated id (save_workspace_record (m.sql creating_commit) (record_in creating 0) s.db) s

  unfoldable pub begun : Outcome ℕ × Database → Manager W → Ran CreateResult × Manager W
  begun (error e, db) s = (replied (error e), s)
  begun (ok id, db) s =
      let after = record s { db = db } in
      trigger_failpoint m create_after_journal after (write_state id after)

  unfoldable pub create_named : Manager W → Ran CreateResult × Manager W
  create_named s =
      if not (m.fault journal_write == 0)
      then (
        replied (fault_error (codes "Workspace creation journal failed") (m.fault journal_write)),
        s,
      )
      else begun (begin_recovery_operation (m.sql journaling) (creation name branch) s.db) s

unfoldable pub create_workspace :
    {W : Type 0} → Machine W → Bytes → Bytes → Manager W → Ran CreateResult × Manager W
create_workspace m name requested_branch s =
    let branch = if is_empty requested_branch then name else requested_branch in
    if not (is_valid_workspace_name name)
    then (replied (error (codes "invalid Workspace name: " ++ name)), s)
    else if has_name name s.engines
    then (replied (error (codes "Workspace already exists: " ++ name)), s)
    else if in_use (load_workspace_record (m.sql loading) name s.db)
    then (replied (error (codes "Workspace name is still in use: " ++ name)), s)
    else create_named m name branch s
