-- ===== src/Projects/Remove.antt =====
-- Removal of a Workspace and its reclamation: `remove_workspace`, `start_workspace_reclamation`,
-- `wait_for_reclamation`, `active_workspace_names` and `workspace_records` of
-- src/core/project_manager.cpp.
use tribios_vfs.Common.{
  ℕ, Bool, true, false, List, [], ◌∷◌, ◌++◌, ◌-◌, ◌^◌, Bytes, codes, Option, none, some, ◌==◌, not,
  if◌then◌else◌,
}
use tribios_vfs.Store.Types.{
  Int64, Database, RecoveryOperation, prepared, WorkspaceState, WorkspaceRecord, active, removed,
  reclaimed,
}
use tribios_vfs.Store.Sql.{Outcome, ok, error}
use tribios_vfs.Store.Workspaces.{
  save_workspace_record, load_workspace_record, load_all_workspace_records, set_workspace_state,
  set_workspace_reclamation_duration,
}
use tribios_vfs.Store.Tombstones.{clear_tombstones}
use tribios_vfs.Store.Journal.{begin_recovery_operation, abandon_recovery_operation}
use tribios_vfs.Projects.Names.{path_join}
use tribios_vfs.Projects.Git.{unregister_linked_worktree}
use tribios_vfs.Projects.State.{
  Manager, Machine, Ran, replied, exited, drop_dir, has_name, erase_name, trigger_failpoint,
  abandon, journal_write, removed_write, remove_storage, sync_workspaces, loading, journaling,
  removed_commit, clearing, timing, reclaiming, settling, remove_after_journal,
  remove_after_removed_commit, before_git_cleanup, after_git_cleanup, before_storage_cleanup,
  after_storage_cleanup, before_tombstone_cleanup, after_tombstone_cleanup, before_reclaimed_commit,
  after_reclaimed_commit, remove_before_reply,
}

pub record RemoveResult : Type 0 where
  pub name : Bytes
  pub logical_remove_us : Int64

unfoldable pub is_active : WorkspaceState → Bool
is_active active = true
is_active _ = false

unfoldable pub removal : Bytes → RecoveryOperation
removal name = record {
  id = 0;
  workspace = name;
  kind = codes "workspace_remove";
  path = name;
  target = [];
  phase = prepared;
  add_path_tombstone = false;
  drop_target_tombstones = false;
}

module _ {W : Type 0} (m : Machine W) (name : Bytes) where
  unfoldable pub no_such : Outcome RemoveResult
  no_such = error (codes "no such active Workspace: " ++ name)

  unfoldable pub removal_fault : Bytes → ℕ → Outcome RemoveResult
  removal_fault what code = error (what ++ codes ": " ++ m.strerror code)

  unfoldable pub removed_record : WorkspaceRecord → WorkspaceRecord
  removed_record r = record r {
    state = removed;
    removed_at = m.now;
    logical_remove_us = m.elapsed;
    reclaim_us = 2 ^ 64 - 1;
  }

  -- `start_workspace_reclamation` starts a thread; `reclaim` is what the thread does.
  unfoldable pub start_workspace_reclamation : ℕ → Manager W → Manager W
  start_workspace_reclamation id s = record s { reclaimers = s.reclaimers ++ (name, id) ∷ [] }

  unfoldable pub committed :
      ℕ → Outcome (Unit {0}) × Database → Manager W → Ran RemoveResult × Manager W
  committed id (error e, db) s = (replied (error e), abandon m id s)
  committed id (ok u, db) s =
      let stored = record s { db = db } in
      let after =
        start_workspace_reclamation id (record stored { engines = erase_name name s.engines }) in
      trigger_failpoint m remove_after_removed_commit stored (
        trigger_failpoint m remove_before_reply after
          (replied (ok (record { name = name; logical_remove_us = m.elapsed })), after))

  unfoldable pub commit_removed : WorkspaceRecord → ℕ → Manager W → Ran RemoveResult × Manager W
  commit_removed r id s =
      if not (has_name name s.engines)
      then (replied no_such, abandon m id s)
      else if not (m.fault removed_write == 0)
      then (
        replied (removal_fault (codes "Workspace removal state failed") (m.fault removed_write)),
        abandon m id s,
      )
      else committed id (save_workspace_record (m.sql removed_commit) (removed_record r) s.db) s

  unfoldable pub removal_begun :
      WorkspaceRecord → Outcome ℕ × Database → Manager W → Ran RemoveResult × Manager W
  removal_begun r (error e, db) s = (replied (error e), s)
  removal_begun r (ok id, db) s =
      let after = record s { db = db } in
      trigger_failpoint m remove_after_journal after (commit_removed r id after)

  unfoldable pub remove_found : Option WorkspaceRecord → Manager W → Ran RemoveResult × Manager W
  remove_found none s = (replied no_such, s)
  remove_found (some r) s =
      if not (is_active r.state)
      then (replied no_such, s)
      else if not (m.fault journal_write == 0)
      then (
        replied (removal_fault (codes "Workspace removal journal failed") (m.fault journal_write)),
        s,
      )
      else removal_begun r (begin_recovery_operation (m.sql journaling) (removal name) s.db) s

  unfoldable pub remove_workspace : Manager W → Ran RemoveResult × Manager W
  remove_workspace s = remove_found (load_workspace_record (m.sql loading) name s.db) s

  -- The thread replies to nobody: it ends, or the process does.
  unfoldable pub ended : Manager W → Ran (Unit {0}) × Manager W
  ended s = (replied (ok tt), s)

  unfoldable pub settled : Outcome (Unit {0}) × Database → Manager W → Ran (Unit {0}) × Manager W
  settled (r, db) s = ended (record s { db = db })

  unfoldable pub reclaimed_state :
      ℕ → Outcome (Unit {0}) × Database → Manager W → Ran (Unit {0}) × Manager W
  reclaimed_state id (error e, db) s = ended (record s { db = db })
  reclaimed_state id (ok u, db) s =
      let after = record s { db = db } in
      trigger_failpoint m after_reclaimed_commit after
        (settled (abandon_recovery_operation (m.sql settling) id db) after)

  unfoldable pub timed : ℕ → Outcome (Unit {0}) × Database → Manager W → Ran (Unit {0}) × Manager W
  timed id (error e, db) s = ended (record s { db = db })
  timed id (ok u, db) s =
      let after = record s { db = db } in
      trigger_failpoint m before_reclaimed_commit after
        (reclaimed_state id (set_workspace_state (m.sql reclaiming) name reclaimed db) after)

  unfoldable pub cleared :
      ℕ → Outcome (Unit {0}) × Database → Manager W → Ran (Unit {0}) × Manager W
  cleared id (error e, db) s = ended (record s { db = db })
  cleared id (ok u, db) s =
      let after = record s { db = db } in
      trigger_failpoint m after_tombstone_cleanup after
        (timed id (set_workspace_reclamation_duration (m.sql timing) name m.elapsed db) after)

  unfoldable pub remove_tree : ℕ → Manager W → Ran (Unit {0}) × Manager W
  remove_tree id s =
      let after = record s { dirs = drop_dir name s.dirs } in
      if not (m.fault remove_storage == 0)
      then ended s
      else if not (m.fault sync_workspaces == 0)
      then ended after
      else trigger_failpoint m after_storage_cleanup after (
          trigger_failpoint m before_tombstone_cleanup after
            (cleared id (clear_tombstones (m.sql clearing) name after.db) after))

  unfoldable pub unlisted : ℕ → Outcome (Unit {0}) × W → Manager W → Ran (Unit {0}) × Manager W
  unlisted id (error e, w) s = ended (record s { git = w })
  unlisted id (ok u, w) s =
      let after = record s { git = w } in
      trigger_failpoint m after_git_cleanup after
        (trigger_failpoint m before_storage_cleanup after (remove_tree id after))

  unfoldable pub reclaim : ℕ → Manager W → Ran (Unit {0}) × Manager W
  reclaim id s = trigger_failpoint m before_git_cleanup s (
      unlisted id
        (unregister_linked_worktree m.git m.paths.root (path_join m.paths.mount_point name) s.git)
        s)

-- The threads that are joined, in the order in which they started.
unfoldable pub join_all :
    {W : Type 0} → Machine W → List (Bytes × ℕ) → Manager W → Ran (Unit {0}) × Manager W
unfolding reclaim
join_all m [] s = (replied (ok tt), s)
join_all m ((name, id) ∷ pending) s =
    let (r, after) = reclaim m name id s in
    let rest = join_all m pending after in elim r [ exited ↦ (exited, after) | replied o ↦ rest ]

unfoldable pub wait_for_reclamation :
    {W : Type 0} → Machine W → Manager W → Ran (Unit {0}) × Manager W
unfolding join_all
wait_for_reclamation m s = join_all m s.reclaimers (record s { reclaimers = [] })

unfoldable pub workspace_records : {W : Type 0} → Machine W → Manager W → List WorkspaceRecord
unfolding load_all_workspace_records
workspace_records m s = load_all_workspace_records (m.sql loading) s.db
