-- ===== src/Projects/Journaled/Removal.antt =====
-- `remove_workspace` of src/core/project_manager.cpp and its reclamation, at every end and at every
-- failpoint.
use tribios_vfs.Common.{
  ℕ, suc, true, List, [], ◌∷◌, ◌++◌, Bytes, codes, bytes_eq_refl, Option, none, some, All,
  All-append, ◌==◌, ◌≡◌, inl, inr, refl, arith, Bool-cases,
}
use tribios_vfs.Store.Types.{
  Database, WorkspaceRow, WorkspaceRecord, OperationRow, workspace_state_name,
}
use tribios_vfs.Store.Sql.{Outcome, ok, error}
use tribios_vfs.Store.Workspaces.{load_workspace_record, write_workspace_row}
use tribios_vfs.Store.Journal.{write_operation_row}
use tribios_vfs.Projects.State.{
  Manager, Machine, has_name, abandon, journal_write, removed_write, loading, journaling,
  undo_journal, removed_commit,
}
use tribios_vfs.Projects.Remove.{
  is_active, removal, removed_record, start_workspace_reclamation, committed, commit_removed,
  removal_begun, remove_found, remove_workspace,
}
use tribios_vfs.Projects.Journaled.{opens, is_journaled, Owns, IsRecoverable, IsPending, All-mono}
use tribios_vfs.Projects.Journaled.Steps.{
  Begun, begin-Begun, begin-workspaces, Stored, save-Stored, pending-IsJournaled,
  settle-IsJournaled,
}
use tribios_vfs.Projects.Journaled.Creation.{Safe, trigger_failpoint-Safe}
use tribios_vfs.Projects.Found.{Named, load_workspace_record-Named}

module _ {W : Type 0} (m : Machine W) (name : Bytes) (ops : List OperationRow)
    (o : OperationRow) where
  abbrev Pending : Manager W → Type 0
  Pending s = IsPending name (codes "removed") ops o s.db s.reclaimers

  crash : (s : Manager W) → Pending s → IsRecoverable s
  crash s p = record {
    tables = pending-IsJournaled name (codes "removed") ops o s.db s.reclaimers p;
  }

  abandon-IsRecoverable :
      (s : Manager W)
      → Pending s
      → All (λ w. is_journaled ops w ≡ true) s.db.workspaces
      → IsRecoverable (abandon m o.id s)
  unfolding abandon
  abandon-IsRecoverable s p rows = record {
    tables =
        settle-IsJournaled (m.sql undo_journal) name (codes "removed") ops o s.db s.reclaimers p
          rows;
  }

  -- The reclamation that starts owns the journal row.
  started-IsRecoverable :
      (s : Manager W)
      → Pending s
      → o.workspace ≡ name
      → IsRecoverable (start_workspace_reclamation m name o.id s)
  unfolding start_workspace_reclamation
  started-IsRecoverable s p mine =
      let now = pending-IsJournaled name (codes "removed") ops o s.db s.reclaimers p in
      let last : Owns (ops ++ o ∷ []) (suc o.id) (name, o.id) = (
        omega arith,
        All-append _ ops (o ∷ []) (All-mono ops (λ r h e. absurd (omega (arith, h, e))) p.fresh)
            (λ e. mine, tt),
      ) in
      record {
        tables = record {
          fresh = now.fresh;
          distinct = now.distinct;
          rows = now.rows;
          keyed = now.keyed;
          owned =
              All-append _ s.reclaimers ((name, o.id) ∷ []) now.owned
                (rw (p.journal, p.next) last, tt);
        };
      }

  committed-Safe :
      (r : Outcome (Unit {0}) × Database) (s : Manager W)
      → o.workspace ≡ name
      → Pending s
      → All (λ w. is_journaled ops w ≡ true) s.db.workspaces
      → Stored name (codes "removed") ops o s.reclaimers r
      → Safe (committed m name o.id r s)
  unfolding committed
  committed-Safe (error e, db) s mine p rows q = abandon-IsRecoverable s p rows
  committed-Safe (ok u, db) s mine p rows q = trigger_failpoint-Safe m _ _ _ (crash _ q) (
      trigger_failpoint-Safe m _ _ _ (started-IsRecoverable _ q mine)
        (started-IsRecoverable _ q mine))

  pub commit_removed-Safe :
      (r : WorkspaceRecord) (s : Manager W)
      → r.name ≡ name
      → o.workspace ≡ name
      → Pending s
      → All (λ w. is_journaled ops w ≡ true) s.db.workspaces
      → Safe (commit_removed m name r o.id s)
  unfolding commit_removed removed_record write_workspace_row workspace_state_name
  commit_removed-Safe r s named mine p rows =
      let stored =
        save-Stored (m.sql removed_commit) name (codes "removed") ops o s.db s.reclaimers
          (removed_record m name r) named refl p in
      elim (Bool-cases (has_name name s.engines)) [
        | inr gone ↦ rw gone (abandon-IsRecoverable s p rows)
        | inl there ↦ elim (Bool-cases (m.fault removed_write == 0)) [
          | inr fails ↦ rw (there, fails) (abandon-IsRecoverable s p rows)
          | inl fine ↦ rw (there, fine) (committed-Safe _ s mine p rows stored)
        ]
      ]

module _ {W : Type 0} (m : Machine W) (name : Bytes) where
  removal-opens :
      (i : ℕ) (w : WorkspaceRow)
      → w.name ≡ name
      → w.state ≡ codes "removed"
      → opens w (write_operation_row i (removal name)) ≡ true
  unfolding opens write_operation_row removal
  removal-opens i w e f = rw (f, e, bytes_eq_refl name) refl

  removal_begun-Safe :
      (record_ : WorkspaceRecord) (r : Outcome ℕ × Database) (s : Manager W)
      → record_.name ≡ name
      → IsRecoverable s
      → Begun name (codes "removed") s.db.operations (removal name) s.reclaimers r
      → r.1.workspaces ≡ s.db.workspaces
      → Safe (removal_begun m name record_ r s)
  unfolding removal_begun removal write_operation_row
  removal_begun-Safe record_ (error e, db) s named j p same = j
  removal_begun-Safe record_ (ok id, db) s named j p same =
      let o = write_operation_row id (removal name) in
      trigger_failpoint-Safe m _ _ _
        (record {
          tables = pending-IsJournaled name (codes "removed") s.db.operations o db s.reclaimers p;
        })
        (commit_removed-Safe m name s.db.operations o record_ _ named refl p
          (rw same j.tables.rows))

  remove_found-Safe :
      (found : Option WorkspaceRecord) (s : Manager W)
      → Named name found
      → IsRecoverable s
      → Safe (remove_found m name found s)
  unfolding remove_found
  remove_found-Safe none s named j = j
  remove_found-Safe (some r) s named j =
      let started =
        begin-Begun (m.sql journaling) name (codes "removed") (removal name) s.db s.reclaimers
          removal-opens j.tables in
      elim (Bool-cases (is_active r.state)) [
        | inr other ↦ rw other j
        | inl live ↦ elim (Bool-cases (m.fault journal_write == 0)) [
          | inr fails ↦ rw (live, fails) j
          | inl fine ↦
              rw (live, fine)
                (removal_begun-Safe r _ s named j started
                  (begin-workspaces (m.sql journaling) (removal name) s.db))
        ]
      ]

  -- The same of `remove_workspace`, with every fault: the reclamation that it starts owns one journal
  -- row, which names the removed Workspace.
  pub remove_workspace-IsRecoverable :
      (s : Manager W) → IsRecoverable s → IsRecoverable (remove_workspace m name s).1
  unfolding remove_workspace
  remove_workspace-IsRecoverable s j =
      remove_found-Safe (load_workspace_record (m.sql loading) name s.db) s
        (load_workspace_record-Named (m.sql loading) name s.db) j
