-- ===== src/Projects/Journaled/Creation.antt =====
-- `create_workspace` of src/core/project_manager.cpp, at every end and at every failpoint.
use tribios_vfs.Common.{
  ℕ, true, false, List, Bytes, codes, bytes_eq_refl, All, ◌==◌, ◌≡◌, inl, inr, refl, Bool-cases,
}
use tribios_vfs.Store.Types.{
  Database, WorkspaceRow, OperationRow, creating, active, workspace_state_name,
}
use tribios_vfs.Store.Sql.{Outcome, ok, error, update_state}
use tribios_vfs.Store.Workspaces.{load_workspace_record, write_workspace_row}
use tribios_vfs.Store.Journal.{abandon_recovery_operation, write_operation_row}
use tribios_vfs.Projects.Names.{is_valid_workspace_name}
use tribios_vfs.Projects.State.{
  Manager, Machine, Ran, has_name, trigger_failpoint, Failpoint, abandon, mark_reclaimed,
  journal_write, state_write, storage_create, git_pointer_write, active_write, make_upper,
  sync_upper, write_pointer, loading, journaling, undo_state, undo_journal, creating_commit,
  active_commit, settling,
}
use tribios_vfs.Projects.Create.{
  in_use, creation, record_in, undo_record, undo_storage, undo_git, enlisted, activated, activate,
  write_git_pointer, registered, make_storage, stated, write_state, begun, create_named,
  create_workspace,
}
use tribios_vfs.Projects.Journaled.{opens, is_journaled, IsJournaled, IsRecoverable, IsPending}
use tribios_vfs.Projects.Journaled.Steps.{
  active-is_settled, Begun, begin-Begun, begin-workspaces, Stored, save-Stored, Settled,
  save-Settled, pending-IsJournaled, settle-IsJournaled, reclaimed-IsPending,
}

abbrev pub Safe {ℓ} : {W : Type 0} {A : Type ℓ} → Ran A × Manager W → Type 0
Safe r = IsRecoverable r.1

pub trigger_failpoint-Safe {ℓ} :
    {W : Type 0} {A : Type ℓ} (m : Machine W) (p : Failpoint) (s : Manager W)
    (rest : Ran A × Manager W)
    → IsRecoverable s
    → Safe rest
    → Safe (trigger_failpoint m p s rest)
unfolding trigger_failpoint
trigger_failpoint-Safe m p s rest here on = elim (Bool-cases (m.exits p)) [
  | inl ends ↦ rw ends here
  | inr goes ↦ rw goes on
]

module _ {W : Type 0} (m : Machine W) (name branch : Bytes) (ops : List OperationRow)
    (o : OperationRow) (runs : (m.sql undo_state).refuses update_state ≡ false) where
  abbrev Pending : Manager W → Type 0
  Pending s = IsPending name (codes "creating") ops o s.db s.reclaimers

  crash : (s : Manager W) → Pending s → IsRecoverable s
  crash s p = record {
    tables = pending-IsJournaled name (codes "creating") ops o s.db s.reclaimers p;
  }

  abandon-IsRecoverable :
      (s : Manager W)
      → Pending s
      → All (λ w. is_journaled ops w ≡ true) s.db.workspaces
      → IsRecoverable (abandon m o.id s)
  unfolding abandon
  abandon-IsRecoverable s p rows = record {
    tables =
        settle-IsJournaled (m.sql undo_journal) name (codes "creating") ops o s.db s.reclaimers p
          rows;
  }

  undo_record-IsRecoverable :
      (s : Manager W) → Pending s → IsRecoverable (undo_record m name branch o.id s)
  unfolding undo_record mark_reclaimed
  undo_record-IsRecoverable s p =
      let (q, rows) =
        reclaimed-IsPending (m.sql undo_state) name (codes "creating") ops o s.db s.reclaimers runs
          p in
      abandon-IsRecoverable (mark_reclaimed m name s) q rows

  undo_storage-IsRecoverable :
      (s : Manager W) → Pending s → IsRecoverable (undo_storage m name branch o.id s)
  unfolding undo_storage
  undo_storage-IsRecoverable s p = undo_record-IsRecoverable _ p

  undo_git-IsRecoverable :
      (s : Manager W) → Pending s → IsRecoverable (undo_git m name branch o.id s)
  unfolding undo_git
  undo_git-IsRecoverable s p = undo_storage-IsRecoverable _ p

  enlisted-Safe :
      (r : Outcome (Unit {0}) × Database) (s : Manager W)
      → IsJournaled r.1 s.reclaimers
      → Safe (enlisted m name branch r s)
  unfolding enlisted
  enlisted-Safe (error e, db) s j = record { tables = j }
  enlisted-Safe (ok u, db) s j =
      trigger_failpoint-Safe m _ _ _ (record { tables = j }) (record { tables = j })

  activated-Safe :
      (r : Outcome (Unit {0}) × Database) (s : Manager W)
      → Pending s
      → Settled name (codes "creating") ops o s.reclaimers r
      → Safe (activated m name branch o.id r s)
  unfolding activated
  activated-Safe (error e, db) s p q = undo_git-IsRecoverable s p
  activated-Safe (ok u, db) s p q =
      let after = record s { db = db } in
      trigger_failpoint-Safe m _ after _ (crash after q.0) (
        enlisted-Safe (abandon_recovery_operation (m.sql settling) o.id db) after (
          settle-IsJournaled (m.sql settling) name (codes "creating") ops o db s.reclaimers q.0
            q.1))

  activate-Safe : (s : Manager W) → Pending s → Safe (activate m name branch o.id s)
  unfolding activate record_in write_workspace_row workspace_state_name
  activate-Safe s p =
      let stored =
        save-Settled (m.sql active_commit) name (codes "creating") ops o s.db s.reclaimers
          (record_in m name branch active m.elapsed) refl (active-is_settled _ refl) p in
      elim (Bool-cases (m.fault active_write == 0)) [
        | inl fine ↦ rw fine (activated-Safe _ s p stored)
        | inr fails ↦ rw fails (undo_git-IsRecoverable s p)
      ]

  write_git_pointer-Safe :
      (git_file : Bytes) (s : Manager W)
      → Pending s
      → Safe (write_git_pointer m name branch o.id git_file s)
  unfolding write_git_pointer
  write_git_pointer-Safe git_file s p = elim (Bool-cases (m.fault git_pointer_write == 0)) [
    | inr fails ↦ rw fails (undo_git-IsRecoverable s p)
    | inl fine ↦ elim (Bool-cases (m.fault write_pointer == 0)) [
      | inr fails ↦ rw (fine, fails) (undo_git-IsRecoverable s p)
      | inl writes ↦
          rw (fine, writes) (trigger_failpoint-Safe m _ _ _ (crash _ p) (activate-Safe _ p))
    ]
  ]

  registered-Safe :
      (r : Outcome Bytes × W) (s : Manager W) → Pending s → Safe (registered m name branch o.id r s)
  unfolding registered
  registered-Safe (error e, w) s p = undo_storage-IsRecoverable _ p
  registered-Safe (ok git_file, w) s p =
      trigger_failpoint-Safe m _ _ _ (crash _ p) (write_git_pointer-Safe git_file _ p)

  make_storage-Safe : (s : Manager W) → Pending s → Safe (make_storage m name branch o.id s)
  unfolding make_storage
  make_storage-Safe s p = elim (Bool-cases (m.fault storage_create == 0)) [
    | inr fails ↦ rw fails (undo_record-IsRecoverable s p)
    | inl fine ↦ elim (Bool-cases (m.fault make_upper == 0)) [
      | inr fails ↦ rw (fine, fails) (crash _ p)
      | inl made ↦ elim (Bool-cases (m.fault sync_upper == 0)) [
        | inr fails ↦ rw (fine, made, fails) (crash _ p)
        | inl synced ↦
            rw (fine, made, synced)
              (trigger_failpoint-Safe m _ _ _ (crash _ p) (registered-Safe _ _ p))
      ]
    ]
  ]

  stated-Safe :
      (r : Outcome (Unit {0}) × Database) (s : Manager W)
      → Pending s
      → All (λ w. is_journaled ops w ≡ true) s.db.workspaces
      → Stored name (codes "creating") ops o s.reclaimers r
      → Safe (stated m name branch o.id r s)
  unfolding stated
  stated-Safe (error e, db) s p rows q = abandon-IsRecoverable s p rows
  stated-Safe (ok u, db) s p rows q =
      trigger_failpoint-Safe m _ _ _ (crash (record s { db = db }) q) (make_storage-Safe _ q)

  pub write_state-Safe :
      (s : Manager W)
      → Pending s
      → All (λ w. is_journaled ops w ≡ true) s.db.workspaces
      → Safe (write_state m name branch o.id s)
  unfolding write_state record_in
  write_state-Safe s p rows =
      let stored =
        save-Stored (m.sql creating_commit) name (codes "creating") ops o s.db s.reclaimers
          (record_in m name branch creating 0) refl (unfold workspace_state_name in refl) p in
      elim (Bool-cases (m.fault state_write == 0)) [
        | inl fine ↦ rw fine (stated-Safe _ s p rows stored)
        | inr fails ↦ rw fails (abandon-IsRecoverable s p rows)
      ]

module _ {W : Type 0} (m : Machine W) (runs : (m.sql undo_state).refuses update_state ≡ false) where
  creation-opens :
      (name branch : Bytes) (i : ℕ) (w : WorkspaceRow)
      → w.name ≡ name
      → w.state ≡ codes "creating"
      → opens w (write_operation_row i (creation name branch)) ≡ true
  unfolding opens write_operation_row creation
  creation-opens name branch i w e f = rw (f, e, bytes_eq_refl name) refl

  begun-Safe :
      (name branch : Bytes) (r : Outcome ℕ × Database) (s : Manager W)
      → IsRecoverable s
      → Begun name (codes "creating") s.db.operations (creation name branch) s.reclaimers r
      → r.1.workspaces ≡ s.db.workspaces
      → Safe (begun m name branch r s)
  unfolding begun write_operation_row
  begun-Safe name branch (error e, db) s j p same = j
  begun-Safe name branch (ok id, db) s j p same =
      let o = write_operation_row id (creation name branch) in
      trigger_failpoint-Safe m _ _ _
        (record {
          tables = pending-IsJournaled name (codes "creating") s.db.operations o db s.reclaimers p;
        })
        (write_state-Safe m name branch s.db.operations o runs _ p (rw same j.tables.rows))

  create_named-Safe :
      (name branch : Bytes) (s : Manager W) → IsRecoverable s → Safe (create_named m name branch s)
  unfolding create_named
  create_named-Safe name branch s j =
      let started =
        begin-Begun (m.sql journaling) name (codes "creating") (creation name branch) s.db
          s.reclaimers (creation-opens name branch) j.tables in
      elim (Bool-cases (m.fault journal_write == 0)) [
        | inr fails ↦ rw fails j
        | inl fine ↦ rw fine (
            begun-Safe name branch _ s j started
              (begin-workspaces (m.sql journaling) (creation name branch) s.db))
      ]

  -- A state in which every Workspace record is Active, Reclaimed or has its operation in the journal
  -- stays one when `create_workspace` replies, with a result or with an error of any of its steps,
  -- and when the process ends at any of its failpoints; provided that the statement which marks the
  -- record as Reclaimed after an error runs, since the source does not look at its result.
  pub create_workspace-IsRecoverable :
      (name branch : Bytes) (s : Manager W)
      → IsRecoverable s
      → IsRecoverable (create_workspace m name branch s).1
  unfolding create_workspace
  create_workspace-IsRecoverable name branch s j =
      elim (Bool-cases (is_valid_workspace_name name)) [
        | inr bad ↦ rw bad j
        | inl good ↦ elim (Bool-cases (has_name name s.engines)) [
          | inl there ↦ rw (good, there) j
          | inr free ↦
              elim (Bool-cases (in_use (load_workspace_record (m.sql loading) name s.db))) [
                | inl used ↦ rw (good, free, used) j
                | inr unused ↦ rw (good, free, unused) (create_named-Safe name _ s j)
              ]
        ]
      ]
