-- ===== src/Projects/Settling/Entries.antt =====
-- One entry of the journal at startup: `recover_interrupted_operations` of src/core/recovery.cpp.
use tribios_vfs.Common.{
  ℕ, true, false, List, [], ◌∷◌, Bytes, Option, none, some, All, ◌==◌, ◌≡◌, inl, inr, refl, ap, ◌∙◌,
  arith, Bool-cases,
}
use tribios_vfs.Store.Types.{
  Database, ProjectRecord, WorkspaceRow, WorkspaceRecord, OperationRow, RecoveryOperation,
  reclaimed,
}
use tribios_vfs.Store.Sql.{
  Sqlite, Outcome, ok, error, select_workspaces, delete_operation, execute, store_error,
}
use tribios_vfs.Store.Workspaces.{
  load_project_record, load_workspace_record, set_workspace_state,
  set_workspace_reclamation_duration,
}
use tribios_vfs.Store.Tombstones.{clear_tombstones}
use tribios_vfs.Store.Journal.{delete_id, abandon_recovery_operation}
use tribios_vfs.Projects.State.{
  Manager, Machine, loading, clearing, timing, reclaiming, undo_state, settling, remove_storage,
  sync_workspaces,
}
use tribios_vfs.Projects.Startup.{
  is_active_record, is_not_removed, with_git, with_tables, then_do, abandon_journaled,
  reclaim_record, roll_back_git, roll_back_creation, recover_creation, clear_removed,
  remove_storage_of, complete_removal, recover_removal,
}
use tribios_vfs.Projects.Journaled.{is_journaled, IsJournaled}
use tribios_vfs.Projects.Journaled.Steps.{settled-is_journaled}
use tribios_vfs.Projects.Journaled.Reclamation.{
  IsKept, is_journaled-delete_id, Mine, clear-Kept, duration-Kept, Freed, reclaimed-Freed,
  deleted-IsJournaled,
}
use tribios_vfs.Projects.Settling.Records.{IsFree, load_workspace_record-IsFree}

-- What a step leaves: tables that can be recovered, and, where it succeeds, the journal `ops`.
abbrev pub Steady : {W : Type 0} → List OperationRow → Outcome (Unit {0}) × Manager W → Type 0
Steady ops (ok u, s) = IsKept [] s × (s.db.operations ≡ ops)
Steady ops (error e, s) = IsKept [] s

-- The Workspace is settled, and the entry may go.
abbrev pub Ready :
    {W : Type 0} → RecoveryOperation → List OperationRow → Outcome (Unit {0}) × Manager W → Type 0
Ready o ops (ok u, s) = Freed o.workspace o.id [] (ok u, s.db) × (s.db.operations ≡ ops)
Ready o ops (error e, s) = IsKept [] s

module _ {W : Type 0} (m : Machine W) (o : RecoveryOperation) (ops : List OperationRow) where
  pub then_do-Steady :
      (out : List OperationRow) (r : Outcome (Unit {0}) × Manager W)
      (next : Manager W → Outcome (Unit {0}) × Manager W)
      → Steady ops r
      → ((s : Manager W) → IsKept [] s → s.db.operations ≡ ops → Steady out (next s))
      → Steady out (then_do m r next)
  unfolding then_do
  then_do-Steady out (error e, s) next h f = h
  then_do-Steady out (ok u, s) next h f = f s h.0 h.1

  abandon_journaled-Steady :
      (s : Manager W)
      → Ready o ops (ok tt, s)
      → Steady (delete_id o.id ops) (abandon_journaled m o s)
  unfolding abandon_journaled with_tables abandon_recovery_operation execute
  abandon_journaled-Steady s (freed, e) =
      elim (Bool-cases ((m.sql settling).refuses delete_operation)) [
        | inl refused ↦ rw refused (unfold store_error in record { tables = freed.0 })
        | inr runs ↦ rw runs (
          record { tables = deleted-IsJournaled o.workspace o.id [] s.db freed },
          ap (delete_id o.id) e,
        )
      ]

  then_abandon-Steady :
      (r : Outcome (Unit {0}) × Manager W)
      → Ready o ops r
      → Steady (delete_id o.id ops) (then_do m r (abandon_journaled m o))
  unfolding then_do
  then_abandon-Steady (error e, s) h = h
  then_abandon-Steady (ok u, s) h = abandon_journaled-Steady s h

  quiet :
      (s : Manager W) (r : Outcome (Unit {0}) × Database)
      → IsJournaled r.1 []
      → r.1.operations ≡ ops
      → Steady ops (with_tables m r s)
  unfolding with_tables
  quiet s (ok u, db) j e = (record { tables = j }, e)
  quiet s (error f, db) j e = record { tables = j }

  git-Steady :
      (s : Manager W) (r : Outcome (Unit {0}) × W)
      → IsKept [] s
      → s.db.operations ≡ ops
      → Steady ops (with_git m r s)
  unfolding with_git
  git-Steady s (ok u, w) k e = (record { tables = k.tables }, e)
  git-Steady s (error f, w) k e = record { tables = k.tables }

  reclaimed-Ready :
      (s : Manager W) (r : Outcome (Unit {0}) × Database)
      → Freed o.workspace o.id [] r
      → r.1.operations ≡ ops
      → Ready o ops (with_tables m r s)
  unfolding with_tables
  reclaimed-Ready s (ok u, db) f e = (f, e)
  reclaimed-Ready s (error g, db) f e = record { tables = f }

  both :
      (rows : List WorkspaceRow)
      → All (λ r. r.id ≡ o.id → r.workspace ≡ o.workspace) ops
      → All (IsFree o.workspace) rows
      → All (λ w. is_journaled ops w ≡ true) rows
      → All (λ w. is_journaled (delete_id o.id ops) w ≡ true) rows
  both [] mine f j = tt
  both (w ∷ rows) mine f j = (
    elim f.0 [
      | inl still ↦ settled-is_journaled (delete_id o.id ops) w still
      | inr other ↦ is_journaled-delete_id w o.workspace o.id ops other mine j.0
    ],
    both rows mine f.1 j.1,
  )

  -- Where the rows of the Workspace are settled, the entry may go.
  free-Ready :
      (s : Manager W)
      → IsKept [] s
      → s.db.operations ≡ ops
      → All (λ r. r.id ≡ o.id → r.workspace ≡ o.workspace) ops
      → All (IsFree o.workspace) s.db.workspaces
      → Ready o ops (ok tt, s)
  free-Ready s k e mine free =
      let rows : All (λ w. is_journaled ops w ≡ true) s.db.workspaces = rw⁻¹ e k.tables.rows in
      ((k.tables, rw e mine, rw e (both s.db.workspaces mine free rows)), e)

clear-operations :
    (sql : Sqlite) (name : Bytes) (db : Database)
    → (clear_tombstones sql name db).1.operations ≡ db.operations
unfolding clear_tombstones execute
clear-operations sql name db = ground arith

duration-operations :
    (sql : Sqlite) (name : Bytes) (us : ℕ) (db : Database)
    → (set_workspace_reclamation_duration sql name us db).1.operations ≡ db.operations
unfolding set_workspace_reclamation_duration execute
duration-operations sql name us db = ground arith

reclaimed-operations :
    (sql : Sqlite) (name : Bytes) (db : Database)
    → (set_workspace_state sql name reclaimed db).1.operations ≡ db.operations
unfolding set_workspace_state execute
reclaimed-operations sql name db = ground arith

active-is_not_removed :
    (r : Option WorkspaceRecord) → is_active_record r ≡ true → is_not_removed r ≡ true
unfolding is_active_record is_not_removed
active-is_not_removed none h = refl
active-is_not_removed (some r) h = h

-- An entry `o` of the journal `ops`, which alone has its identifier.
module _ {W : Type 0} (m : Machine W) (o : RecoveryOperation) (ops : List OperationRow)
    (runs : (m.sql loading).refuses select_workspaces ≡ false)
    (mine : All (λ r. r.id ≡ o.id → r.workspace ≡ o.workspace) ops) where
  abbrev own : (s : Manager W) → s.db.operations ≡ ops → Mine o.workspace o.id [] s.db
  own s e = rw e mine

  free :
      (s : Manager W)
      → IsKept [] s
      → is_not_removed (load_workspace_record (m.sql loading) o.workspace s.db) ≡ true
      → All (IsFree o.workspace) s.db.workspaces
  free s k h =
      load_workspace_record-IsFree o.workspace s.db.operations (m.sql loading) s.db runs
        k.tables.keyed k.tables.rows h

  set_reclaimed-Ready :
      (sql : Sqlite) (s : Manager W)
      → IsKept [] s
      → s.db.operations ≡ ops
      → Ready o ops (with_tables m (set_workspace_state sql o.workspace reclaimed s.db) s)
  set_reclaimed-Ready sql s k e =
      reclaimed-Ready m o ops s (set_workspace_state sql o.workspace reclaimed s.db)
        (reclaimed-Freed o.workspace o.id [] sql s.db k.tables (own s e))
        (reclaimed-operations sql o.workspace s.db ∙ e)

  reclaim_record-Ready :
      (r : Option WorkspaceRecord) (s : Manager W)
      → (r ≡ none → All (IsFree o.workspace) s.db.workspaces)
      → IsKept [] s
      → s.db.operations ≡ ops
      → Ready o ops (reclaim_record m o r s)
  unfolding reclaim_record
  reclaim_record-Ready none s f k e = free-Ready m o ops s k e mine (f refl)
  reclaim_record-Ready (some r) s f k e = set_reclaimed-Ready (m.sql undo_state) s k e

  then_git-Ready :
      (s : Manager W) (r : Outcome (Unit {0}) × W)
      (next : Manager W → Outcome (Unit {0}) × Manager W)
      → IsKept [] s
      → s.db.operations ≡ ops
      → ((t : Manager W) → IsKept [] t → t.db.operations ≡ ops → t.db ≡ s.db → Ready o ops (next t))
      → Ready o ops (then_do m (with_git m r s) next)
  unfolding then_do with_git
  then_git-Ready s (ok u, w) next k e f = f _ (record { tables = k.tables }) e refl
  then_git-Ready s (error g, w) next k e f = record { tables = k.tables }

  validated-Ready :
      (s : Manager W) (r : Outcome (Unit {0}) × W)
      → All (IsFree o.workspace) s.db.workspaces
      → IsKept [] s
      → s.db.operations ≡ ops
      → Ready o ops (with_git m r s)
  unfolding with_git
  validated-Ready s (ok u, w) f k e =
      free-Ready m o ops (record s { git = w }) (record { tables = k.tables }) e mine f
  validated-Ready s (error g, w) f k e = record { tables = k.tables }

  -- `workspace_create`: the record is Active, or what there is of the Workspace goes.
  roll_back_creation-Ready :
      (r : Option WorkspaceRecord) (project : Option ProjectRecord) (s : Manager W)
      → (r ≡ none → All (IsFree o.workspace) s.db.workspaces)
      → IsKept [] s
      → s.db.operations ≡ ops
      → Ready o ops (roll_back_creation m o r project s)
  unfolding roll_back_creation roll_back_git
  roll_back_creation-Ready r none s f k e = k
  roll_back_creation-Ready r (some project) s f k e =
      elim (Bool-cases (m.fault remove_storage == 0)) [
        | inr fails ↦ rw fails k
        | inl fine ↦ rw fine (
            then_git-Ready _ _ _ (record { tables = k.tables }) e
              (λ t k' e' same. reclaim_record-Ready r t (λ h. rw same (f h)) k' e'))
      ]

  pub recover_creation-Steady :
      (s : Manager W)
      → IsKept [] s
      → s.db.operations ≡ ops
      → Steady (delete_id o.id ops) (recover_creation m o s)
  unfolding recover_creation is_not_removed
  recover_creation-Steady s k e =
      let r = load_workspace_record (m.sql loading) o.workspace s.db in
      then_abandon-Steady m o ops _ (elim (Bool-cases (is_active_record r)) [
        | inl live ↦ rw live (validated-Ready s _ (free s k (active-is_not_removed r live)) k e)
        | inr other ↦ rw other (
            roll_back_creation-Ready r (load_project_record s.db) s
              (λ h. free s k (ap is_not_removed h)) k e)
      ])

  -- `workspace_remove`: the removal never took effect, or it is completed.
  clear_removed-Steady :
      (s : Manager W)
      → IsKept [] s
      → s.db.operations ≡ ops
      → Steady (delete_id o.id ops) (clear_removed m o s)
  unfolding clear_removed
  clear_removed-Steady s k e =
      then_do-Steady m o ops _ _ _
        (quiet m o ops s (clear_tombstones (m.sql clearing) o.workspace s.db)
          (clear-Kept o.workspace o.id [] (m.sql clearing) s.db k.tables (own s e)).0
          (clear-operations (m.sql clearing) o.workspace s.db ∙ e))
        λ a ka ea.
          then_do-Steady m o ops _ _ _
            (quiet m o ops a (set_workspace_reclamation_duration (m.sql timing) o.workspace 0 a.db)
              (duration-Kept o.workspace o.id [] (m.sql timing) 0 a.db ka.tables (own a ea)).0
              (duration-operations (m.sql timing) o.workspace 0 a.db ∙ ea))
            λ b kb eb.
              then_abandon-Steady m o ops _ (set_reclaimed-Ready (m.sql reclaiming) b kb eb)

  remove_storage_of-Steady :
      (s : Manager W) → IsKept [] s → s.db.operations ≡ ops → Steady ops (remove_storage_of m o s)
  unfolding remove_storage_of
  remove_storage_of-Steady s k e = elim (Bool-cases (m.fault remove_storage == 0)) [
    | inr fails ↦ rw fails k
    | inl fine ↦ elim (Bool-cases (m.fault sync_workspaces == 0)) [
      | inr fails ↦ rw (fine, fails) (record { tables = k.tables })
      | inl synced ↦ rw (fine, synced) (record { tables = k.tables }, e)
    ]
  ]

  complete_removal-Steady :
      (project : Option ProjectRecord) (s : Manager W)
      → IsKept [] s
      → s.db.operations ≡ ops
      → Steady (delete_id o.id ops) (complete_removal m o project s)
  unfolding complete_removal
  complete_removal-Steady none s k e = k
  complete_removal-Steady (some project) s k e =
      then_do-Steady m o ops _ _ _ (git-Steady m o ops s _ k e) λ a ka ea.
        then_do-Steady m o ops _ _ _ (remove_storage_of-Steady a ka ea) clear_removed-Steady

  pub recover_removal-Steady :
      (s : Manager W)
      → IsKept [] s
      → s.db.operations ≡ ops
      → Steady (delete_id o.id ops) (recover_removal m o s)
  unfolding recover_removal
  recover_removal-Steady s k e =
      let r = load_workspace_record (m.sql loading) o.workspace s.db in
      elim (Bool-cases (is_not_removed r)) [
        | inl live ↦
            rw live
              (abandon_journaled-Steady m o ops s (free-Ready m o ops s k e mine (free s k live)))
        | inr gone ↦ rw gone (complete_removal-Steady (load_project_record s.db) s k e)
      ]
