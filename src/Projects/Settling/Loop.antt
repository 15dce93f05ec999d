-- ===== src/Projects/Settling/Loop.antt =====
-- The loop over the journal at startup: `recover_interrupted_operations` of src/core/recovery.cpp.
use tribios_vfs.Common.{
  ℕ, true, false, List, [], ◌∷◌, codes, bytes_eq, Option, none, some, All, ◌==◌, ◌≡◌, ◌≢◌, inl, inr,
  refl, sym, ap, ◌∙◌, arith, Bool-cases,
}
use tribios_vfs.Store.Types.{
  Database, WorkspaceRow, OperationRow, RecoveryOperation, RecoveryPhase, parse_recovery_phase,
}
use tribios_vfs.Store.Sql.{
  Outcome, ok, error, select_workspaces, select_operations, store_error, stepped,
}
use tribios_vfs.Store.Journal.{
  delete_id, with_phase, read_operation_row, cons_operation, read_operation_rows,
  load_recovery_operations,
}
use tribios_vfs.Engine.Host.{Host}
use tribios_vfs.Recovery.{Storage, recover_operation}
use tribios_vfs.Projects.State.{
  Manager, Machine, WorkspaceDir, find_dir, loading, remove_staging, sync_staging,
}
use tribios_vfs.Projects.Startup.{
  storage_of, with_storage, then_do, recover_one, recover_each, clear_recovery_dirs, remake_staging,
  recover_loaded, recover_interrupted_operations,
}
use tribios_vfs.Projects.Journaled.{
  is_settled, opens, is_open, is_journaled, Distinct, IsJournaled, All-mono,
}
use tribios_vfs.Projects.Journaled.Reclamation.{
  IsKept, is_journaled-kept, All-delete_id, Distinct-delete_id,
}
use tribios_vfs.Projects.Settling.Entries.{
  Steady, then_do-Steady, recover_creation-Steady, recover_removal-Steady,
}
use tribios_vfs.Projects.Settling.Engines.{IsDeleted, Tabled, recover_operation-Tabled}

-- The operation that a journal row reads as.
pub record IsReading (r : OperationRow) (o : RecoveryOperation) : Type 0 where
  pub id : o.id ≡ r.id
  pub workspace : o.workspace ≡ r.workspace
  pub kind : o.kind ≡ r.kind

abbrev pub Readings : List OperationRow → List RecoveryOperation → Type 0
Readings [] [] = Unit
Readings (r ∷ rows) (o ∷ os) = IsReading r o × Readings rows os
Readings _ _ = ⊥

abbrev ReadAs : List OperationRow → Outcome (List RecoveryOperation) → Type 0
ReadAs rows (ok os) = Readings rows os
ReadAs rows (error e) = Unit

abbrev ReadsOne : OperationRow → Outcome RecoveryOperation → Type 0
ReadsOne r (ok o) = IsReading r o
ReadsOne r (error e) = Unit

with_phase-ReadsOne : (r : OperationRow) (p : Option RecoveryPhase) → ReadsOne r (with_phase r p)
unfolding with_phase
with_phase-ReadsOne r none = tt
with_phase-ReadsOne r (some p) = record { id = refl; workspace = refl; kind = refl }

cons_operation-ReadAs :
    (r : OperationRow) (rows : List OperationRow) (o : Outcome RecoveryOperation)
    (os : Outcome (List RecoveryOperation))
    → ReadsOne r o
    → ReadAs rows os
    → ReadAs (r ∷ rows) (cons_operation o os)
unfolding cons_operation
cons_operation-ReadAs r rows (error e) os h hs = tt
cons_operation-ReadAs r rows (ok o) (error e) h hs = tt
cons_operation-ReadAs r rows (ok o) (ok os) h hs = (h, hs)

read_operation_rows-ReadAs : (rows : List OperationRow) → ReadAs rows (read_operation_rows rows)
unfolding read_operation_rows read_operation_row
read_operation_rows-ReadAs [] = tt
read_operation_rows-ReadAs (r ∷ rows) =
    cons_operation-ReadAs r rows _ _ (with_phase-ReadsOne r (parse_recovery_phase r.phase))
      (read_operation_rows-ReadAs rows)

-- The first row alone has its identifier.
delete_id-absent :
    (id : ℕ) (rows : List OperationRow) → All (λ q. q.id ≢ id) rows → delete_id id rows ≡ rows
unfolding delete_id
delete_id-absent id [] h = refl
delete_id-absent id (r ∷ rows) h =
    let other = h.0 in let rest = delete_id-absent id rows h.1 in ground arith

delete_id-first :
    (id : ℕ) (r : OperationRow) (rows : List OperationRow)
    → id ≡ r.id
    → All (λ q. q.id ≢ r.id) rows
    → delete_id id (r ∷ rows) ≡ rows
unfolding delete_id
delete_id-first id r rows e h =
    let rest : delete_id id rows ≡ rows = rw e (delete_id-absent r.id rows h) in ground arith

first-mine :
    (r : OperationRow) (rows : List OperationRow) (o : RecoveryOperation)
    → IsReading r o
    → All (λ q. q.id ≢ r.id) rows
    → All (λ q. q.id ≡ o.id → q.workspace ≡ o.workspace) (r ∷ rows)
first-mine r rows o read h =
    ((λ e. sym read.workspace), All-mono rows (λ q other e. absurd (other (e ∙ read.id))) h)

Distinct-eq : (ops ops' : List OperationRow) → ops ≡ ops' → Distinct ops → Distinct ops'
Distinct-eq ops ops' e d = rw⁻¹ e d

opens-kind :
    (w : WorkspaceRow) (r : OperationRow)
    → bytes_eq r.kind (codes "workspace_create") ≡ false
    → bytes_eq r.kind (codes "workspace_remove") ≡ false
    → opens w r ≡ false
unfolding opens
opens-kind w r create remove = ground arith

-- An entry of an engine opens no record.
deleted-IsJournaled :
    (o : RecoveryOperation) (db after : Database)
    → ((w : WorkspaceRow) → All (λ q. q.id ≡ o.id → opens w q ≡ false) db.operations)
    → IsJournaled db []
    → IsDeleted o db after
    → IsJournaled after []
deleted-IsJournaled o db after foreign j d =
    let rows : All (λ w. is_journaled (delete_id o.id db.operations) w ≡ true) db.workspaces =
      All-mono db.workspaces (λ w h. is_journaled-kept w o.id db.operations (foreign w) h) j.rows in
    record {
      fresh = rw (d.operations, d.next) (All-delete_id _ o.id db.operations j.fresh);
      distinct = rw d.operations (Distinct-delete_id o.id db.operations j.distinct);
      rows = rw (d.operations, d.workspaces) rows;
      keyed = rw d.workspaces j.keyed;
      owned = tt;
    }

engine-Tabled :
    (h : Host) (o : RecoveryOperation) (d : Option WorkspaceDir) (db : Database)
    → Tabled o db (recover_operation h o (storage_of d db))
unfolding storage_of
engine-Tabled h o none db = recover_operation-Tabled h o _
engine-Tabled h o (some d) db = recover_operation-Tabled h o _

-- What startup leaves.
abbrev pub Recovered : {W : Type 0} → Outcome (Unit {0}) × Manager W → Type 0
Recovered (ok u, s) = (s.db.operations ≡ []) × All (λ w. is_settled w ≡ true) s.db.workspaces
Recovered (error e, s) = IsKept [] s

settled-rows :
    (rows : List WorkspaceRow)
    → All (λ w. is_journaled [] w ≡ true) rows
    → All (λ w. is_settled w ≡ true) rows
unfolding is_journaled is_open
settled-rows rows h = All-mono rows (λ w j. ground (arith, j)) h

ending : {W : Type 0} (r : Outcome (Unit {0}) × Manager W) → Steady [] r → Recovered r
ending (error e, s) h = h
ending (ok u, s) h = (h.1, settled-rows s.db.workspaces (rw⁻¹ h.1 h.0.tables.rows))

module _ {W : Type 0} (m : Machine W) where
  with_storage-Steady :
      (o : RecoveryOperation) (ops : List OperationRow) (s : Manager W)
      (r : Outcome (Unit {0}) × Storage)
      → ((w : WorkspaceRow) → All (λ q. q.id ≡ o.id → opens w q ≡ false) ops)
      → IsKept [] s
      → s.db.operations ≡ ops
      → Tabled o s.db r
      → Steady (delete_id o.id ops) (with_storage m o.workspace r s)
  unfolding with_storage
  with_storage-Steady o ops s (error e, t) foreign k same (inl h) = record {
    tables = rw h k.tables;
  }
  with_storage-Steady o ops s (error e, t) foreign k same (inr h) = record {
    tables = deleted-IsJournaled o s.db t.db (λ w. rw same (foreign w)) k.tables h;
  }
  with_storage-Steady o ops s (ok u, t) foreign k same h = (
    record { tables = deleted-IsJournaled o s.db t.db (λ w. rw same (foreign w)) k.tables h },
    h.operations ∙ ap (delete_id o.id) same,
  )

  module _ (runs : (m.sql loading).refuses select_workspaces ≡ false)
      (reads_all : (m.sql loading).rows_read select_operations ≡ none) where
    recover_one-Steady :
        (r : OperationRow) (rows : List OperationRow) (o : RecoveryOperation) (s : Manager W)
        → IsReading r o
        → All (λ q. q.id ≢ r.id) rows
        → IsKept [] s
        → s.db.operations ≡ r ∷ rows
        → Steady (delete_id o.id (r ∷ rows)) (recover_one m o s)
    unfolding recover_one
    recover_one-Steady r rows o s read others k e =
        let mine = first-mine r rows o read others in
        elim (Bool-cases (bytes_eq o.kind (codes "workspace_create"))) [
          | inl create ↦ rw create (recover_creation-Steady m o (r ∷ rows) runs mine s k e)
          | inr nc ↦ elim (Bool-cases (bytes_eq o.kind (codes "workspace_remove"))) [
            | inl remove ↦ rw (nc, remove) (recover_removal-Steady m o (r ∷ rows) runs mine s k e)
            | inr nr ↦
                rw (nc, nr)
                  (with_storage-Steady o (r ∷ rows) s _
                    (λ w. (
                      (λ i. opens-kind w r (rw⁻¹ read.kind nc) (rw⁻¹ read.kind nr)),
                      All-mono rows (λ q other i. absurd (other (i ∙ read.id))) others,
                    ))
                    k e (engine-Tabled m.host o (find_dir o.workspace s.dirs) s.db))
          ]
        ]

    recover_each-Steady :
        (rows : List OperationRow) (os : List RecoveryOperation) (s : Manager W)
        → Readings rows os
        → IsKept [] s
        → s.db.operations ≡ rows
        → Steady [] (recover_each m os s)
    unfolding recover_each
    recover_each-Steady [] [] s h k e = (k, e)
    recover_each-Steady [] (o ∷ os) s h k e = absurd h
    recover_each-Steady (r ∷ rows) [] s h k e = absurd h
    recover_each-Steady (r ∷ rows) (o ∷ os) s h k e =
        let distinct : Distinct (r ∷ rows) =
          Distinct-eq s.db.operations (r ∷ rows) e k.tables.distinct in
        then_do-Steady m o _ [] _ _ (recover_one-Steady r rows o s h.0 distinct.0 k e) (λ t kt et.
          recover_each-Steady rows os t h.1 kt (et ∙ delete_id-first o.id r rows h.0.id distinct.0))

    remake_staging-Steady :
        (s : Manager W) → IsKept [] s → s.db.operations ≡ [] → Steady [] (remake_staging m s)
    unfolding remake_staging
    remake_staging-Steady s k e = elim (Bool-cases (m.fault remove_staging == 0)) [
      | inr fails ↦ rw fails k
      | inl fine ↦ elim (Bool-cases (m.fault sync_staging == 0)) [
        | inr fails ↦ rw (fine, fails) (record { tables = k.tables })
        | inl synced ↦ rw (fine, synced) (record { tables = k.tables }, e)
      ]
    ]

    finish :
        (r : Outcome (Unit {0}) × Manager W)
        → Steady [] r
        → Steady []
            (then_do m r (λ t. remake_staging m (record t { dirs = clear_recovery_dirs m t.dirs })))
    unfolding then_do
    finish (error e, t) h = h
    finish (ok u, t) h = remake_staging-Steady _ (record { tables = h.0.tables }) h.1

    recover_loaded-Steady :
        (s : Manager W) (os : Outcome (List RecoveryOperation))
        → ReadAs s.db.operations os
        → IsKept [] s
        → Steady [] (recover_loaded m os s)
    unfolding recover_loaded
    recover_loaded-Steady s (error e) h k = k
    recover_loaded-Steady s (ok os) h k =
        finish _ (recover_each-Steady s.db.operations os s h k refl)

    recover-Steady : (s : Manager W) → IsKept [] s → Steady [] (recover_interrupted_operations m s)
    unfolding recover_interrupted_operations load_recovery_operations stepped
    recover-Steady s k = elim (Bool-cases ((m.sql loading).refuses select_operations)) [
      | inl refused ↦ rw refused (unfold store_error recover_loaded in k)
      | inr reads ↦
          rw (reads, reads_all)
            (recover_loaded-Steady s (read_operation_rows s.db.operations)
              (read_operation_rows-ReadAs s.db.operations) k)
    ]

    -- Tables in which every record is Active, Reclaimed or has its operation in the journal come out
    -- of `recover_interrupted_operations` with an empty journal and every record Active or Reclaimed,
    -- where it succeeds; where it stops at an error, they can still be recovered. Two things are
    -- assumed of SQLite: it answers the query for a record (the source reads a failed query as a
    -- missing record), and the query for the journal, where it starts, gives all rows (the source takes
    -- the rows before a step that fails for the whole journal).
    pub recover_interrupted_operations-Recovered :
        (s : Manager W) → IsKept [] s → Recovered (recover_interrupted_operations m s)
    recover_interrupted_operations-Recovered s k = ending _ (recover-Steady s k)
