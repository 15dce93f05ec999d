-- ===== src/Projects/Journaled/Steps.antt =====
-- What each statement of a creation or a removal does to the invariant of `Projects.Journaled`.
use tribios_vfs.Common.{
  ℕ, suc, ◌<◌, true, false, List, [], ◌∷◌, ◌++◌, Bytes, codes, bytes_eq, bytes_eq_refl, All,
  All-append, ◌≡◌, inl, inr, refl, ap, ◌∙◌, arith, Bool-cases,
}
use tribios_vfs.Store.Types.{
  Database, WorkspaceRow, WorkspaceRecord, OperationRow, RecoveryOperation, workspace_state_name,
  reclaimed,
}
use tribios_vfs.Store.Sql.{
  Sqlite, Outcome, ok, error, update_state, delete_operation, save_workspace, insert_operation,
  execute, store_error,
}
use tribios_vfs.Store.Workspaces.{
  replace_row, write_workspace_row, update_rows, save_workspace_record, set_workspace_state,
}
use tribios_vfs.Store.Journal.{
  delete_id, begin_recovery_operation, abandon_recovery_operation, write_operation_row,
}
use tribios_vfs.Projects.Journaled.{
  is_settled, opens, is_journaled, Owns, IsJournaled, IsPending, All-mono, is_journaled-append,
  is_journaled-last, delete_id-last, Distinct-last, All-replace_row, Unique-replace_row,
  Unique-update_rows, All-update_rows,
}

pub settled-is_journaled :
    (ops : List OperationRow) (w : WorkspaceRow) → is_settled w ≡ true → is_journaled ops w ≡ true
unfolding is_journaled
settled-is_journaled ops w h = ground arith

pub active-is_settled : (w : WorkspaceRow) → w.state ≡ codes "active" → is_settled w ≡ true
unfolding is_settled
active-is_settled w h = rw h refl

pub reclaimed-is_settled : (w : WorkspaceRow) → w.state ≡ codes "reclaimed" → is_settled w ≡ true
unfolding is_settled
reclaimed-is_settled w h = rw h refl

-- The journal row is written, unless SQLite refuses.
abbrev pub Begun :
    Bytes
    → Bytes
    → List OperationRow
    → RecoveryOperation
    → List (Bytes × ℕ)
    → Outcome ℕ × Database
    → Type 0
Begun name state ops o rs (error e, db) = Unit
Begun name state ops o rs (ok id, db) = IsPending name state ops (write_operation_row id o) db rs

pub begin-Begun :
    (sql : Sqlite) (name state : Bytes) (o : RecoveryOperation) (db : Database)
    (rs : List (Bytes × ℕ))
    → ((i : ℕ) (w : WorkspaceRow)
        → w.name ≡ name
        → w.state ≡ state
        → opens w (write_operation_row i o) ≡ true)
    → IsJournaled db rs
    → Begun name state db.operations o rs (begin_recovery_operation sql o db)
unfolding begin_recovery_operation write_operation_row
begin-Begun sql name state o db rs opener j = elim (Bool-cases (sql.refuses insert_operation)) [
  | inl refused ↦ rw refused (unfold store_error in tt)
  | inr runs ↦ rw runs (record {
    journal = refl;
    next = omega arith;
    rows = All-mono db.workspaces (λ w h. inl h) j.rows;
    keyed = j.keyed;
    fresh = j.fresh;
    distinct = j.distinct;
    owned = j.owned;
    opener = opener db.next_operation;
  })
]

pub begin-workspaces :
    (sql : Sqlite) (o : RecoveryOperation) (db : Database)
    → (begin_recovery_operation sql o db).1.workspaces ≡ db.workspaces
unfolding begin_recovery_operation
begin-workspaces sql o db = ground arith

-- A crash in the middle leaves the operation in the journal.
pub pending-IsJournaled :
    (name state : Bytes) (ops : List OperationRow) (o : OperationRow) (db : Database)
    (rs : List (Bytes × ℕ))
    → IsPending name state ops o db rs
    → IsJournaled db rs
pending-IsJournaled name state ops o db rs p =
    let grown : (q : Bytes × ℕ) → Owns ops o.id q → Owns (ops ++ o ∷ []) (suc o.id) q = λ q h.
      let below = h.0 in
      (omega arith, All-append _ ops (o ∷ []) h.1 (λ e. absurd (omega (arith, e)), tt)) in
    let fresh : All (λ r. r.id < suc o.id) (ops ++ o ∷ []) =
      All-append _ ops (o ∷ []) (All-mono ops (λ r h. omega arith) p.fresh) (omega arith, tt) in
    let rows : All (λ w. is_journaled (ops ++ o ∷ []) w ≡ true) db.workspaces =
      All-mono db.workspaces
        (λ w h. elim h [
          | inl before ↦ is_journaled-append w ops (o ∷ []) before
          | inr mine ↦ is_journaled-last w ops o (p.opener w mine.0 mine.1)
        ])
        p.rows in
    record {
      fresh = rw (p.journal, p.next) fresh;
      distinct = rw p.journal (Distinct-last ops o p.fresh p.distinct);
      rows = rw p.journal rows;
      keyed = p.keyed;
      owned = rw (p.journal, p.next) (All-mono rs grown p.owned);
    }

-- The journal row goes, or stays where SQLite refuses to delete it.
pub settle-IsJournaled :
    (sql : Sqlite) (name state : Bytes) (ops : List OperationRow) (o : OperationRow) (db : Database)
    (rs : List (Bytes × ℕ))
    → IsPending name state ops o db rs
    → All (λ w. is_journaled ops w ≡ true) db.workspaces
    → IsJournaled (abandon_recovery_operation sql o.id db).1 rs
unfolding abandon_recovery_operation execute
settle-IsJournaled sql name state ops o db rs p rows =
    elim (Bool-cases (sql.refuses delete_operation)) [
      | inl refused ↦ rw refused (pending-IsJournaled name state ops o db rs p)
      | inr runs ↦ rw runs (
          let gone = ap (delete_id o.id) p.journal ∙ delete_id-last ops o p.fresh in
          record {
            fresh = rw (gone, p.next) (All-mono ops (λ r h. omega arith) p.fresh);
            distinct = rw gone p.distinct;
            rows = rw gone rows;
            keyed = p.keyed;
            owned =
                rw (gone, p.next)
                  (All-mono rs (λ q h. let below = h.0 in (omega arith, h.1)) p.owned);
          })
    ]

-- The record of the Workspace is written in the state of the operation, or SQLite refuses.
abbrev pub Stored :
    Bytes
    → Bytes
    → List OperationRow
    → OperationRow
    → List (Bytes × ℕ)
    → Outcome (Unit {0}) × Database
    → Type 0
Stored name state ops o rs (error e, db) = Unit
Stored name state ops o rs (ok u, db) = IsPending name state ops o db rs

pub save-Stored :
    (sql : Sqlite) (name state : Bytes) (ops : List OperationRow) (o : OperationRow) (db : Database)
    (rs : List (Bytes × ℕ)) (r : WorkspaceRecord)
    → r.name ≡ name
    → workspace_state_name r.state ≡ state
    → IsPending name state ops o db rs
    → Stored name state ops o rs (save_workspace_record sql r db)
unfolding save_workspace_record execute write_workspace_row
save-Stored sql name state ops o db rs r named kept p =
    elim (Bool-cases (sql.refuses save_workspace)) [
      | inl refused ↦ rw refused (unfold store_error in tt)
      | inr runs ↦ rw runs (record {
        journal = p.journal;
        next = p.next;
        rows =
            All-replace_row (write_workspace_row r) db.workspaces (inr (named, kept))
              (λ v other h. h) p.rows;
        keyed = Unique-replace_row (write_workspace_row r) db.workspaces p.keyed;
        fresh = p.fresh;
        distinct = p.distinct;
        owned = p.owned;
        opener = p.opener;
      })
    ]

-- The record is written in a settled state, or SQLite refuses.
abbrev pub Settled :
    Bytes
    → Bytes
    → List OperationRow
    → OperationRow
    → List (Bytes × ℕ)
    → Outcome (Unit {0}) × Database
    → Type 0
Settled name state ops o rs (error e, db) = Unit
Settled name state ops o rs (ok u, db) =
    IsPending name state ops o db rs × All (λ w. is_journaled ops w ≡ true) db.workspaces

pub save-Settled :
    (sql : Sqlite) (name state : Bytes) (ops : List OperationRow) (o : OperationRow) (db : Database)
    (rs : List (Bytes × ℕ)) (r : WorkspaceRecord)
    → r.name ≡ name
    → is_settled (write_workspace_row r) ≡ true
    → IsPending name state ops o db rs
    → Settled name state ops o rs (save_workspace_record sql r db)
unfolding save_workspace_record execute write_workspace_row
save-Settled sql name state ops o db rs r named kept p =
    elim (Bool-cases (sql.refuses save_workspace)) [
      | inl refused ↦ rw refused (unfold store_error in tt)
      | inr runs ↦ rw runs (
          let rows : All (λ w. is_journaled ops w ≡ true)
              (replace_row (write_workspace_row r) db.workspaces) =
            All-replace_row (write_workspace_row r) db.workspaces
              (settled-is_journaled ops (write_workspace_row r) kept)
              (λ v other h. elim h [
                | inl before ↦ before
                | inr mine ↦ absurd (
                    cc (
                      other,
                      ap (λ n. bytes_eq n r.name) mine.0,
                      ap (bytes_eq name) named,
                      bytes_eq_refl name,
                    ))
              ])
              p.rows in
          (
            record {
              journal = p.journal;
              next = p.next;
              rows = All-mono _ (λ w h. inl h) rows;
              keyed = Unique-replace_row (write_workspace_row r) db.workspaces p.keyed;
              fresh = p.fresh;
              distinct = p.distinct;
              owned = p.owned;
              opener = p.opener;
            },
            rows,
          ))
    ]

-- The record is marked as reclaimed, by a statement that runs.
pub reclaimed-IsPending :
    (sql : Sqlite) (name state : Bytes) (ops : List OperationRow) (o : OperationRow) (db : Database)
    (rs : List (Bytes × ℕ))
    → sql.refuses update_state ≡ false
    → IsPending name state ops o db rs
    → IsPending name state ops o (set_workspace_state sql name reclaimed db).1 rs
      × All
          (λ w. is_journaled ops w ≡ true)
          (set_workspace_state sql name reclaimed db).1.workspaces
unfolding set_workspace_state execute workspace_state_name
reclaimed-IsPending sql name state ops o db rs runs p = rw runs (
    let rows : All (λ w. is_journaled ops w ≡ true)
        (update_rows (λ v. record v { state = codes "reclaimed" }) name db.workspaces) =
      All-update_rows (λ v. record v { state = codes "reclaimed" }) name db.workspaces
        (λ w e h. settled-is_journaled ops _ (reclaimed-is_settled _ refl))
        (λ w other h. elim h [
          | inl before ↦ before
          | inr mine ↦ absurd (cc (other, ap (λ n. bytes_eq n name) mine.0, bytes_eq_refl name))
        ])
        p.rows in
    (
      record {
        journal = p.journal;
        next = p.next;
        rows = All-mono _ (λ w h. inl h) rows;
        keyed =
            Unique-update_rows (λ v. record v { state = codes "reclaimed" }) name (λ w. refl)
              db.workspaces p.keyed;
        fresh = p.fresh;
        distinct = p.distinct;
        owned = p.owned;
        opener = p.opener;
      },
      rows,
    ))
