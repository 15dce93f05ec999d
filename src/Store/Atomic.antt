-- ===== src/Store/Atomic.antt =====
-- The journal of src/core/metadata_store.cpp: what it stores, and that a finished operation takes
-- effect as one.
use tribios_vfs.Common.{
  append-nil, codes, ℕ, ◌<◌, false, List, [], ◌∷◌, ◌++◌, Bytes, bytes_eq, bytes_eq_iff, none, some,
  if◌then◌else◌, ◌≡◌, true, ◌⊎◌, inl, inr, refl, ap, arith, All, Bool-cases,
}
use tribios_vfs.Store.Types.{
  Database, RecoveryOperation, OperationRow, WorkspaceRecord, WorkspaceRow, WorkspaceState,
  creating, active, removed, reclaimed,
}
use tribios_vfs.Store.Sql.{
  Sqlite, Outcome, ok, error, store_error, bound_text, commit, delete_operation, select_workspaces,
  begin_immediate,
}
use tribios_vfs.Store.Workspaces.{
  write_workspace_row, read_workspace_record, replace_row, find_row, save_workspace_record,
  load_workspace_record,
}
use tribios_vfs.Store.Tombstones.{put_tombstone, drop_tombstones}
use tribios_vfs.Store.Journal.{
  write_operation_row, delete_id, begin_recovery_operation, abandon_recovery_operation,
  end_transaction, finish_recovery_operation,
}

-- The tables after the three statements of a finished operation.
abbrev pub committed : Sqlite → RecoveryOperation → Database → Database
committed sql o db =
    let added =
      if o.add_path_tombstone
      then put_tombstone o.workspace o.path db.tombstones
      else db.tombstones in
    record db {
      tombstones =
          if o.drop_target_tombstones
          then drop_tombstones sql o.workspace o.target added
          else added;
      operations = delete_id o.id db.operations;
    }

-- The ending of a COMMIT that is refused in a transaction that stays open.
abbrev pub IsLeftOpen : Sqlite → Database → Outcome (Unit {0}) × Database → Type 0
IsLeftOpen sql after r =
    (sql.refuses commit ≡ true) × (sql.stays_open ≡ true) × ((m : Bytes) × (r ≡ (error m, after)))

-- A transaction that succeeds has the tables of its statements. Any other leaves the old ones, unless
-- its COMMIT is refused and it stays open.
end_transaction-cases :
    (sql : Sqlite) (before after : Database) (r : Outcome (Unit {0}) × Database)
    → ((u : Unit {0}) → r.0 ≡ ok u → r.1 ≡ after)
    → (end_transaction sql before r ≡ (ok tt, after))
      ⊎ (((m : Bytes) × (end_transaction sql before r ≡ (error m, before)))
          ⊎ IsLeftOpen sql after (end_transaction sql before r))
unfolding end_transaction
end_transaction-cases sql before after (error m, db) h = inr (inl (m, refl))
end_transaction-cases sql before after (ok u, db) h =
    let m = codes "metadata store: " ++ sql.message commit in
    elim (Bool-cases (sql.refuses commit)) [
      | inr e ↦ inl (rw e (ap (λ d. (ok tt, d)) (h u refl)))
      | inl e ↦ elim (Bool-cases sql.stays_open) [
        | inr k ↦ inr (inl (m, unfold store_error in ground (arith, e, k)))
        | inl k ↦ inr (inr (e, k, (m, unfold store_error in ground (arith, e, k, h u refl))))
      ]
    ]

-- Whatever statement SQLite refuses, finishing an operation either reports success and has made all
-- of its changes (the tombstone, the dropped tombstones and the removal of the journal row), or
-- reports an error and has made none; or its COMMIT is refused and SQLite leaves the transaction open:
-- then it reports an error, and the connection sees all of the changes.
pub finish_atomic :
    (sql : Sqlite) (o : RecoveryOperation) (db : Database)
    → (finish_recovery_operation sql o db ≡ (ok tt, committed sql o db))
      ⊎ (((m : Bytes) × (finish_recovery_operation sql o db ≡ (error m, db)))
          ⊎ IsLeftOpen sql (committed sql o db) (finish_recovery_operation sql o db))
unfolding finish_recovery_operation
finish_atomic sql o db = elim (Bool-cases (sql.refuses begin_immediate)) [
  | inl e ↦ inr (inl (codes "metadata store: " ++ sql.message begin_immediate, rw e))
  | inr e ↦ rw e (end_transaction-cases sql db (committed sql o db) _ (λ u h. ground arith))
]

pub delete_id-fresh :
    (id : ℕ) (rows : List OperationRow) → All (λ r. r.id < id) rows → delete_id id rows ≡ rows
unfolding delete_id
delete_id-fresh id [] h = refl
delete_id-fresh id (r ∷ rows) h = ground (arith, delete_id-fresh id rows h.1)

pub delete_id-append :
    (id : ℕ) (xs ys : List OperationRow)
    → delete_id id (xs ++ ys) ≡ delete_id id xs ++ delete_id id ys
unfolding delete_id
delete_id-append id [] ys = refl
delete_id-append id (r ∷ xs) ys = ground (arith, delete_id-append id xs ys)

-- A record is read back from its row, with the branch that was bound.
pub read-write_workspace_row :
    (r : WorkspaceRecord)
    → read_workspace_record (write_workspace_row r)
      ≡ some (record r { branch = bound_text r.branch })
unfolding read_workspace_record write_workspace_row
read-write_workspace_row r = go r.state refl
  where
    go :
        (s : WorkspaceState)
        → r.state ≡ s
        → read_workspace_record (write_workspace_row r)
          ≡ some (record r { branch = bound_text r.branch })
    go creating e = ground arith
    go active e = ground arith
    go removed e = ground arith
    go reclaimed e = ground arith

find_row-replace_row :
    (w : WorkspaceRow) (name : Bytes) (rows : List WorkspaceRow)
    → find_row name (replace_row w rows)
      ≡ (if bytes_eq w.name name then some w else find_row name rows)
unfolding find_row replace_row
find_row-replace_row w name [] = refl
find_row-replace_row w name (v ∷ rows) = ground (
  arith,
  find_row-replace_row w name rows,
  bytes_eq_iff v.name w.name,
  bytes_eq_iff w.name name,
  bytes_eq_iff v.name name,
)

-- For names without a zero byte: after a record is saved without an error it is loaded under its name,
-- with its branch up to the first zero byte, and every other name loads what it did before, unless
-- SQLite refuses the SELECT: then nothing is loaded.
pub load-save_workspace_record :
    (sql : Sqlite) (r : WorkspaceRecord) (name : Bytes) (db : Database)
    → bound_text r.name ≡ r.name
    → bound_text name ≡ name
    → (save_workspace_record sql r db).0 ≡ ok tt
    → load_workspace_record sql name (save_workspace_record sql r db).1 ≡ (
        if sql.refuses select_workspaces
        then none
        else if bytes_eq r.name name
        then some (record r { branch = bound_text r.branch })
        else load_workspace_record sql name db)
unfolding load_workspace_record write_workspace_row
load-save_workspace_record sql r name db whole whole' h =
    let saved : (save_workspace_record sql r db).1
        ≡ record db { workspaces = replace_row (write_workspace_row r) db.workspaces } =
      unfold save_workspace_record in ground arith in
    elim (Bool-cases (sql.refuses select_workspaces)) [
      | inl e ↦ rw e
      | inr e ↦
          rw (e, saved, find_row-replace_row (write_workspace_row r) name db.workspaces)
            (elim (Bool-cases (bytes_eq r.name name)) [
              | inl k ↦ rw k (read-write_workspace_row r)
              | inr k ↦ rw k
            ])
    ]

-- If the ids of the journal are below the next one, and SQLite runs the INSERT and the DELETE, an
-- operation that is begun and then abandoned leaves the journal as it was.
pub abandon-begin :
    (sql : Sqlite) (o : RecoveryOperation) (db : Database)
    → All (λ r. r.id < db.next_operation) db.operations
    → (begin_recovery_operation sql o db).0 ≡ ok db.next_operation
    → sql.refuses delete_operation ≡ false
    → (abandon_recovery_operation sql db.next_operation
        (begin_recovery_operation sql o db).1).1.operations
      ≡ db.operations
unfolding begin_recovery_operation abandon_recovery_operation
abandon-begin sql o db fresh begun runs = ground (
  arith,
  delete_id-append db.next_operation db.operations (write_operation_row db.next_operation o ∷ []),
  delete_id-fresh db.next_operation db.operations fresh,
  append-nil db.operations,
)
