-- ===== src/Store/Journal.antt =====
-- The journal of recovery operations, and the diagnostics, of src/core/metadata_store.cpp.
use tribios_vfs.Common.{
  ℕ, ◌+◌, List, [], ◌∷◌, ◌++◌, Bytes, codes, bytes_eq, Option, none, some, map, ◌==◌, if◌then◌else◌,
}
use tribios_vfs.Store.Types.{
  Database, RecoveryOperation, RecoveryPhase, OperationRow, RecoveryDiagnostic, recovery_phase_name,
  parse_recovery_phase,
}
use tribios_vfs.Store.Sql.{
  Sqlite, Outcome, ok, error, insert_operation, update_phase, delete_operation, insert_tombstone,
  delete_tombstones, select_operations, begin_immediate, commit, insert_diagnostic,
  select_diagnostic, execute, store_error, stepped,
}
use tribios_vfs.Store.Tombstones.{put_tombstone, drop_tombstones}

-- Texts without a zero byte, as the paths and kinds of the engine are; another would be cut there.
unfoldable pub write_operation_row : ℕ → RecoveryOperation → OperationRow
unfolding recovery_phase_name
write_operation_row id o = record {
  id = id;
  workspace = o.workspace;
  kind = o.kind;
  path = o.path;
  target = o.target;
  phase = recovery_phase_name o.phase;
  add_path_tombstone = o.add_path_tombstone;
  drop_target_tombstones = o.drop_target_tombstones;
}

unfoldable pub begin_recovery_operation :
    Sqlite → RecoveryOperation → Database → Outcome ℕ × Database
unfolding store_error write_operation_row
begin_recovery_operation sql o db =
    if sql.refuses insert_operation then (store_error sql insert_operation, db) else (
      ok db.next_operation,
      record db {
        operations = db.operations ++ write_operation_row db.next_operation o ∷ [];
        next_operation = db.next_operation + 1;
      },
    )

unfoldable pub set_phases : ℕ → Bytes → List OperationRow → List OperationRow
set_phases id phase = map (λ r. if r.id == id then record r { phase = phase } else r)

unfoldable pub set_recovery_operation_phase :
    Sqlite → ℕ → RecoveryPhase → Database → Outcome (Unit {0}) × Database
unfolding execute set_phases recovery_phase_name
set_recovery_operation_phase sql id phase =
    execute sql update_phase
      (λ db. record db { operations = set_phases id (recovery_phase_name phase) db.operations })

unfoldable pub delete_id : ℕ → List OperationRow → List OperationRow
delete_id id [] = []
delete_id id (r ∷ rows) = let rest = delete_id id rows in if r.id == id then rest else r ∷ rest

unfoldable pub abandon_recovery_operation : Sqlite → ℕ → Database → Outcome (Unit {0}) × Database
unfolding execute delete_id
abandon_recovery_operation sql id =
    execute sql delete_operation (λ db. record db { operations = delete_id id db.operations })

-- The statements between BEGIN and COMMIT: each runs only if those before it did.
unfoldable pub and_then :
    Outcome (Unit {0}) × Database
    → (Database → Outcome (Unit {0}) × Database)
    → Outcome (Unit {0}) × Database
and_then (ok _, db) next = next db
and_then (error m, db) next = (error m, db)

-- ROLLBACK restores the tables. The source does not roll back after a COMMIT that is refused, so the
-- changes stay where SQLite has left the transaction open.
unfoldable pub end_transaction :
    Sqlite → Database → Outcome (Unit {0}) × Database → Outcome (Unit {0}) × Database
unfolding store_error
end_transaction sql before (error m, db) = (error m, before)
end_transaction sql before (ok _, db) =
    if sql.refuses commit
    then (store_error sql commit, if sql.stays_open then db else before)
    else (ok tt, db)

unfoldable pub finish_recovery_operation :
    Sqlite → RecoveryOperation → Database → Outcome (Unit {0}) × Database
unfolding execute and_then end_transaction put_tombstone drop_tombstones delete_id store_error
finish_recovery_operation sql o db =
    let added : Outcome (Unit {0}) × Database =
      if o.add_path_tombstone
      then execute sql insert_tombstone
          (λ d. record d { tombstones = put_tombstone o.workspace o.path d.tombstones }) db
      else (ok tt, db) in
    let dropped : Outcome (Unit {0}) × Database = and_then added λ d.
      if o.drop_target_tombstones
      then execute sql delete_tombstones
          (λ e. record e { tombstones = drop_tombstones sql o.workspace o.target e.tombstones }) d
      else (ok tt, d) in
    let deleted : Outcome (Unit {0}) × Database =
      and_then dropped (
        execute sql delete_operation
          (λ d. record d { operations = delete_id o.id d.operations })) in
    if sql.refuses begin_immediate
    then (store_error sql begin_immediate, db)
    else end_transaction sql db deleted

unfoldable pub with_phase : OperationRow → Option RecoveryPhase → Outcome RecoveryOperation
with_phase r none = error (codes "metadata store: recovery operation has an invalid phase")
with_phase r (some phase) = ok (record {
  id = r.id;
  workspace = r.workspace;
  kind = r.kind;
  path = r.path;
  target = r.target;
  phase = phase;
  add_path_tombstone = r.add_path_tombstone;
  drop_target_tombstones = r.drop_target_tombstones;
})

unfoldable pub read_operation_row : OperationRow → Outcome RecoveryOperation
unfolding with_phase parse_recovery_phase
read_operation_row r = with_phase r (parse_recovery_phase r.phase)

unfoldable pub cons_operation :
    Outcome RecoveryOperation → Outcome (List RecoveryOperation) → Outcome (List RecoveryOperation)
cons_operation (error m) rest = error m
cons_operation (ok o) (error m) = error m
cons_operation (ok o) (ok os) = ok (o ∷ os)

-- The rows come in the order of their ids, in which they were inserted.
unfoldable pub read_operation_rows : List OperationRow → Outcome (List RecoveryOperation)
unfolding cons_operation read_operation_row
read_operation_rows [] = ok []
read_operation_rows (r ∷ rows) = cons_operation (read_operation_row r) (read_operation_rows rows)

-- A step that fails ends the loop, and the rows before it are a success.
unfoldable pub load_recovery_operations : Sqlite → Database → Outcome (List RecoveryOperation)
unfolding read_operation_rows store_error stepped
load_recovery_operations sql db =
    if sql.refuses select_operations
    then store_error sql select_operations
    else read_operation_rows (stepped (sql.rows_read select_operations) db.operations)

unfoldable pub find_message : Bytes → List RecoveryDiagnostic → Option ℕ
unfolding bytes_eq
find_message message [] = none
find_message message (d ∷ rows) =
    if bytes_eq d.message message then some d.id else find_message message rows

-- INSERT OR IGNORE: `message` is UNIQUE.
unfoldable pub put_diagnostic : Sqlite → Bytes → Bytes → Database → Option ℕ → Database
put_diagnostic sql project message db (some id) = db
put_diagnostic sql project message db none = record db {
  diagnostics =
      db.diagnostics
      ++ record {
        id = db.next_diagnostic;
        created_at = sql.now;
        project = project;
        message = message;
      }
        ∷ [];
  next_diagnostic = db.next_diagnostic + 1;
}

unfoldable pub found_id : Sqlite → Option ℕ → Outcome ℕ
unfolding store_error
found_id sql none = store_error sql select_diagnostic
found_id sql (some id) = ok id

unfoldable pub record_recovery_diagnostic : Sqlite → Bytes → Bytes → Database → Outcome ℕ × Database
unfolding store_error put_diagnostic find_message found_id
record_recovery_diagnostic sql project message db =
    let after = put_diagnostic sql project message db (find_message message db.diagnostics) in
    if sql.refuses insert_diagnostic
    then (store_error sql insert_diagnostic, db)
    else if sql.refuses select_diagnostic
    then (store_error sql select_diagnostic, after)
    else (found_id sql (find_message message after.diagnostics), after)
