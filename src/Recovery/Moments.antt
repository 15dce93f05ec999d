-- ===== src/Recovery/Moments.antt =====
-- The moments at which a crash can strike `publish_staged_operation` (src/core/workspace_engine.cpp) and the
-- storage that it leaves for `recover_interrupted_operations` (src/core/recovery.cpp).
use tribios_vfs.Common.{
  Bool, if◌then◌else◌, ℕ, ◌<◌, List, [], ◌∷◌, Bytes, append-nil, ◌≡◌, refl, arith, All,
}
use tribios_vfs.Store.Types.{
  Database, RecoveryOperation, RecoveryPhase, prepared, publishing, OperationRow,
  recovery_phase_name,
}
use tribios_vfs.Store.Sql.{Sqlite}
use tribios_vfs.Store.Journal.{
  begin_recovery_operation, set_recovery_operation_phase, write_operation_row, set_phases,
  delete_id,
}
use tribios_vfs.Store.Atomic.{committed, delete_id-append, delete_id-fresh}
use tribios_vfs.Engine.Host.{Tree, lstat, renamed}
use tribios_vfs.Engine.Publish.{drop_stage, put_stage, destination_of, is_rename}
use tribios_vfs.Engine.Outcomes.{published_tree}
use tribios_vfs.Recovery.{Storage}
use tribios_vfs.Recovery.Thinned.{thinned}

-- The moments at which the process may die, after the journal row is written: before or while the
-- entry is staged (with whatever part of it is there), when the phase is `publishing`, after the
-- rename, while the source of a rename is removed (with any part of what is beneath it left), and after
-- it. An operation that is being abandoned after its phase was `publishing` is not among them.
pub data Moment : Type 0 where
  journaled : Moment
  staging : Tree → Moment
  phased : Moment
  published : Moment
  removing_source : (Bytes → Bool) → Moment
  source_removed : Moment

abbrev pub phase_at : Moment → RecoveryPhase
phase_at journaled = prepared
phase_at (staging t) = prepared
phase_at _ = publishing

-- The operation as the journal has it at that moment.
abbrev pub journal_entry : RecoveryOperation → Database → Moment → RecoveryOperation
journal_entry o db m = record o { id = db.next_operation; phase = phase_at m }

abbrev pub begun_db : Sqlite → RecoveryOperation → Database → Database
begun_db sql o db = (begin_recovery_operation sql o db).1

abbrev pub phased_db : Sqlite → RecoveryOperation → Database → Database
phased_db sql o db =
    (set_recovery_operation_phase sql db.next_operation publishing (begun_db sql o db)).1

-- The storage that the crash leaves.
unfoldable pub crash_state : Sqlite → RecoveryOperation → Tree → Storage → Moment → Storage
crash_state sql o stage s journaled = record s { db = begun_db sql o s.db }
crash_state sql o stage s (staging t) = record s {
  stages = put_stage s.db.next_operation t s.stages;
  db = begun_db sql o s.db;
}
crash_state sql o stage s phased = record s {
  stages = put_stage s.db.next_operation stage s.stages;
  db = phased_db sql o s.db;
}
crash_state sql o stage s published = record s {
  upper = renamed stage s.upper (destination_of o);
  stages = drop_stage s.db.next_operation s.stages;
  db = phased_db sql o s.db;
}
crash_state sql o stage s (removing_source keep) =
    let there = renamed stage s.upper (destination_of o) in
    record s {
      upper = if is_rename o then thinned keep o.path there else there;
      stages = drop_stage s.db.next_operation s.stages;
      db = phased_db sql o s.db;
    }
crash_state sql o stage s source_removed = record s {
  upper = published_tree o stage s.upper;
  stages = drop_stage s.db.next_operation s.stages;
  db = phased_db sql o s.db;
}

-- The ids of the journal were given out before.
abbrev pub IsFresh : Database → Type 0
IsFresh db = All (λ r. r.id < db.next_operation) db.operations

-- The journal differs from the old one in rows of the operation alone.
pub record IsJournaled (id : ℕ) (db d : Database) : Type 0 where
  pub tombstones : d.tombstones ≡ db.tombstones
  pub operations : delete_id id d.operations ≡ db.operations

delete_id-row : (id : ℕ) (o : RecoveryOperation) → delete_id id (write_operation_row id o ∷ []) ≡ []
unfolding delete_id write_operation_row
delete_id-row id o = ground arith

pub begun-IsJournaled :
    (sql : Sqlite) (o : RecoveryOperation) (db : Database)
    → IsFresh db
    → IsJournaled db.next_operation db (begun_db sql o db)
begun-IsJournaled sql o db fresh = record {
  tombstones = unfold begin_recovery_operation in ground arith;
  operations =
      unfold begin_recovery_operation in
      ground (
        arith,
        delete_id-append db.next_operation db.operations
            (write_operation_row db.next_operation o ∷ []),
        delete_id-fresh db.next_operation db.operations fresh,
        append-nil db.operations,
        delete_id-row db.next_operation o,
      );
}

delete_id-set_phases :
    (id : ℕ) (phase : Bytes) (rows : List OperationRow)
    → delete_id id (set_phases id phase rows) ≡ delete_id id rows
unfolding delete_id set_phases
delete_id-set_phases id phase [] = refl
delete_id-set_phases id phase (r ∷ rows) = ground (arith, delete_id-set_phases id phase rows)

pub phased-IsJournaled :
    (sql : Sqlite) (o : RecoveryOperation) (db : Database)
    → IsFresh db
    → IsJournaled db.next_operation db (phased_db sql o db)
unfolding set_recovery_operation_phase
phased-IsJournaled sql o db fresh =
    let b = begun-IsJournaled sql o db fresh in go (begun_db sql o db) b.tombstones b.operations
  where
    go :
        (d : Database)
        → d.tombstones ≡ db.tombstones
        → delete_id db.next_operation d.operations ≡ db.operations
        → IsJournaled db.next_operation db
            (set_recovery_operation_phase sql db.next_operation publishing d).1
    go d t e = record {
      tombstones = ground arith;
      operations = ground (
        arith,
        delete_id-set_phases db.next_operation (recovery_phase_name publishing) d.operations,
      );
    }

-- The end of an operation that recovery completes: the upper tree shows what a completed operation
-- shows, and the tables have its tombstones and none of its journal.
pub record IsCompleted (sql : Sqlite) (o : RecoveryOperation) (stage : Tree) (s r : Storage)
    : Type 0 where
  pub upper : (q : Bytes) → lstat r.upper q ≡ lstat (published_tree o stage s.upper) q
  pub tombstones : r.db.tombstones ≡ (committed sql o s.db).tombstones
  pub operations : r.db.operations ≡ s.db.operations

-- The end of an operation that recovery undoes.
pub record IsUndone (s r : Storage) : Type 0 where
  pub upper : r.upper ≡ s.upper
  pub tombstones : r.db.tombstones ≡ s.db.tombstones
  pub operations : r.db.operations ≡ s.db.operations
