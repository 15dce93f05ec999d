-- ===== src/Projects/Settling/Engines.antt =====
-- What recovery of an engine's operation does to the tables: `recover_interrupted_operations` of
-- src/core/recovery.cpp.
use tribios_vfs.Common.{
  ◌⊎◌, ℕ, Bytes, Option, none, some, ◌==◌, ◌≡◌, refl, ◌∙◌, arith, Bool-cases, inl, inr,
}
use tribios_vfs.Store.Types.{Database, RecoveryOperation, RecoveryPhase, prepared, publishing}
use tribios_vfs.Store.Sql.{Outcome, ok, error, delete_operation, execute, store_error}
use tribios_vfs.Store.Journal.{delete_id, abandon_recovery_operation, finish_recovery_operation}
use tribios_vfs.Store.Atomic.{finish_atomic}
use tribios_vfs.Engine.Host.{Tree, Host, source_remove}
use tribios_vfs.Engine.Publish.{destination_of}
use tribios_vfs.Recovery.{
  Storage, is_safe, is_known, is_removal, refused, remove_upper_entry, publish_staged_entry,
  remove_source, apply_again, with_db, commit_recovered, recover_phase, recover_operation,
}

-- The tables after a recovered operation: its journal row is gone, or after an error nothing changed,
-- or it is gone in a transaction that stays open.
pub record IsDeleted (o : RecoveryOperation) (before after : Database) : Type 0 where
  pub workspaces : after.workspaces ≡ before.workspaces
  pub next : after.next_operation ≡ before.next_operation
  pub operations : after.operations ≡ delete_id o.id before.operations

abbrev pub Left : RecoveryOperation → Database → Outcome (Unit {0}) × Database → Type 0
Left o db (ok u, after) = IsDeleted o db after
Left o db (error e, after) = (after ≡ db) ⊎ IsDeleted o db after

abbrev pub Tabled : RecoveryOperation → Database → Outcome (Unit {0}) × Storage → Type 0
Tabled o db (r, t) = Left o db (r, t.db)

remove_upper_entry-db :
    (h : Host) (path : Bytes) (s : Storage) → (remove_upper_entry h path s).1.db ≡ s.db
unfolding remove_upper_entry refused
remove_upper_entry-db h path s = ground arith

publish_staged_entry-db :
    (h : Host) (id : ℕ) (stage : Option Tree) (to : Bytes) (s : Storage)
    → (publish_staged_entry h id stage to s).1.db ≡ s.db
unfolding publish_staged_entry refused
publish_staged_entry-db h id none to s = ground arith
publish_staged_entry-db h id (some t) to s = ground arith

remove_source-db :
    (h : Host) (o : RecoveryOperation) (r : Outcome (Unit {0}) × Storage)
    → (remove_source h o r).1.db ≡ r.1.db
unfolding remove_source
remove_source-db h o (error e, s) = refl
remove_source-db h o (ok u, s) = ground (arith, remove_upper_entry-db h o.path s)

apply_again-db : (h : Host) (o : RecoveryOperation) (s : Storage) → (apply_again h o s).1.db ≡ s.db
unfolding apply_again
apply_again-db h o s = elim (Bool-cases (is_removal o.kind)) [
  | inl removes ↦ rw removes (remove_upper_entry-db h o.path s)
  | inr stages ↦
      rw stages (remove_source-db h o _ ∙ publish_staged_entry-db h o.id _ (destination_of o) s)
]

finish-Left :
    (h : Host) (o : RecoveryOperation) (db : Database)
    → Left o db (finish_recovery_operation h.sql o db)
finish-Left h o db = elim (finish_atomic h.sql o db) [
  | inl e ↦ rw e (record { workspaces = refl; next = refl; operations = refl })
  | inr (inl (f, e)) ↦ rw e (inl refl)
  | inr (inr (c, k, (f, e))) ↦
      rw e (inr (record { workspaces = refl; next = refl; operations = refl }))
]

with_db-Tabled :
    (o : RecoveryOperation) (db : Database) (s : Storage) (r : Outcome (Unit {0}) × Database)
    → Left o db r
    → Tabled o db (with_db s r)
unfolding with_db
with_db-Tabled o db s (ok u, after) h = h
with_db-Tabled o db s (error e, after) h = h

commit_recovered-Tabled :
    (h : Host) (o : RecoveryOperation) (db : Database) (r : Outcome (Unit {0}) × Storage)
    → r.1.db ≡ db
    → Tabled o db (commit_recovered h o r)
unfolding commit_recovered
commit_recovered-Tabled h o db (error f, s) e = inl e
commit_recovered-Tabled h o db (ok u, s) e =
    with_db-Tabled o db s (finish_recovery_operation h.sql o s.db) (rw⁻¹ e (finish-Left h o s.db))

abandon-Left :
    (h : Host) (o : RecoveryOperation) (db : Database)
    → Left o db (abandon_recovery_operation h.sql o.id db)
unfolding abandon_recovery_operation execute
abandon-Left h o db = elim (Bool-cases (h.sql.refuses delete_operation)) [
  | inl refused_ ↦ rw refused_ (unfold store_error in inl refl)
  | inr runs ↦ rw runs (record { workspaces = refl; next = refl; operations = refl })
]

recover_phase-Tabled :
    (h : Host) (o : RecoveryOperation) (p : RecoveryPhase) (s : Storage)
    → Tabled o s.db (recover_phase h o p s)
unfolding recover_phase refused
recover_phase-Tabled h o prepared s = elim (Bool-cases (h.fault source_remove == 0)) [
  | inl fine ↦ rw fine (with_db-Tabled o s.db _ _ (abandon-Left h o s.db))
  | inr fails ↦ rw fails (inl refl)
]
recover_phase-Tabled h o publishing s =
    commit_recovered-Tabled h o s.db (apply_again h o s) (apply_again-db h o s)

pub recover_operation-Tabled :
    (h : Host) (o : RecoveryOperation) (s : Storage) → Tabled o s.db (recover_operation h o s)
unfolding recover_operation refused
recover_operation-Tabled h o s = elim (Bool-cases (is_safe o)) [
  | inr unsafe ↦ rw unsafe (inl refl)
  | inl safe ↦ elim (Bool-cases (is_known o)) [
    | inr unknown ↦ rw (safe, unknown) (inl refl)
    | inl known ↦ rw (safe, known) (recover_phase-Tabled h o o.phase s)
  ]
]
