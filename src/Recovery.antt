-- ===== src/Recovery.antt =====
-- Recovery of interrupted operations at startup: the part of `recover_interrupted_operations` in
-- src/core/recovery.cpp that settles the journaled operations of the engine.
pub mod Thinned
pub mod Moments
pub mod Reapplied
pub mod Crash
mod Tests
use tribios_vfs.Common.{
  ℕ, Bool, true, false, List, [], ◌∷◌, Bytes, codes, bytes_eq, is_empty, Option, none, some, ◌==◌,
  ◌&&◌, ◌||◌, not, if◌then◌else◌,
}
use tribios_vfs.Paths.{has_slash, normalize_relative}
use tribios_vfs.Store.Types.{Database, RecoveryOperation, RecoveryPhase, prepared, publishing}
use tribios_vfs.Store.Sql.{Outcome, ok, error}
use tribios_vfs.Store.Journal.{finish_recovery_operation, abandon_recovery_operation}
use tribios_vfs.Engine.Host.{
  Tree, remove_all, rename_error, renamed, Host, host_rename, destination_sync, source_remove,
}
use tribios_vfs.Engine.Publish.{drop_stage, destination_of, is_rename, has_entry}

-- What survives a crash, for one Workspace: its upper tree, its staged entries, and the tables.
pub record Storage : Type 0 where
  pub upper : Tree
  pub stages : List (ℕ × Tree)
  pub db : Database

unfoldable pub valid_recovery_relative_path : Bytes → Bool → Bool
valid_recovery_relative_path path allow_empty =
    if is_empty path then allow_empty else bytes_eq (normalize_relative path) path

unfoldable pub staged_filesystem_operation : Bytes → Bool
staged_filesystem_operation kind =
    bytes_eq kind (codes "create")
    || bytes_eq kind (codes "mkdir")
    || bytes_eq kind (codes "symlink")
    || bytes_eq kind (codes "write")
    || bytes_eq kind (codes "truncate")
    || bytes_eq kind (codes "chmod")
    || bytes_eq kind (codes "utimens")
    || bytes_eq kind (codes "rename")

-- The two tests that a journal record must pass.
unfoldable pub is_safe : RecoveryOperation → Bool
is_safe o =
    not (is_empty o.workspace)
    && not (has_slash o.workspace)
    && valid_recovery_relative_path o.path false
    && valid_recovery_relative_path o.target true

unfoldable pub is_removal : Bytes → Bool
is_removal kind = bytes_eq kind (codes "unlink") || bytes_eq kind (codes "rmdir")

unfoldable pub is_known : RecoveryOperation → Bool
is_known o = is_removal o.kind || staged_filesystem_operation o.kind

unfoldable pub find_stage : ℕ → List (ℕ × Tree) → Option Tree
find_stage id [] = none
find_stage id ((i, t) ∷ stages) = if i == id then some t else find_stage id stages

unfoldable pub refused : Bytes → Storage → Outcome (Unit {0}) × Storage
refused detail s = (error detail, s)

-- `remove_upper_entry`: what is gone already is no error.
unfoldable pub remove_upper_entry : Host → Bytes → Storage → Outcome (Unit {0}) × Storage
remove_upper_entry h path s =
    let gone = record s { upper = remove_all path s.upper } in
    if not (has_entry s.upper path)
    then (ok tt, s)
    else if h.fault source_remove == 0
    then (ok tt, gone)
    else refused (codes "cannot remove") s

-- `publish_staged_entry`: an entry that is published already is left. `create_directories` finds the
-- directory above the destination there, since the engine makes it before the entry is staged.
unfoldable pub publish_staged_entry :
    Host → ℕ → Option Tree → Bytes → Storage → Outcome (Unit {0}) × Storage
publish_staged_entry h id (some stage) destination s =
    let published = record s {
      upper = renamed stage s.upper destination;
      stages = drop_stage id s.stages;
    } in
    if not (h.fault host_rename == 0) || not (rename_error stage s.upper destination == 0)
    then refused (codes "cannot publish recovered entry") s
    else if h.fault destination_sync == 0
    then (ok tt, published)
    else refused (codes "cannot sync recovered destination") published
publish_staged_entry h id none destination s =
    if not (has_entry s.upper destination)
    then refused (codes "both the staged entry and published entry are missing") s
    else if h.fault destination_sync == 0
    then (ok tt, s)
    else refused (codes "cannot sync recovered destination") s

unfoldable pub remove_source :
    Host → RecoveryOperation → Outcome (Unit {0}) × Storage → Outcome (Unit {0}) × Storage
remove_source h o (error m, s) = (error m, s)
remove_source h o (ok u, s) = if is_rename o then remove_upper_entry h o.path s else (ok u, s)

-- The effect of an operation that was publishing, done or done again.
unfoldable pub apply_again : Host → RecoveryOperation → Storage → Outcome (Unit {0}) × Storage
apply_again h o s =
    if is_removal o.kind
    then remove_upper_entry h o.path s
    else remove_source h o
        (publish_staged_entry h o.id (find_stage o.id s.stages) (destination_of o) s)

unfoldable pub with_db : Storage → Outcome (Unit {0}) × Database → Outcome (Unit {0}) × Storage
with_db s (r, db) = (r, record s { db = db })

unfoldable pub commit_recovered :
    Host → RecoveryOperation → Outcome (Unit {0}) × Storage → Outcome (Unit {0}) × Storage
commit_recovered h o (error m, s) = (error m, s)
commit_recovered h o (ok u, s) = with_db s (finish_recovery_operation h.sql o s.db)

-- A prepared operation is rolled back, a publishing one is completed.
unfoldable pub recover_phase :
    Host → RecoveryOperation → RecoveryPhase → Storage → Outcome (Unit {0}) × Storage
recover_phase h o prepared s =
    let rolled_back =
      with_db (record s { stages = drop_stage o.id s.stages })
        (abandon_recovery_operation h.sql o.id s.db) in
    if h.fault source_remove == 0 then rolled_back else refused (codes "cannot remove") s
recover_phase h o publishing s = commit_recovered h o (apply_again h o s)

unfoldable pub recover_operation : Host → RecoveryOperation → Storage → Outcome (Unit {0}) × Storage
recover_operation h o s =
    if not (is_safe o)
    then refused (codes "journal record contains an unsafe path") s
    else if not (is_known o)
    then refused (codes "journal record has an unknown operation kind") s
    else recover_phase h o o.phase s
