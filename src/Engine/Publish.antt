-- ===== src/Engine/Publish.antt =====
-- Journaled mutations: `publish_staged_operation` and `remove_visible_entry_atomically` of
-- src/core/workspace_engine.cpp.
use tribios_vfs.Common.{
  ℕ, Bool, true, false, List, [], ◌∷◌, Bytes, codes, bytes_eq, Option, none, some, ◌==◌, ◌&&◌, not,
  if◌then◌else◌,
}
use tribios_vfs.Store.Types.{Database, RecoveryOperation, prepared, publishing}
use tribios_vfs.Store.Sql.{Outcome}
use tribios_vfs.Store.Journal.{
  begin_recovery_operation, set_recovery_operation_phase, finish_recovery_operation,
  abandon_recovery_operation,
}
use tribios_vfs.Engine.Host.{
  Node, Tree, eio, lstat, within, remove_all, rename_error, renamed, Host, Result, ok, fail,
  journal_write, recovery_dir, stage_flush, stage_sync, journal_phase, publish_rename,
  publish_directory_flush, journal_finish, host_rename, destination_sync, source_remove,
  upper_remove, upper_sync,
}
use tribios_vfs.Engine.State.{Engine}
use tribios_vfs.Engine.Visible.{base_is_visible, contains}
use tribios_vfs.Engine.Listing.{forget_cached_directory_entries}

abbrev pub Status : Type 0
Status = Result (Unit {0})

unfoldable pub is_rename : RecoveryOperation → Bool
is_rename o = bytes_eq o.kind (codes "rename")

-- Where the staged entry goes.
unfoldable pub destination_of : RecoveryOperation → Bytes
destination_of o = if is_rename o then o.target else o.path

-- The staged entries under `recovery/`.
unfoldable pub drop_stage : ℕ → List (ℕ × Tree) → List (ℕ × Tree)
drop_stage id [] = []
drop_stage id ((i, t) ∷ stages) =
    let rest = drop_stage id stages in if i == id then rest else (i, t) ∷ rest

unfoldable pub put_stage : ℕ → Tree → List (ℕ × Tree) → List (ℕ × Tree)
put_stage id t stages = (id, t) ∷ drop_stage id stages

-- `remove_all(stage)` and `abandon_recovery_operation`, whose result the source ignores.
unfoldable pub discard : Host → RecoveryOperation → Engine → Engine
discard h o e = record e {
  stages = drop_stage o.id e.stages;
  db = (abandon_recovery_operation h.sql o.id e.db).1;
}

unfoldable pub erase_under : Bytes → List Bytes → List Bytes
erase_under target [] = []
erase_under target (t ∷ ts) =
    let rest = erase_under target ts in if within target t then rest else t ∷ rest

-- `tombstones_.insert(path)`.
unfoldable pub insert_tombstone : Bytes → List Bytes → List Bytes
insert_tombstone path ts = if contains ts path then ts else path ∷ ts

-- What a finished operation does to the tombstones in memory.
unfoldable pub apply_tombstones : RecoveryOperation → List Bytes → List Bytes
apply_tombstones o ts =
    let added = if o.add_path_tombstone then insert_tombstone o.path ts else ts in
    if o.drop_target_tombstones then erase_under o.target added else added

-- The journal transaction, and then the tombstones in memory.
unfoldable pub finished :
    RecoveryOperation → Outcome (Unit {0}) × Database → Engine → Status × Engine
finished o (Outcome.error m, db) e = (fail eio, record e { db = db })
finished o (Outcome.ok u, db) e =
    (ok tt, record e { db = db; tombstones = apply_tombstones o e.tombstones })

unfoldable pub finish : Host → RecoveryOperation → Engine → Status × Engine
finish h o e = finished o (finish_recovery_operation h.sql o e.db) e

-- After the rename of the staged entry: a moved source goes, and the journal is settled.
unfoldable pub settle : Host → RecoveryOperation → Engine → Status × Engine
settle h o e =
    let moved = record e { upper = remove_all o.path e.upper } in
    if is_rename o
    then (if h.fault source_remove == 0 then finish h o moved else (fail eio, moved))
    else finish h o e

-- The staged entry takes its place in the upper tree.
unfoldable pub publish : Host → RecoveryOperation → Tree → Engine → Engine
publish h o stage e = record e {
  upper = renamed stage e.upper (destination_of o);
  stages = drop_stage o.id e.stages;
}

-- The preflight of injected faults, then the rename.
unfoldable pub rename_fault : Host → RecoveryOperation → Tree → Engine → ℕ
rename_fault h o stage e =
    if not (h.fault publish_rename == 0)
    then h.fault publish_rename
    else if not (h.fault publish_directory_flush == 0)
    then h.fault publish_directory_flush
    else if not (h.fault journal_finish == 0)
    then h.fault journal_finish
    else if not (h.fault host_rename == 0)
    then h.fault host_rename
    else rename_error stage e.upper (destination_of o)

unfoldable pub publish_or_discard : Host → RecoveryOperation → Tree → Engine → Status × Engine
publish_or_discard h o stage e =
    let after = publish h o stage e in
    if rename_fault h o stage e == 0
    then (if h.fault destination_sync == 0 then settle h o after else (fail eio, after))
    else (fail (rename_fault h o stage e), discard h o e)

-- The change of phase, once the staged entry is flushed.
unfoldable pub change_phase :
    Host → RecoveryOperation → Tree → Outcome (Unit {0}) × Database → Engine → Status × Engine
change_phase h o stage (Outcome.error m, db) e = (fail eio, discard h o e)
change_phase h o stage (Outcome.ok u, db) e =
    publish_or_discard h (record o { phase = publishing }) stage (record e { db = db })

unfoldable pub flush_stage : Host → RecoveryOperation → Tree → Engine → Status × Engine
flush_stage h o stage e =
    if not (h.fault stage_flush == 0)
    then (fail (h.fault stage_flush), discard h o e)
    else if not (h.fault stage_sync == 0)
    then (fail (h.fault stage_sync), discard h o e)
    else if not (h.fault journal_phase == 0)
    then (fail (h.fault journal_phase), discard h o e)
    else change_phase h o stage (set_recovery_operation_phase h.sql o.id publishing e.db) e

unfoldable pub stage_prepared : Host → RecoveryOperation → Result Tree → Engine → Status × Engine
stage_prepared h o (fail c) e = (fail c, discard h o e)
stage_prepared h o (ok stage) e =
    flush_stage h o stage (record e { stages = put_stage o.id stage e.stages })

unfoldable pub stage_begun :
    Host
    → RecoveryOperation
    → (Engine → Result Tree)
    → Outcome ℕ × Database
    → Engine
    → Status × Engine
stage_begun h o prepare (Outcome.error m, db) e = (fail eio, e)
stage_begun h o prepare (Outcome.ok id, db) e =
    let begun = record e { db = db } in
    if not (h.fault recovery_dir == 0)
    then (fail (h.fault recovery_dir), discard h (record o { id = id }) begun)
    else stage_prepared h (record o { id = id }) (prepare begun) begun

-- The listings that an operation touches.
unfoldable pub forget_touched : RecoveryOperation → Engine → Engine
forget_touched o e =
    let e1 = forget_cached_directory_entries o.path e in
    if is_rename o then forget_cached_directory_entries o.target e1 else e1

unfoldable pub publish_staged_operation :
    Host → RecoveryOperation → (Engine → Result Tree) → Engine → Status × Engine
publish_staged_operation h o prepare e =
    let ready = forget_touched o e in
    if not (h.fault journal_write == 0)
    then (fail (h.fault journal_write), e)
    else stage_begun h o prepare (begin_recovery_operation h.sql o ready.db) ready

unfoldable pub exists : Option Node → Bool
exists none = false
exists (some n) = true

-- `path_exists_without_following_symlinks`.
unfoldable pub has_entry : Tree → Bytes → Bool
has_entry t path = exists (lstat t path)

-- The upper entry goes, and the journal is settled. `remove` of a file and `remove_all` of a directory
-- both take all that stands at the path and beneath it.
unfoldable pub remove_upper : Host → RecoveryOperation → Engine → Status × Engine
remove_upper h o e =
    let gone = record e { upper = remove_all o.path e.upper } in
    if has_entry e.upper o.path
    then (if not (h.fault upper_remove == 0)
        then (fail eio, record e { db = (abandon_recovery_operation h.sql o.id e.db).1 })
        else if not (h.fault upper_sync == 0)
        then (fail eio, gone)
        else finish h o gone)
    else finish h o e

unfoldable pub remove_phased :
    Host → RecoveryOperation → Outcome (Unit {0}) × Database → Engine → Status × Engine
remove_phased h o (Outcome.error m, db) e =
    (fail eio, record e { db = (abandon_recovery_operation h.sql o.id e.db).1 })
remove_phased h o (Outcome.ok u, db) e =
    remove_upper h (record o { phase = publishing }) (record e { db = db })

unfoldable pub remove_begun :
    Host → RecoveryOperation → Outcome ℕ × Database → Engine → Status × Engine
remove_begun h o (Outcome.error m, db) e = (fail eio, e)
remove_begun h o (Outcome.ok id, db) e =
    remove_phased h (record o { id = id }) (set_recovery_operation_phase h.sql id publishing db)
      (record e { db = db })

-- The operation that a removal journals.
unfoldable pub removal : Bytes → Bytes → Engine → RecoveryOperation
removal kind relative e = record {
  id = 0;
  workspace = e.workspace;
  kind = kind;
  path = relative;
  target = [];
  phase = prepared;
  add_path_tombstone = base_is_visible e.tombstones relative && has_entry e.base relative;
  drop_target_tombstones = false;
}

unfoldable pub remove_visible_entry_atomically : Host → Bytes → Bytes → Engine → Status × Engine
remove_visible_entry_atomically h kind relative e =
    let o = removal kind relative e in
    let ready = forget_cached_directory_entries relative e in
    remove_begun h o (begin_recovery_operation h.sql o ready.db) ready
