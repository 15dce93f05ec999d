-- ===== src/Engine/Mutations.antt =====
-- The mutations of a Workspace: `create`, `mkdir`, `symlink`, `unlink`, `rmdir`, `rename`, `chmod`,
-- `truncate` and `utimens` of src/core/workspace_engine.cpp.
use tribios_vfs.Common.{
  ℕ, ◌-◌, ◌%◌, true, false, [], ◌∷◌, ◌++◌, Bytes, codes, bytes_eq, starts_with, is_empty, length,
  take, Option, none, some, ◌==◌, ◌&&◌, ◌||◌, not, if◌then◌else◌,
}
use tribios_vfs.Paths.{slash, normalize_relative}
use tribios_vfs.Store.Types.{RecoveryOperation, prepared}
use tribios_vfs.Engine.Host.{
  Node, Tree, Kind, reg, dir, lnk, is_dir, enoent, eexist, enotdir, eisdir, einval, ebusy,
  enotempty, Host, host_create, host_change, Result, ok, fail,
}
use tribios_vfs.Engine.State.{Engine}
use tribios_vfs.Engine.Visible.{base_is_visible}
use tribios_vfs.Engine.Listing.{merge_visible_directory_entries}
use tribios_vfs.Engine.Stage.{
  visible_node, create_missing_upper_parent_directories, materialize_visible_entry_at,
}
use tribios_vfs.Engine.Publish.{
  Status, has_entry, publish_staged_operation, remove_visible_entry_atomically,
}

-- An operation on one path, as the source fills it in.
unfoldable pub operation_on : Bytes → Bytes → Engine → RecoveryOperation
operation_on kind path e = record {
  id = 0;
  workspace = e.workspace;
  kind = kind;
  path = path;
  target = [];
  phase = prepared;
  add_path_tombstone = false;
  drop_target_tombstones = false;
}

-- The parents of the path are made, then the operation is published.
unfoldable pub publish_below :
    Host → RecoveryOperation → (Engine → Result Tree) → Status × Engine → Status × Engine
publish_below h o prepare (fail c, e) = (fail c, e)
publish_below h o prepare (ok u, e) = publish_staged_operation h o prepare e

unfoldable pub publish_at :
    Host → Bytes → RecoveryOperation → (Engine → Result Tree) → Engine → Status × Engine
publish_at h relative o prepare e =
    publish_below h o prepare (create_missing_upper_parent_directories h relative e)

unfoldable pub new_node : Host → Kind → ℕ → Bytes → Bytes → Node
new_node h kind mode body path = record {
  kind = kind;
  mode = mode;
  body = body;
  atime = h.clock;
  mtime = h.clock;
  ino = h.inode path;
}

-- A stage that holds one new entry.
unfoldable pub stage_new : Host → Kind → ℕ → Bytes → Bytes → Engine → Result Tree
stage_new h kind mode body path e =
    if h.fault host_create == 0
    then ok (([], new_node h kind mode body path) ∷ [])
    else fail (h.fault host_create)

-- `mode & 07777`.
abbrev pub permission_bits : ℕ → ℕ
permission_bits mode = mode % 0o10000

-- The guard of `create`, `mkdir` and `symlink`: nothing may be visible at the path.
unfoldable pub make_new :
    Host → Bytes → Kind → ℕ → Bytes → Engine → Bytes → Option Node → Status × Engine
make_new h name kind mode body e relative (some n) = (fail eexist, e)
make_new h name kind mode body e relative none =
    publish_at h relative (operation_on name relative e) (stage_new h kind mode body relative) e

unfoldable pub make_at : Host → Bytes → Kind → ℕ → Bytes → Engine → Bytes → Status × Engine
make_at h name kind mode body e relative =
    let made = make_new h name kind mode body e relative (visible_node e relative) in
    if is_empty relative then (fail eexist, e) else made

unfoldable pub create : Host → Bytes → ℕ → Engine → Status × Engine
create h path mode e =
    make_at h (codes "create") reg (h.created_mode (permission_bits mode)) [] e
      (normalize_relative path)

unfoldable pub mkdir : Host → Bytes → ℕ → Engine → Status × Engine
mkdir h path mode e =
    make_at h (codes "mkdir") dir (h.created_mode (permission_bits mode)) [] e
      (normalize_relative path)

-- A link has all permission bits.
unfoldable pub symlink : Host → Bytes → Bytes → Engine → Status × Engine
symlink h target link_path e =
    make_at h (codes "symlink") lnk 0o777 target e (normalize_relative link_path)

unfoldable pub unlink_node : Host → Bytes → Engine → Option Node → Status × Engine
unlink_node h relative e none = (fail enoent, e)
unlink_node h relative e (some n) =
    let removed = remove_visible_entry_atomically h (codes "unlink") relative e in
    if is_dir n.kind then (fail eisdir, e) else removed

unfoldable pub unlink : Host → Bytes → Engine → Status × Engine
unlink h path e =
    let relative = normalize_relative path in
    if is_empty relative
    then (fail eisdir, e)
    else unlink_node h relative e (visible_node e relative)

unfoldable pub rmdir_node : Host → Bytes → Engine → Option Node → Status × Engine
rmdir_node h relative e none = (fail enoent, e)
rmdir_node h relative e (some n) =
    if not (is_dir n.kind)
    then (fail enotdir, e)
    else if not (is_empty (merge_visible_directory_entries h e relative))
    then (fail enotempty, e)
    else remove_visible_entry_atomically h (codes "rmdir") relative e

unfoldable pub rmdir : Host → Bytes → Engine → Status × Engine
rmdir h path e =
    let relative = normalize_relative path in
    if is_empty relative then (fail ebusy, e) else rmdir_node h relative e (visible_node e relative)

-- What stands at the destination of a rename: the errno with which it is refused, or 0.
unfoldable pub rename_refused : Host → Engine → Bytes → Node → Option Node → ℕ
rename_refused h e to source none = 0
rename_refused h e to source (some n) =
    if is_dir source.kind && not (is_dir n.kind)
    then enotdir
    else if not (is_dir source.kind) && is_dir n.kind
    then eisdir
    else if is_dir n.kind && not (is_empty (merge_visible_directory_entries h e to))
    then enotempty
    else 0

unfoldable pub renaming : Bytes → Bytes → Engine → RecoveryOperation
renaming from to e = record {
  id = 0;
  workspace = e.workspace;
  kind = codes "rename";
  path = from;
  target = to;
  phase = prepared;
  add_path_tombstone = base_is_visible e.tombstones from && has_entry e.base from;
  drop_target_tombstones = true;
}

-- The operation is filled in after the parents are made.
unfoldable pub rename_below : Host → Bytes → Bytes → Status × Engine → Status × Engine
rename_below h from to (fail c, e) = (fail c, e)
rename_below h from to (ok u, e) =
    publish_staged_operation h (renaming from to e) (λ s. materialize_visible_entry_at h s from) e

unfoldable pub rename_node : Host → Bytes → Bytes → Engine → Option Node → Status × Engine
rename_node h from to e none = (fail enoent, e)
rename_node h from to e (some n) =
    let refused = rename_refused h e to n (visible_node e to) in
    if not (refused == 0)
    then (fail refused, e)
    else rename_below h from to (create_missing_upper_parent_directories h to e)

unfoldable pub rename_relative : Host → Bytes → Bytes → Engine → Status × Engine
rename_relative h from to e =
    if is_empty from || is_empty to
    then (fail ebusy, e)
    else if bytes_eq from to
    then (ok tt, e)
    else if starts_with (from ++ slash ∷ []) to
    then (fail einval, e)
    else rename_node h from to e (visible_node e from)

unfoldable pub rename : Host → Bytes → Bytes → Engine → Status × Engine
rename h from_path to_path e =
    rename_relative h (normalize_relative from_path) (normalize_relative to_path) e

-- The copy of a visible entry, changed at its top.
unfoldable pub edit_root : (Node → Node) → Tree → Tree
edit_root f [] = []
edit_root f (([], n) ∷ t) = ([], f n) ∷ t
edit_root f ((c ∷ k, n) ∷ t) = (c ∷ k, n) ∷ edit_root f t

unfoldable pub edited : Host → (Node → Node) → Result Tree → Result Tree
edited h f (fail c) = fail c
edited h f (ok t) =
    if h.fault host_change == 0 then ok (edit_root f t) else fail (h.fault host_change)

unfoldable pub stage_edited : Host → (Node → Node) → Bytes → Engine → Result Tree
stage_edited h f relative e = edited h f (materialize_visible_entry_at h e relative)

unfoldable pub edit_node :
    Host → Bytes → (Node → Node) → Bytes → Engine → Option Node → Status × Engine
edit_node h name f relative e none = (fail enoent, e)
edit_node h name f relative e (some n) =
    publish_at h relative (operation_on name relative e) (stage_edited h f relative) e

unfoldable pub chmod : Host → Bytes → ℕ → Engine → Status × Engine
chmod h path mode e =
    let relative = normalize_relative path in
    edit_node h (codes "chmod") (λ n. record n { mode = permission_bits mode }) relative e
      (visible_node e relative)

unfoldable pub utimens : Host → Bytes → ℕ → ℕ → Engine → Status × Engine
utimens h path atime mtime e =
    let relative = normalize_relative path in
    edit_node h (codes "utimens") (λ n. record n { atime = atime; mtime = mtime }) relative e
      (visible_node e relative)

unfoldable pub zeros : ℕ → Bytes
zeros ℕ.zero = []
zeros (ℕ.suc n) = 0 ∷ zeros n

-- truncate(2): the file is cut, or grows by zeros.
unfoldable pub resized : ℕ → Bytes → Bytes
resized size body = take size body ++ zeros (size - length body)

unfoldable pub truncate_node : Host → Bytes → ℕ → Engine → Option Node → Status × Engine
truncate_node h relative size e none = (fail enoent, e)
truncate_node h relative size e (some n) =
    let cut = λ (m : Node). record m { body = resized size m.body; mtime = h.clock } in
    if is_dir n.kind
    then (fail eisdir, e)
    else edit_node h (codes "truncate") cut relative e (some n)

unfoldable pub truncate : Host → Bytes → ℕ → Engine → Status × Engine
truncate h path size e =
    let relative = normalize_relative path in
    truncate_node h relative size e (visible_node e relative)
