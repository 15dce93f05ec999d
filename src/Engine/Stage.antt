-- ===== src/Engine/Stage.antt =====
-- Copy-up: `create_missing_upper_parent_directories` and `materialize_visible_entry_at` of
-- src/core/workspace_engine.cpp.
use tribios_vfs.Common.{
  ℕ, zero, suc, ◌+◌, Bool, true, false, List, [], ◌∷◌, ◌++◌, Bytes, is_empty, length, Option, none,
  some, ◌==◌, if◌then◌else◌,
}
use tribios_vfs.Paths.{parent_of, join_relative}
use tribios_vfs.Engine.Host.{
  Node, Tree, Kind, dir, reg, lnk, is_dir, is_lnk, lstat, graft, enoent, enotdir, eio, Host,
  make_parent, parent_sync, host_create, host_copy, Result, ok, fail,
}
use tribios_vfs.Engine.State.{Engine, DirEntry}
use tribios_vfs.Engine.Visible.{
  base_is_visible, Found, missing, in_upper, in_base, find_visible_entry_layer,
}
use tribios_vfs.Engine.Listing.{forget_cached_directory_entries, merge_visible_directory_entries}

-- The ancestors of a path but the root, outermost first.
unfoldable pub ancestors : ℕ → Bytes → List Bytes
ancestors zero relative = []
ancestors (suc n) relative =
    let parent = parent_of relative in
    if is_empty parent then [] else ancestors n parent ++ parent ∷ []

-- `mkdir` of an upper directory.
unfoldable pub new_directory : Host → Bytes → ℕ → Node
new_directory h path mode = record {
  kind = dir;
  mode = h.created_mode mode;
  body = [];
  atime = h.clock;
  mtime = h.clock;
  ino = h.inode path;
}

unfoldable pub make_upper_directory : Host → Bytes → Node → Engine → Result (Unit {0}) × Engine
make_upper_directory h path below e =
    let e1 = forget_cached_directory_entries path e in
    let e2 = record e1 { upper = (path, new_directory h path below.mode) ∷ e1.upper } in
    if is_dir below.kind
    then (if h.fault make_parent == 0
        then (if h.fault parent_sync == 0 then (ok tt, e2) else (fail eio, e2))
        else (fail (h.fault make_parent), e1))
    else (fail enotdir, e)

unfoldable pub copy_up_directory :
    Host → Bytes → Engine → Bool → Option Node → Result (Unit {0}) × Engine
copy_up_directory h path e false below = (fail enoent, e)
copy_up_directory h path e true none = (fail enoent, e)
copy_up_directory h path e true (some n) = make_upper_directory h path n e

-- One round of the loop: an upper directory is passed, one of the Base state is made in the upper tree.
unfoldable pub upper_directory : Host → Bytes → Engine → Option Node → Result (Unit {0}) × Engine
upper_directory h path e (some n) = if is_dir n.kind then (ok tt, e) else (fail enotdir, e)
upper_directory h path e none =
    copy_up_directory h path e (base_is_visible e.tombstones path) (lstat e.base path)

unfoldable pub make_missing :
    Host → List Bytes → Result (Unit {0}) × Engine → Result (Unit {0}) × Engine
make_missing h [] r = r
make_missing h (path ∷ paths) (fail c, e) = (fail c, e)
make_missing h (path ∷ paths) (ok u, e) =
    make_missing h paths (upper_directory h path e (lstat e.upper path))

unfoldable pub create_missing_upper_parent_directories :
    Host → Bytes → Engine → Result (Unit {0}) × Engine
create_missing_upper_parent_directories h relative e =
    make_missing h (ancestors (length relative) relative) (ok tt, e)

-- What a copy is given: a new inode, and the times of its source but for a link. The mode of a
-- directory passes through `mkdir`.
unfoldable pub copy_of : Host → Bytes → Node → Node
copy_of h path n = record n {
  mode = if is_dir n.kind then h.created_mode n.mode else n.mode;
  atime = if is_lnk n.kind then h.clock else n.atime;
  mtime = if is_lnk n.kind then h.clock else n.mtime;
  ino = h.inode path;
}

unfoldable pub found_node : Found → Option Node
found_node missing = none
found_node (in_upper n) = some n
found_node (in_base n) = some n

-- The node that a path shows, on whichever layer.
unfoldable pub visible_node : Engine → Bytes → Option Node
visible_node e relative = found_node (find_visible_entry_layer e relative)

unfoldable pub add_copy : Bytes → Result Tree → Result Tree → Result Tree
add_copy name (fail c) rest = fail c
add_copy name (ok t) (fail c) = fail c
add_copy name (ok t) (ok ts) = ok (graft name t ++ ts)

-- The copies of the children of a directory, by a function that copies one path.
unfoldable pub copy_children : (Bytes → Result Tree) → Bytes → List DirEntry → Result Tree
copy_children copy relative [] = ok []
copy_children copy relative (x ∷ xs) =
    add_copy x.name (copy (join_relative relative x.name)) (copy_children copy relative xs)

unfoldable pub under_directory : Node → Result Tree → Result Tree
under_directory n (fail c) = fail c
under_directory n (ok ts) = ok (([], n) ∷ ts)

-- A single entry: `copy_file` refuses what is no regular file.
unfoldable pub copy_leaf : Host → Bytes → Node → Kind → Result Tree
copy_leaf h relative n reg =
    if h.fault host_copy == 0 then ok (([], copy_of h relative n) ∷ []) else fail eio
copy_leaf h relative n lnk =
    if h.fault host_copy == 0 then ok (([], copy_of h relative n) ∷ []) else fail eio
copy_leaf h relative n _ = fail eio

unfoldable pub copy_entry :
    (Bytes → Result Tree) → Host → Engine → Bytes → Option Node → Result Tree
copy_entry copy h e relative none = fail enoent
copy_entry copy h e relative (some n) =
    let entries = merge_visible_directory_entries h e relative in
    let tree = under_directory (copy_of h relative n) (copy_children copy relative entries) in
    if is_dir n.kind
    then (if h.fault host_create == 0 then tree else fail (h.fault host_create))
    else copy_leaf h relative n n.kind

-- The tree that the copy makes at its destination. The fuel bounds the depth of the directories.
unfoldable pub materialize : ℕ → Host → Engine → Bytes → Result Tree
materialize zero h e relative = fail eio
materialize (suc fuel) h e relative =
    copy_entry (materialize fuel h e) h e relative (visible_node e relative)

-- More than the length of any path of the tree.
unfoldable pub longest : Tree → ℕ
longest [] = 1
longest ((k, n) ∷ t) = suc (length k) + longest t

unfoldable pub materialize_visible_entry_at : Host → Engine → Bytes → Result Tree
materialize_visible_entry_at h e relative =
    materialize (longest e.upper + longest e.base) h e relative
