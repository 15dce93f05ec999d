-- ===== src/Engine/Visible.antt =====
-- Which entry a path of the Workspace shows: `base_is_visible` and `find_visible_entry_layer` of
-- src/core/workspace_engine.cpp, and `getattr` and `readlink`, which report it.
use tribios_vfs.Common.{
  ◌==◌, ℕ, zero, suc, ◌+◌, Bool, true, false, List, [], ◌∷◌, Bytes, bytes_eq, is_empty, length,
  Option, none, some, ◌||◌, if◌then◌else◌,
}
use tribios_vfs.Paths.{parent_of, normalize_relative}
use tribios_vfs.Engine.Host.{
  eio, Node, Tree, file_type, is_lnk, lstat, enoent, einval, Host, host_read, Result, ok, fail,
}
use tribios_vfs.Engine.Inode.{salted_workspace_inode}
use tribios_vfs.Engine.State.{Engine, Attr}

-- `tombstones_.contains(path)`.
unfoldable pub contains : List Bytes → Bytes → Bool
unfolding bytes_eq
contains [] path = false
contains (t ∷ ts) path = bytes_eq t path || contains ts path

-- The walk from a path to the root; a path has no more ancestors than bytes.
unfoldable pub no_tombstone : ℕ → List Bytes → Bytes → Bool
unfolding parent_of contains
no_tombstone zero ts path = true
no_tombstone (suc n) ts path =
    if is_empty path
    then true
    else if contains ts path
    then false
    else no_tombstone n ts (parent_of path)

unfoldable pub base_is_visible : List Bytes → Bytes → Bool
unfolding no_tombstone
base_is_visible ts relative = no_tombstone (length relative) ts relative

-- `Layer` with the `struct stat` that the source returns beside it.
pub data Found : Type 0 where
  missing : Found
  in_upper : Node → Found
  in_base : Node → Found

unfoldable pub found_in_base : Option Node → Found
found_in_base none = missing
found_in_base (some n) = in_base n

unfoldable pub found_in : Option Node → Bool → Option Node → Found
found_in (some n) visible below = in_upper n
found_in none true below = found_in_base below
found_in none false below = missing

-- What the trees and the tombstones show at a path.
unfoldable pub find_entry : Tree → Tree → List Bytes → Bytes → Found
find_entry upper base ts relative =
    found_in (lstat upper relative) (base_is_visible ts relative) (lstat base relative)

unfoldable pub find_visible_entry_layer : Engine → Bytes → Found
find_visible_entry_layer e relative = find_entry e.upper e.base e.tombstones relative

abbrev pub workspace_inode_for : Engine → ℕ → ℕ
workspace_inode_for e ino = salted_workspace_inode e.inode_salt ino

abbrev pub attr_from_stat : Node → ℕ → Bool → Attr
attr_from_stat n ino from_upper = record {
  ino = ino;
  mode = file_type n.kind + n.mode;
  size = length n.body;
  mtime = n.mtime;
  atime = n.atime;
  from_upper = from_upper;
}

unfoldable pub attr_of : Engine → Found → Result Attr
attr_of e missing = fail enoent
attr_of e (in_upper n) = ok (attr_from_stat n (workspace_inode_for e n.ino) true)
attr_of e (in_base n) = ok (attr_from_stat n (workspace_inode_for e n.ino) false)

unfoldable pub getattr : Engine → Bytes → Result Attr
getattr e path = attr_of e (find_visible_entry_layer e (normalize_relative path))

unfoldable pub target_of : Host → Node → Result Bytes
target_of h n =
    if is_lnk n.kind then (if h.fault host_read == 0 then ok n.body else fail eio) else fail einval

unfoldable pub link_of : Host → Found → Result Bytes
link_of h missing = fail enoent
link_of h (in_upper n) = target_of h n
link_of h (in_base n) = target_of h n

unfoldable pub readlink : Host → Engine → Bytes → Result Bytes
readlink h e path = link_of h (find_visible_entry_layer e (normalize_relative path))
