-- ===== src/Engine/Listing.antt =====
-- Merged directory listings and their cache: `merge_visible_directory_entries`,
-- `forget_cached_directory_entries` and `readdir` of src/core/workspace_engine.cpp.
use tribios_vfs.Common.{
  ℕ, ◌+◌, Bool, true, false, List, [], ◌∷◌, ◌++◌, Bytes, bytes_eq, starts_with, Option, none, some,
  ◌==◌, ◌||◌, ◌&&◌, not, if◌then◌else◌,
}
use tribios_vfs.Paths.{slash, parent_of, join_relative, normalize_relative}
use tribios_vfs.Store.Workspaces.{bytes_lt}
use tribios_vfs.Engine.Host.{
  Node, Tree, file_type, is_dir, children, enoent, enotdir, Host, Result, ok, fail,
}
use tribios_vfs.Engine.State.{Engine, DirEntry}
use tribios_vfs.Engine.Visible.{
  contains, base_is_visible, Found, missing, in_upper, in_base, find_visible_entry_layer,
  workspace_inode_for,
}

-- The entry that a listing reports: the type alone where the host reports types, else the whole mode.
unfoldable pub listed : Host → ℕ → Bytes → Node → DirEntry
listed h ino name n = record {
  name = name;
  ino = ino;
  mode =
      if (n.ino == 0) || not h.reports_types then file_type n.kind + n.mode else file_type n.kind;
}

-- `entries[name] = entry` on a map that is ordered by name.
unfoldable pub put_entry : DirEntry → List DirEntry → List DirEntry
put_entry x [] = x ∷ []
put_entry x (y ∷ ys) =
    let rest = put_entry x ys in
    if bytes_eq x.name y.name
    then x ∷ ys
    else if bytes_lt x.name y.name
    then x ∷ y ∷ ys
    else y ∷ rest

-- `merge_directory`: a filtered name is skipped.
unfoldable pub merge_directory : Host → Engine → Bytes → Bool → Tree → List DirEntry → List DirEntry
merge_directory h e relative filtered [] entries = entries
merge_directory h e relative filtered ((name, n) ∷ t) entries =
    merge_directory h e relative filtered t (
      if filtered && contains e.tombstones (join_relative relative name)
      then entries
      else put_entry (listed h (workspace_inode_for e n.ino) name n) entries)

unfoldable pub merge_visible_directory_entries : Host → Engine → Bytes → List DirEntry
merge_visible_directory_entries h e relative =
    merge_directory h e relative false (children e.upper relative) (
      if base_is_visible e.tombstones relative
      then merge_directory h e relative true (children e.base relative) []
      else [])

-- The listings that a mutation of `relative` drops.
unfoldable pub is_forgotten : Bytes → Bytes → Bool
is_forgotten relative k =
    bytes_eq k (parent_of relative) || bytes_eq k relative || starts_with (relative ++ slash ∷ []) k

unfoldable pub forget : Bytes → List (Bytes × List DirEntry) → List (Bytes × List DirEntry)
forget relative [] = []
forget relative ((k, v) ∷ cache) =
    let rest = forget relative cache in if is_forgotten relative k then rest else (k, v) ∷ rest

unfoldable pub forget_cached_directory_entries : Bytes → Engine → Engine
forget_cached_directory_entries relative e = record e { cache = forget relative e.cache }

unfoldable pub cached : Bytes → List (Bytes × List DirEntry) → Option (List DirEntry)
cached relative [] = none
cached relative ((k, v) ∷ cache) = if bytes_eq k relative then some v else cached relative cache

-- A listing that is not cached is merged, and put into the cache.
unfoldable pub list_node : Host → Engine → Bytes → Node → Result (List DirEntry) × Engine
list_node h e relative n =
    let out = merge_visible_directory_entries h e relative in
    if is_dir n.kind
    then (ok out, record e { cache = (relative, out) ∷ e.cache })
    else (fail enotdir, e)

unfoldable pub list_found : Host → Engine → Bytes → Found → Result (List DirEntry) × Engine
list_found h e relative missing = (fail enoent, e)
list_found h e relative (in_upper n) = list_node h e relative n
list_found h e relative (in_base n) = list_node h e relative n

unfoldable pub list_directory :
    Host → Engine → Bytes → Option (List DirEntry) → Result (List DirEntry) × Engine
list_directory h e relative (some entries) = (ok entries, e)
list_directory h e relative none = list_found h e relative (find_visible_entry_layer e relative)

unfoldable pub readdir : Host → Engine → Bytes → Result (List DirEntry) × Engine
readdir h e path =
    let relative = normalize_relative path in list_directory h e relative (cached relative e.cache)
