-- ===== src/FuseAdapter.antt =====
-- The FUSE callbacks of src/fuse/fuse_adapter.cpp: which Workspace and which path a request is about.
-- The manager is set before the mount starts, so the source's test for a null manager is left out; of
-- the manager the callbacks use the engines alone, in the order of their names.
pub mod Files
pub mod Directories
pub mod Requests
pub mod Pages
pub mod Paths
mod Tests
use tribios_vfs.Common.{
  ℕ, Bool, true, false, List, [], ◌∷◌, ◌++◌, ◌*◌, ◌+◌, Bytes, bytes_eq, is_empty, Option, none,
  some, map, ◌==◌, ◌||◌, if◌then◌else◌,
}
use tribios_vfs.Paths.{slash, normalize_relative, parent_of}
use tribios_vfs.Engine.Host.{Result, ok, fail, enoent}
use tribios_vfs.Engine.State.{Engine, Attr}
use tribios_vfs.Engine.Visible.{getattr}

pub record ViewPath : Type 0 where
  pub workspace : Bytes
  pub relative : Bytes
  pub is_root : Bool

pub record View : Type 0 where
  pub engines : List (Bytes × Engine)

-- The user that the daemon runs as.
pub record Owner : Type 0 where
  pub uid : ℕ
  pub gid : ℕ

-- `struct stat`, without the link count and the change time.
pub record Stat : Type 0 where
  pub st_ino : ℕ
  pub st_mode : ℕ
  pub st_size : ℕ
  pub st_uid : ℕ
  pub st_gid : ℕ
  pub st_mtime : ℕ
  pub st_atime : ℕ

-- The texts before and behind the first slash.
unfoldable pub cons_before : ℕ → Option (Bytes × Bytes) → Option (Bytes × Bytes)
cons_before c none = none
cons_before c (some (before, after)) = some (c ∷ before, after)

unfoldable pub split_slash : Bytes → Option (Bytes × Bytes)
unfolding cons_before
split_slash [] = none
split_slash (c ∷ s) =
    let rest = cons_before c (split_slash s) in if c == slash then some ([], s) else rest

unfoldable pub view_of : Bytes → Option (Bytes × Bytes) → ViewPath
view_of normalized none = record { workspace = normalized; relative = []; is_root = false }
view_of normalized (some (workspace, relative)) = record {
  workspace = workspace;
  relative = relative;
  is_root = false;
}

unfoldable pub parse_normalized : Bytes → ViewPath
parse_normalized normalized =
    if is_empty normalized
    then record { workspace = []; relative = []; is_root = true }
    else view_of normalized (split_slash normalized)

unfoldable pub parse_project_view_path : Bytes → ViewPath
parse_project_view_path path = parse_normalized (normalize_relative path)

unfoldable pub find_engine : Bytes → List (Bytes × Engine) → Option Engine
find_engine name [] = none
find_engine name ((k, e) ∷ es) = if bytes_eq k name then some e else find_engine name es

-- The engine with its state changed.
unfoldable pub put_engine : Bytes → Engine → List (Bytes × Engine) → List (Bytes × Engine)
put_engine name e [] = []
put_engine name e ((k, d) ∷ es) =
    let rest = put_engine name e es in if bytes_eq k name then (k, e) ∷ es else (k, d) ∷ rest

unfoldable pub find_workspace_engine_for_view_path : ViewPath → View → Option Engine
find_workspace_engine_for_view_path view s =
    if is_empty view.workspace then none else find_engine view.workspace s.engines

-- A call of the engine of a path, where there is one.
unfoldable pub call {ℓ} :
    {A : Type ℓ} → Bytes → Option Engine → (Engine → Result A × Engine) → View → Result A × View
call name none f s = (fail enoent, s)
call name (some e) f s =
    let (r, after) = f e in (r, record s { engines = put_engine name after s.engines })

unfoldable pub with_engine {ℓ} :
    {A : Type ℓ} → ViewPath → (Engine → Result A × Engine) → View → Result A × View
with_engine view f s = call view.workspace (find_workspace_engine_for_view_path view s) f s

abbrev pub project_view_root_inode : ℕ
project_view_root_inode = 1

unfoldable pub populate_stat_from_attributes : Owner → Attr → Stat
populate_stat_from_attributes o attr = record {
  st_ino = attr.ino;
  st_mode = attr.mode;
  st_size = attr.size;
  st_uid = o.uid;
  st_gid = o.gid;
  st_mtime = attr.mtime;
  st_atime = attr.atime;
}

unfoldable pub view_root_stat : Owner → Stat
view_root_stat o = record {
  st_ino = project_view_root_inode;
  st_mode = 0o040755;
  st_size = 0;
  st_uid = o.uid;
  st_gid = o.gid;
  st_mtime = 0;
  st_atime = 0;
}

unfoldable pub stat_of : Owner → Result Attr → Result Stat
stat_of o (fail c) = fail c
stat_of o (ok attr) = ok (populate_stat_from_attributes o attr)

unfoldable pub getattr_in : Owner → Bytes → Option Engine → Result Stat
getattr_in o relative none = fail enoent
getattr_in o relative (some e) = stat_of o (getattr e relative)

unfoldable pub tri_getattr : Owner → Bytes → View → Result Stat
tri_getattr o path s =
    let view = parse_project_view_path path in
    if view.is_root
    then ok (view_root_stat o)
    else getattr_in o view.relative (find_workspace_engine_for_view_path view s)

unfoldable pub inode_of : Result Attr → ℕ
inode_of (fail c) = project_view_root_inode
inode_of (ok attr) = attr.ino

unfoldable pub inode_in : Bytes → Option Engine → ℕ
inode_in relative none = project_view_root_inode
inode_in relative (some e) = inode_of (getattr e relative)

unfoldable pub resolve_view_path_inode : ViewPath → View → ℕ
resolve_view_path_inode view s =
    if view.is_root
    then project_view_root_inode
    else inode_in view.relative (find_workspace_engine_for_view_path view s)

unfoldable pub parent_view_path_inode : ViewPath → View → ℕ
parent_view_path_inode view s =
    if view.is_root || is_empty view.relative
    then project_view_root_inode
    else resolve_view_path_inode (record view { relative = parent_of view.relative }) s
