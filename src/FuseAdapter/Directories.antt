-- ===== src/FuseAdapter/Directories.antt =====
-- The callbacks on directories of src/fuse/fuse_adapter.cpp. `info->fh` holds a pointer to a snapshot,
-- or zero; `info` itself may be a null pointer.
use tribios_vfs.Common.{
  ℕ, suc, zero, ◌+◌, Bool, true, false, List, [], ◌∷◌, ◌++◌, Bytes, codes, drop, Option, none, some,
  map, ◌==◌, ◌&&◌, not, if◌then◌else◌,
}
use tribios_vfs.Engine.Host.{Host, Result, ok, fail, ebadf}
use tribios_vfs.Engine.State.{Engine, DirEntry}
use tribios_vfs.Engine.Listing.{readdir}
use tribios_vfs.Engine.Publish.{Status}
use tribios_vfs.FuseAdapter.{
  ViewPath, View, parse_project_view_path, with_engine, resolve_view_path_inode,
  parent_view_path_inode,
}

pub record DirectorySnapshot : Type 0 where
  pub entries : List DirEntry
  pub first_read_pending : Bool

abbrev pub directory_mode : ℕ
directory_mode = 0o040000

abbrev pub workspace_root : Bytes → ViewPath
workspace_root name = record { workspace = name; relative = []; is_root = false }

unfoldable pub dot_entries : ViewPath → View → List DirEntry
dot_entries view s =
    record { name = codes "."; ino = resolve_view_path_inode view s; mode = directory_mode }
    ∷ record { name = codes ".."; ino = parent_view_path_inode view s; mode = directory_mode }
    ∷ []

unfoldable pub workspace_entry : View → Bytes × Engine → DirEntry
workspace_entry s (name, e) = record {
  name = name;
  ino = resolve_view_path_inode (workspace_root name) s;
  mode = directory_mode;
}

unfoldable pub snapshot_of :
    List DirEntry → Result (List DirEntry) × View → Result DirectorySnapshot × View
snapshot_of dots (fail c, s) = (fail c, s)
snapshot_of dots (ok entries, s) =
    (ok (record { entries = dots ++ entries; first_read_pending = true }), s)

unfoldable pub build_directory_snapshot : Host → Bytes → View → Result DirectorySnapshot × View
build_directory_snapshot h path s =
    let view = parse_project_view_path path in
    snapshot_of (dot_entries view s) (
      if view.is_root
      then (ok (map (workspace_entry s) s.engines), s)
      else with_engine view (λ e. readdir h e view.relative) s)

-- The reply, with what `info->fh` points at afterwards.
abbrev pub Opened : Type 0
Opened = Status × Option DirectorySnapshot × View

unfoldable pub opened : Result DirectorySnapshot × View → Opened
opened (fail c, s) = (fail c, none, s)
opened (ok snapshot, s) = (ok tt, some snapshot, s)

unfoldable pub tri_opendir : Host → Bytes → Bool → View → Opened
tri_opendir h path has_info s =
    if not has_info then (fail ebadf, none, s) else opened (build_directory_snapshot h path s)

-- An entry that the filler takes, with the offset behind it.
abbrev pub Filled : Type 0
Filled = DirEntry × ℕ

-- The loop from an index on: the filler takes `room` entries and refuses the next.
unfoldable pub fill_from : ℕ → ℕ → List DirEntry → List Filled
fill_from room index [] = []
fill_from zero index (entry ∷ entries) = []
fill_from (suc room) index (entry ∷ entries) =
    (entry, index + 1) ∷ fill_from room (index + 1) entries

unfoldable pub read_snapshot : ℕ → ℕ → DirectorySnapshot → List Filled × DirectorySnapshot
read_snapshot room offset snapshot = (
  fill_from room offset (drop offset snapshot.entries),
  record snapshot { first_read_pending = false },
)

abbrev pub Read : Type 0
Read = Result (List Filled) × Option DirectorySnapshot × View

unfoldable pub read_refreshed : ℕ → DirectorySnapshot → Result DirectorySnapshot × View → Read
read_refreshed room old (fail c, s) = (fail c, some old, s)
read_refreshed room old (ok fresh, s) =
    let (filled, after) = read_snapshot room 0 fresh in (ok filled, some after, s)

-- Offset zero after the first read is a rewind, and reads a new snapshot. The kernel sends no negative
-- offset, which the source refuses.
unfoldable pub tri_readdir : Host → Bytes → ℕ → ℕ → Option (Option DirectorySnapshot) → View → Read
tri_readdir h path room offset none s = (fail ebadf, none, s)
tri_readdir h path room offset (some none) s = (fail ebadf, none, s)
tri_readdir h path room offset (some (some snapshot)) s =
    let (filled, after) = read_snapshot room offset snapshot in
    if (offset == 0) && not snapshot.first_read_pending
    then read_refreshed room snapshot (build_directory_snapshot h path s)
    else (ok filled, some after, s)

unfoldable pub tri_releasedir :
    Option (Option DirectorySnapshot) → Option (Option DirectorySnapshot)
tri_releasedir none = none
tri_releasedir (some snapshot) = some none
