-- ===== src/FuseAdapter/Files.antt =====
-- The callbacks on files and names of src/fuse/fuse_adapter.cpp. A failure `fail c` is the reply `-c`.
use tribios_vfs.Common.{
  ℕ, ◌-◌, ◌/◌, ◌%◌, Bool, true, false, Bytes, bytes_eq, take, Option, none, some, ◌==◌, ◌&&◌, not,
  if◌then◌else◌,
}
use tribios_vfs.Engine.Host.{Host, Result, ok, fail, enoent, ebadf}
use tribios_vfs.Engine.State.{Engine, OpenFlags}
use tribios_vfs.Engine.Visible.{readlink}
use tribios_vfs.Engine.Publish.{Status}
use tribios_vfs.Engine.Handles.{open_handle, read_handle, write_handle, close_handle}
use tribios_vfs.Engine.Syncing.{fsync_handle, fsync_path}
use tribios_vfs.Engine.Mutations.{
  create, mkdir, symlink, unlink, rmdir, rename, chmod, utimens, truncate,
}
use tribios_vfs.FuseAdapter.{
  ViewPath, View, Owner, parse_project_view_path, find_workspace_engine_for_view_path, with_engine,
}

abbrev pub exdev : ℕ
exdev = 18

abbrev pub enotsup : ℕ
enotsup = 95

-- `S_ISREG`.
unfoldable pub is_regular_mode : ℕ → Bool
is_regular_mode mode = mode / 4096 % 16 == 8

abbrev pub read_write_flags : OpenFlags
read_write_flags = record {
  write_only = false;
  read_write = true;
  append = false;
  create = false;
  exclusive = false;
  truncate = false;
}

-- A call that changes nothing.
unfoldable pub query {ℓ} : {A : Type ℓ} → (Engine → Result A) → Engine → Result A × Engine
query f e = (f e, e)

-- The buffer holds the target up to its last byte, which is zero.
unfoldable pub link_text : ℕ → Result Bytes → Result Bytes
link_text size (fail c) = fail c
link_text size (ok target) = ok (take (size - 1) target)

unfoldable pub readlink_in : Host → Bytes → ℕ → Option Engine → Result Bytes
readlink_in h relative size none = fail enoent
readlink_in h relative size (some e) = link_text size (readlink h e relative)

unfoldable pub tri_readlink : Host → Bytes → ℕ → View → Result Bytes
tri_readlink h path size s =
    let view = parse_project_view_path path in
    readlink_in h view.relative size (find_workspace_engine_for_view_path view s)

unfoldable pub tri_open : Host → Bytes → OpenFlags → View → Result ℕ × View
tri_open h path flags s =
    let view = parse_project_view_path path in
    with_engine view (open_handle h view.relative flags) s

unfoldable pub open_created : Host → Bytes → Status × Engine → Result ℕ × Engine
open_created h relative (fail c, e) = (fail c, e)
open_created h relative (ok u, e) = open_handle h relative read_write_flags e

unfoldable pub tri_create : Host → Bytes → ℕ → View → Result ℕ × View
tri_create h path mode s =
    let view = parse_project_view_path path in
    with_engine view (λ e. open_created h view.relative (create h view.relative mode e)) s

unfoldable pub read_in : Host → ℕ → ℕ → ℕ → Option Engine → Result Bytes
read_in h fd size offset none = fail enoent
read_in h fd size offset (some e) = read_handle h fd size offset e

unfoldable pub tri_read : Host → Bytes → ℕ → ℕ → ℕ → View → Result Bytes
tri_read h path fd size offset s =
    read_in h fd size offset (find_workspace_engine_for_view_path (parse_project_view_path path) s)

unfoldable pub tri_write : Host → Bytes → ℕ → Bytes → ℕ → View → Result ℕ × View
tri_write h path fd buffer offset s =
    with_engine (parse_project_view_path path) (write_handle h fd buffer offset) s

unfoldable pub release_in : ℕ → Engine → Result (Unit {0}) × Engine
release_in fd e = (ok tt, close_handle fd e)

-- A release never fails.
unfoldable pub tri_release : Bytes → ℕ → View → View
tri_release path fd s = (with_engine (parse_project_view_path path) (release_in fd) s).1

unfoldable pub tri_mkdir : Host → Bytes → ℕ → View → Status × View
tri_mkdir h path mode s =
    let view = parse_project_view_path path in with_engine view (mkdir h view.relative mode) s

unfoldable pub tri_unlink : Host → Bytes → View → Status × View
tri_unlink h path s =
    let view = parse_project_view_path path in with_engine view (unlink h view.relative) s

unfoldable pub tri_rmdir : Host → Bytes → View → Status × View
tri_rmdir h path s =
    let view = parse_project_view_path path in with_engine view (rmdir h view.relative) s

unfoldable pub rename_between : Host → ViewPath → ViewPath → Option Engine → View → Status × View
rename_between h from_view to_view none s = (fail enoent, s)
rename_between h from_view to_view (some e) s =
    if bytes_eq from_view.workspace to_view.workspace
    then with_engine from_view (rename h from_view.relative to_view.relative) s
    else (fail exdev, s)

unfoldable pub tri_rename : Host → Bytes → Bytes → ℕ → View → Status × View
tri_rename h from to flags s =
    let from_view = parse_project_view_path from in
    if not (flags == 0)
    then (fail enotsup, s)
    else rename_between h from_view (parse_project_view_path to)
        (find_workspace_engine_for_view_path from_view s) s

unfoldable pub tri_symlink : Host → Bytes → Bytes → View → Status × View
tri_symlink h target link_path s =
    let view = parse_project_view_path link_path in
    with_engine view (symlink h target view.relative) s

unfoldable pub tri_chmod : Host → Bytes → ℕ → View → Status × View
tri_chmod h path mode s =
    let view = parse_project_view_path path in with_engine view (chmod h view.relative mode) s

unfoldable pub tri_chown : Owner → ℕ → ℕ → Status
tri_chown o uid gid = if (uid == o.uid) && (gid == o.gid) then ok tt else fail enotsup

unfoldable pub tri_truncate : Host → Bytes → ℕ → View → Status × View
tri_truncate h path size s =
    let view = parse_project_view_path path in with_engine view (truncate h view.relative size) s

unfoldable pub tri_utimens : Host → Bytes → ℕ → ℕ → View → Status × View
tri_utimens h path atime mtime s =
    let view = parse_project_view_path path in
    with_engine view (utimens h view.relative atime mtime) s

unfoldable pub tri_mknod : Host → Bytes → ℕ → View → Status × View
tri_mknod h path mode s =
    let view = parse_project_view_path path in
    if not (is_regular_mode mode)
    then (fail enotsup, s)
    else with_engine view (create h view.relative mode) s

-- `info` is the open file's handle, or nothing where FUSE passes a null pointer.
unfoldable pub tri_fsync : Host → Bytes → Bool → Option ℕ → View → Status × View
tri_fsync h path data_only none s = (fail ebadf, s)
tri_fsync h path data_only (some fd) s =
    with_engine (parse_project_view_path path) (query (fsync_handle h fd data_only)) s

unfoldable pub tri_flush : Option ℕ → Status
tri_flush none = fail ebadf
tri_flush (some fd) = ok tt

unfoldable pub tri_fsyncdir : Host → Bytes → Bool → View → Status × View
tri_fsyncdir h path data_only s =
    let view = parse_project_view_path path in
    with_engine view (query (fsync_path h view.relative data_only true)) s

-- `tri_link`, `tri_setxattr`, `tri_getxattr`, `tri_listxattr`, `tri_removexattr` and `tri_lock`.
unfoldable pub unsupported : Status
unsupported = fail enotsup
