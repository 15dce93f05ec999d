-- ===== src/FuseAdapter/Requests.antt =====
-- The table of callbacks, `create_fuse_operations` of src/fuse/fuse_adapter.cpp, for the requests that
-- can change a Workspace.
use tribios_vfs.Common.{ℕ, Bool, Bytes, Option}
use tribios_vfs.Engine.Host.{Host}
use tribios_vfs.Engine.State.{OpenFlags}
use tribios_vfs.FuseAdapter.{View}
use tribios_vfs.FuseAdapter.Files.{
  tri_open, tri_create, tri_write, tri_release, tri_mkdir, tri_unlink, tri_rmdir, tri_rename,
  tri_symlink, tri_chmod, tri_truncate, tri_utimens, tri_mknod, tri_fsync, tri_fsyncdir,
}
use tribios_vfs.FuseAdapter.Directories.{DirectorySnapshot, tri_opendir, tri_readdir}

pub data Request : Type 0 where
  opendir : Bytes → Bool → Request
  readdir : Bytes → ℕ → ℕ → Option (Option DirectorySnapshot) → Request
  open_file : Bytes → OpenFlags → Request
  create : Bytes → ℕ → Request
  write : Bytes → ℕ → Bytes → ℕ → Request
  release : Bytes → ℕ → Request
  mkdir : Bytes → ℕ → Request
  unlink : Bytes → Request
  rmdir : Bytes → Request
  rename : Bytes → Bytes → ℕ → Request
  symlink : Bytes → Bytes → Request
  chmod : Bytes → ℕ → Request
  truncate : Bytes → ℕ → Request
  utimens : Bytes → ℕ → ℕ → Request
  mknod : Bytes → ℕ → Request
  fsync : Bytes → Bool → Option ℕ → Request
  fsyncdir : Bytes → Bool → Request

-- The path that says which engine the request goes to.
unfoldable pub path_of : Request → Bytes
path_of (opendir path i) = path
path_of (readdir path r o i) = path
path_of (open_file path f) = path
path_of (create path m) = path
path_of (write path fd b o) = path
path_of (release path fd) = path
path_of (mkdir path m) = path
path_of (unlink path) = path
path_of (rmdir path) = path
path_of (rename from to f) = from
path_of (symlink target path) = path
path_of (chmod path m) = path
path_of (truncate path n) = path
path_of (utimens path a m) = path
path_of (mknod path m) = path
path_of (fsync path d i) = path
path_of (fsyncdir path d) = path

-- The engines after the callback.
unfoldable pub serve : Host → Request → View → View
serve h (opendir path i) s = (tri_opendir h path i s).2
serve h (readdir path r o i) s = (tri_readdir h path r o i s).2
serve h (open_file path f) s = (tri_open h path f s).1
serve h (create path m) s = (tri_create h path m s).1
serve h (write path fd b o) s = (tri_write h path fd b o s).1
serve h (release path fd) s = tri_release path fd s
serve h (mkdir path m) s = (tri_mkdir h path m s).1
serve h (unlink path) s = (tri_unlink h path s).1
serve h (rmdir path) s = (tri_rmdir h path s).1
serve h (rename from to f) s = (tri_rename h from to f s).1
serve h (symlink target path) s = (tri_symlink h target path s).1
serve h (chmod path m) s = (tri_chmod h path m s).1
serve h (truncate path n) s = (tri_truncate h path n s).1
serve h (utimens path a m) s = (tri_utimens h path a m s).1
serve h (mknod path m) s = (tri_mknod h path m s).1
serve h (fsync path d i) s = (tri_fsync h path d i s).1
serve h (fsyncdir path d) s = (tri_fsyncdir h path d s).1
