-- ===== src/ControlServer/Files.antt =====
-- Requests on files in src/daemon/control_server.cpp.
use tribios_vfs.Common.{
  ℕ, Bool, true, false, List, [], ◌∷◌, ◌++◌, Bytes, codes, bytes_eq, map, to_string, Option, none,
  some, ◌==◌, ◌&&◌, ◌||◌, not, if◌then◌else◌,
}
use tribios_vfs.Paths.{normalize_relative}
use tribios_vfs.Engine.Host.{Host, Result, ok, fail}
use tribios_vfs.Engine.State.{Engine, Attr, DirEntry}
use tribios_vfs.Engine.Visible.{getattr, readlink}
use tribios_vfs.Engine.Listing.{readdir}
use tribios_vfs.Engine.Publish.{Status}
use tribios_vfs.Engine.Handles.{read_file, write_file}
use tribios_vfs.Engine.Syncing.{fsync_path}
use tribios_vfs.Engine.Mutations.{
  create, mkdir, symlink, unlink, rmdir, rename, chmod, utimens, truncate,
}
use tribios_vfs.FuseAdapter.{View, find_engine, put_engine}
use tribios_vfs.FuseAdapter.Files.{enotsup}
use tribios_vfs.ControlServer.Replies.{
  Libc, Change, ControlReply, ok_reply, error_reply, errno_error_reply, filesystem_status_reply,
  format_file_mode, request_argument, signed_text,
}

module _ (libc : Libc) (h : Host) where
  unfoldable pub stat_reply : Result Attr → ControlReply
  stat_reply (fail c) = errno_error_reply libc c
  stat_reply (ok a) = ok_reply (
      format_file_mode a.mode
      ∷ to_string a.size
      ∷ (if a.from_upper then codes "upper" else codes "base")
      ∷ signed_text a.mtime
      ∷ [])

  unfoldable pub names_reply : Result (List DirEntry) → ControlReply
  names_reply (fail c) = errno_error_reply libc c
  names_reply (ok entries) = ok_reply (map (λ (e : DirEntry). e.name) entries)

  unfoldable pub bytes_reply : Result Bytes → ControlReply
  bytes_reply (fail c) = errno_error_reply libc c
  bytes_reply (ok bytes) = ok_reply (bytes ∷ [])

  unfoldable pub with_names : Result (List DirEntry) × Engine → ControlReply × Engine
  with_names (r, e) = (names_reply r, e)

  unfoldable pub with_bytes : Result Bytes × Engine → ControlReply × Engine
  with_bytes (r, e) = (bytes_reply r, e)

  unfoldable pub read_sized : Bytes → Engine → Result Attr → ControlReply × Engine
  read_sized path e (fail c) = (errno_error_reply libc c, e)
  read_sized path e (ok a) = with_bytes (read_file h path a.size 0 e)

  -- A listing or a read may fill the engine's cache or its table of handles.
  unfoldable pub dispatch_filesystem_query : Bytes → Bytes → Engine → Option (ControlReply × Engine)
  dispatch_filesystem_query verb path e =
      if bytes_eq verb (codes "stats.upper")
      then some (ok_reply (to_string (libc.upper_bytes e.upper) ∷ []), e)
      else if bytes_eq verb (codes "fs.stat")
      then some (stat_reply (getattr e path), e)
      else if bytes_eq verb (codes "fs.ls")
      then some (with_names (readdir h e path))
      else if bytes_eq verb (codes "fs.read")
      then some (read_sized path e (getattr e path))
      else if bytes_eq verb (codes "fs.readlink")
      then some (bytes_reply (readlink h e path), e)
      else none

  unfoldable pub status_of : Status × Engine → ControlReply × Engine
  status_of (r, e) = (filesystem_status_reply libc r, e)

  unfoldable pub trimmed : ℕ → Status × Engine → ControlReply × Engine
  trimmed n (fail c, e) = (errno_error_reply libc c, e)
  trimmed n (ok u, e) = (ok_reply (to_string n ∷ []), e)

  -- A write at the start gives the file its whole contents.
  unfoldable pub written : Bytes → ℕ → Result ℕ × Engine → ControlReply × Engine
  written path offset (fail c, e) = (errno_error_reply libc c, e)
  written path offset (ok n, e) =
      if offset == 0 then trimmed n (truncate h path n e) else (ok_reply (to_string n ∷ []), e)

  unfoldable pub is_unsupported : Bytes → Bool
  is_unsupported verb =
      bytes_eq verb (codes "fs.hardlink")
      || bytes_eq verb (codes "fs.setxattr")
      || bytes_eq verb (codes "fs.getxattr")
      || bytes_eq verb (codes "fs.lock")
      || bytes_eq verb (codes "fs.mknod")

  unfoldable pub dispatch_filesystem_mutation :
      Bytes → List Bytes → Bytes → Engine → ControlReply × Engine
  dispatch_filesystem_mutation verb request path e =
      let third = request_argument request 3 in
      let fourth = request_argument request 4 in
      let offset = libc.strtoull fourth 10 in
      if bytes_eq verb (codes "fs.write")
      then written path offset (write_file h path third offset e)
      else if bytes_eq verb (codes "fs.create")
      then status_of (create h path 0o644 e)
      else if bytes_eq verb (codes "fs.mkdir")
      then status_of (mkdir h path 0o755 e)
      else if bytes_eq verb (codes "fs.rm")
      then status_of (unlink h path e)
      else if bytes_eq verb (codes "fs.rmdir")
      then status_of (rmdir h path e)
      else if bytes_eq verb (codes "fs.mv")
      then status_of (rename h path third e)
      else if bytes_eq verb (codes "fs.symlink")
      then status_of (symlink h path third e)
      else if bytes_eq verb (codes "fs.chmod")
      then status_of (chmod h path (libc.strtoull third 8) e)
      else if bytes_eq verb (codes "fs.truncate")
      then status_of (truncate h path (libc.strtoull third 10) e)
      else if bytes_eq verb (codes "fs.utimens")
      then status_of (utimens h path (libc.strtoll third 10) (libc.strtoll fourth 10) e)
      else if bytes_eq verb (codes "fs.fsync")
      then (filesystem_status_reply libc (fsync_path h path false false e), e)
      else if bytes_eq verb (codes "fs.fsyncdir")
      then (filesystem_status_reply libc (fsync_path h path false true e), e)
      else if is_unsupported verb
      then (errno_error_reply libc enotsup, e)
      else (error_reply (codes "unknown filesystem request: " ++ verb), e)

  unfoldable pub inode_or_none : Result Attr → Option ℕ
  inode_or_none (fail c) = none
  inode_or_none (ok a) = some a.ino

  unfoldable pub find_path_inode : Engine → Bytes → Option ℕ
  find_path_inode e path = inode_or_none (getattr e path)

  unfoldable pub same_inode : Option ℕ → Option ℕ → Bool
  same_inode none none = true
  same_inode (some i) (some j) = i == j
  same_inode _ _ = false

  unfoldable pub reported : Bytes → Bytes → Bool → Change
  reported workspace path unlinked = record {
    workspace = workspace;
    path = path;
    unlinked = unlinked;
  }

  -- `e` is the engine after the mutation, and the inodes are those before it.
  unfoldable pub report_filesystem_mutation :
      Engine → Bytes → List Bytes → Option ℕ → Option ℕ → List Change
  report_filesystem_mutation e verb request before second_before =
      let workspace = request_argument request 1 in
      let path = request_argument request 2 in
      let destination = request_argument request 3 in
      let onto_itself = bytes_eq (normalize_relative path) (normalize_relative destination) in
      let path_changed = not (same_inode (find_path_inode e path) before) in
      let destination_changed = not (same_inode (find_path_inode e destination) second_before) in
      if bytes_eq verb (codes "fs.rm") || bytes_eq verb (codes "fs.rmdir")
      then reported workspace path path_changed ∷ []
      else if bytes_eq verb (codes "fs.mv")
      then reported workspace path (not onto_itself && path_changed)
        ∷ reported workspace destination (not onto_itself && destination_changed)
        ∷ []
      else if bytes_eq verb (codes "fs.symlink")
      then reported workspace destination false ∷ []
      else reported workspace path false ∷ []

  unfoldable pub answered :
      Bytes
      → View
      → Option (ControlReply × Engine)
      → ControlReply × List Change × View
      → ControlReply × List Change × View
  answered name s none mutated = mutated
  answered name s (some (reply, e)) mutated =
      (reply, [], record s { engines = put_engine name e s.engines })

  unfoldable pub mutate : Bytes → List Bytes → Engine → View → ControlReply × List Change × View
  mutate verb request e s =
      let path = request_argument request 2 in
      let (reply, after) = dispatch_filesystem_mutation verb request path e in
      (
        reply,
        report_filesystem_mutation after verb request (find_path_inode e path)
            (find_path_inode e (request_argument request 3)),
        record s { engines = put_engine (request_argument request 1) after s.engines },
      )

  unfoldable pub dispatch_in :
      Bytes → List Bytes → Option Engine → View → ControlReply × List Change × View
  dispatch_in verb request none s =
      (error_reply (codes "no such active Workspace: " ++ request_argument request 1), [], s)
  dispatch_in verb request (some e) s =
      answered (request_argument request 1) s
        (dispatch_filesystem_query verb (request_argument request 2) e) (mutate verb request e s)

  -- With a handler, to which the changes are reported.
  unfoldable pub dispatch_filesystem_request :
      Bytes → List Bytes → View → ControlReply × List Change × View
  dispatch_filesystem_request verb request s =
      dispatch_in verb request (find_engine (request_argument request 1) s.engines) s
