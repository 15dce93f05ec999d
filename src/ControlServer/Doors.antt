-- ===== src/ControlServer/Doors.antt =====
-- The two ways to change a Workspace: a request on the control socket (src/daemon/control_server.cpp) and
-- a request through the mount (src/fuse/fuse_adapter.cpp).
use tribios_vfs.Common.{
  true, false, List, [], ◌∷◌, Bytes, codes, bytes_eq, is_empty, Option, none, some, ◌≡◌, refl, sym,
  ap, ◌∙◌,
}
use tribios_vfs.Paths.{normalize_relative}
use tribios_vfs.Engine.Host.{Host}
use tribios_vfs.Engine.State.{Engine}
use tribios_vfs.Engine.Publish.{Status}
use tribios_vfs.Engine.Mutations.{mkdir, unlink, rmdir, symlink, chmod, truncate, utimens}
use tribios_vfs.Projects.Names.{is_valid_workspace_name}
use tribios_vfs.FuseAdapter.{
  View, parse_project_view_path, find_engine, put_engine, find_workspace_engine_for_view_path, call,
  with_engine,
}
use tribios_vfs.FuseAdapter.Files.{
  tri_mkdir, tri_unlink, tri_rmdir, tri_symlink, tri_chmod, tri_truncate, tri_utimens,
}
use tribios_vfs.FuseAdapter.Requests.{Request, serve}
use tribios_vfs.FuseAdapter.Paths.{
  mounted_at, parse_project_view_path-mounted_at, valid_name-IsSegment,
}
use tribios_vfs.ControlServer.Replies.{Libc, request_argument}
use tribios_vfs.ControlServer.Files.{
  status_of, dispatch_filesystem_query, dispatch_filesystem_mutation, answered, mutate, dispatch_in,
  dispatch_filesystem_request,
}

-- A change of the entry at a path, its numbers as the texts of a control request.
pub data Act : Type 0 where
  make_directory : Act
  remove_file : Act
  remove_directory : Act
  link_to : Bytes → Act
  change_mode : Bytes → Act
  cut : Bytes → Act
  stamp : Bytes → Bytes → Act

abbrev pub verb_of : Act → Bytes
verb_of make_directory = codes "fs.mkdir"
verb_of remove_file = codes "fs.rm"
verb_of remove_directory = codes "fs.rmdir"
verb_of (link_to target) = codes "fs.symlink"
verb_of (change_mode text) = codes "fs.chmod"
verb_of (cut text) = codes "fs.truncate"
verb_of (stamp a b) = codes "fs.utimens"

-- The fields of the control request. That of a link has the target before the path.
abbrev pub control_request : Act → Bytes → Bytes → List Bytes
control_request make_directory name path = codes "fs.mkdir" ∷ name ∷ path ∷ []
control_request remove_file name path = codes "fs.rm" ∷ name ∷ path ∷ []
control_request remove_directory name path = codes "fs.rmdir" ∷ name ∷ path ∷ []
control_request (link_to target) name path = codes "fs.symlink" ∷ name ∷ target ∷ path ∷ []
control_request (change_mode text) name path = codes "fs.chmod" ∷ name ∷ path ∷ text ∷ []
control_request (cut text) name path = codes "fs.truncate" ∷ name ∷ path ∷ text ∷ []
control_request (stamp a b) name path = codes "fs.utimens" ∷ name ∷ path ∷ a ∷ b ∷ []

abbrev pub fuse_request : Libc → Act → Bytes → Bytes → Request
fuse_request libc make_directory name path = Request.mkdir (mounted_at name path) 0o755
fuse_request libc remove_file name path = Request.unlink (mounted_at name path)
fuse_request libc remove_directory name path = Request.rmdir (mounted_at name path)
fuse_request libc (link_to target) name path = Request.symlink target (mounted_at name path)
fuse_request libc (change_mode text) name path =
    Request.chmod (mounted_at name path) (libc.strtoull text 8)
fuse_request libc (cut text) name path =
    Request.truncate (mounted_at name path) (libc.strtoull text 10)
fuse_request libc (stamp a b) name path =
    Request.utimens (mounted_at name path) (libc.strtoll a 10) (libc.strtoll b 10)

-- What the engine does.
abbrev effect : Libc → Host → Act → Bytes → Engine → Status × Engine
effect libc h make_directory path = mkdir h path 0o755
effect libc h remove_file path = unlink h path
effect libc h remove_directory path = rmdir h path
effect libc h (link_to target) path = symlink h target path
effect libc h (change_mode text) path = chmod h path (libc.strtoull text 8)
effect libc h (cut text) path = truncate h path (libc.strtoull text 10)
effect libc h (stamp a b) path = utimens h path (libc.strtoll a 10) (libc.strtoll b 10)

not_empty : (s : Bytes) → (s ≡ [] → ⊥) → is_empty s ≡ false
not_empty [] h = absurd (h refl)
not_empty (c ∷ s) h = refl

module _ (libc : Libc) (h : Host) (name path : Bytes) where
  dispatched :
      (act : Act) (e : Engine) (s : View)
      → (dispatch_in libc h (verb_of act) (control_request act name path) (some e) s).2
        ≡ record { engines = put_engine name (effect libc h act path e).1 s.engines }
  unfolding dispatch_in dispatch_filesystem_query answered mutate dispatch_filesystem_mutation
      request_argument status_of bytes_eq
  dispatched make_directory e s = refl
  dispatched remove_file e s = refl
  dispatched remove_directory e s = refl
  dispatched (link_to target) e s = refl
  dispatched (change_mode text) e s = refl
  dispatched (cut text) e s = refl
  dispatched (stamp a b) e s = refl

  -- Without an engine, nothing changes.
  missed :
      (act : Act) (s : View)
      → (dispatch_in libc h (verb_of act) (control_request act name path) none s).2 ≡ s
  unfolding dispatch_in
  missed act s = refl

  through_mount :
      (act : Act) (s : View)
      → serve h (fuse_request libc act name path) s
        ≡ (with_engine
            (parse_project_view_path (mounted_at name path))
            (effect libc h act (parse_project_view_path (mounted_at name path)).relative)
            s).1
  unfolding serve tri_mkdir tri_unlink tri_rmdir tri_symlink tri_chmod tri_truncate tri_utimens
  through_mount make_directory s = refl
  through_mount remove_file s = refl
  through_mount remove_directory s = refl
  through_mount (link_to target) s = refl
  through_mount (change_mode text) s = refl
  through_mount (cut text) s = refl
  through_mount (stamp a b) s = refl

  served :
      (act : Act) (s : View)
      → is_valid_workspace_name name ≡ true
      → normalize_relative path ≡ path
      → serve h (fuse_request libc act name path) s
        ≡ (with_engine
            (record { workspace = name; relative = path; is_root = false })
            (effect libc h act path)
            s).1
  served act s valid normal =
      through_mount act s
      ∙ ap (λ view. (with_engine view (effect libc h act view.relative) s).1)
          (parse_project_view_path-mounted_at name path valid normal)

  named : is_valid_workspace_name name ≡ true → is_empty name ≡ false
  named valid = not_empty name (valid_name-IsSegment name valid).named

  -- `name` and the path of the control request, with the engine that they lead to.
  both :
      (act : Act) (s : View) (o : Option Engine)
      → (dispatch_in libc h (verb_of act) (control_request act name path) o s).2
        ≡ (call name o (effect libc h act path) s).1
  unfolding call
  both act s none = missed act s
  both act s (some e) = dispatched act e s

  requested :
      (act : Act) (s : View)
      → (dispatch_filesystem_request libc h (verb_of act) (control_request act name path) s).2
        ≡ (dispatch_in libc h
            (verb_of act)
            (control_request act name path)
            (find_engine name s.engines)
            s).2
  unfolding dispatch_filesystem_request request_argument
  requested make_directory s = refl
  requested remove_file s = refl
  requested remove_directory s = refl
  requested (link_to target) s = refl
  requested (change_mode text) s = refl
  requested (cut text) s = refl
  requested (stamp a b) s = refl

  -- Making or removing a directory, removing a file, making a link, and changing a mode, a length or
  -- times has the same effect on every engine through the control socket as through the mount, for
  -- every name that `create_workspace` accepts, every path in normal form, and every state.
  pub dispatch_filesystem_request-serve :
      (act : Act) (s : View)
      → is_valid_workspace_name name ≡ true
      → normalize_relative path ≡ path
      → (dispatch_filesystem_request libc h (verb_of act) (control_request act name path) s).2
        ≡ serve h (fuse_request libc act name path) s
  unfolding with_engine find_workspace_engine_for_view_path
  dispatch_filesystem_request-serve act s valid normal =
      let found : find_workspace_engine_for_view_path
            (record { workspace = name; relative = path; is_root = false }) s
          ≡ find_engine name s.engines =
        rw (named valid) refl in
      requested act s
      ∙ both act s (find_engine name s.engines)
      ∙ ap (λ o. (call name o (effect libc h act path) s).1) (sym found)
      ∙ sym (served act s valid normal)
