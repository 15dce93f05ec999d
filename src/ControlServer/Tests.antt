-- ===== src/ControlServer/Tests.antt =====
-- A directory that is made through the control socket, at a view of one Workspace.
use tribios_vfs.Common.{true, false, [], ◌∷◌, codes, bytes_eq, none, length, ◌≡◌, refl}
use tribios_vfs.Paths.{normalize_relative, take_segments, take_segment, write_segments}
use tribios_vfs.Store.Sql.{Sqlite}
use tribios_vfs.Engine.Host.{Host, Node, dir}
use tribios_vfs.Engine.State.{Engine}
use tribios_vfs.Projects.Names.{is_alnum, is_allowed, all_allowed, is_valid_workspace_name}
use tribios_vfs.FuseAdapter.{View}
use tribios_vfs.FuseAdapter.Requests.{serve}
use tribios_vfs.ControlServer.Replies.{Libc}
use tribios_vfs.ControlServer.Files.{dispatch_filesystem_request}
use tribios_vfs.ControlServer.Doors.{
  make_directory, verb_of, control_request, fuse_request, dispatch_filesystem_request-serve,
}

abbrev libc : Libc
libc = record {
  strerror = λ _. codes "error";
  strtoull = λ text base. length text;
  strtoll = λ text base. length text;
  upper_bytes = λ t. length t;
}

abbrev sqlite : Sqlite
sqlite = record {
  refuses = λ _. false;
  rows_read = λ _. none;
  stays_open = false;
  message = λ _. [];
  like = bytes_eq;
  now = 7;
}

abbrev host : Host
host = record {
  fault = λ _. 0;
  inode = λ _. 40;
  created_mode = λ mode. mode;
  written = λ n. n;
  reports_types = true;
  clock = 9;
  sql = sqlite;
}

abbrev top : Node
top = record { kind = dir; mode = 0o755; body = []; atime = 1; mtime = 2; ino = 1 }

abbrev engine : Engine
engine = record {
  workspace = codes "app";
  inode_salt = 3;
  base = ([], top) ∷ [];
  upper = ([], top) ∷ [];
  stages = [];
  db = record {
    project = none;
    workspaces = [];
    tombstones = [];
    operations = [];
    next_operation = 1;
    diagnostics = [];
    next_diagnostic = 1;
  };
  tombstones = [];
  cache = [];
  handles = [];
  next_handle = 3;
}

abbrev view : View
view = record { engines = (codes "app", engine) ∷ [] }

valid_name : is_valid_workspace_name (codes "app") ≡ true
unfolding is_valid_workspace_name all_allowed is_allowed is_alnum bytes_eq
valid_name = refl

normal_path : normalize_relative (codes "d") ≡ codes "d"
unfolding normalize_relative take_segments take_segment write_segments bytes_eq
normal_path = refl

dispatch_filesystem_request-serve_example :
    (dispatch_filesystem_request libc host
      (verb_of make_directory)
      (control_request make_directory (codes "app") (codes "d"))
      view).2
    ≡ serve host (fuse_request libc make_directory (codes "app") (codes "d")) view
dispatch_filesystem_request-serve_example =
    dispatch_filesystem_request-serve libc host (codes "app") (codes "d") make_directory view
      valid_name normal_path
