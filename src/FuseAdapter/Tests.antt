-- ===== src/FuseAdapter/Tests.antt =====
-- The theorems of the mount, at a view of two Workspaces.
use tribios_vfs.Common.{true, false, List, [], ◌∷◌, Bytes, codes, bytes_eq, none, ◌≡◌, refl, arith}
use tribios_vfs.Paths.{normalize_relative, take_segments, take_segment, write_segments}
use tribios_vfs.Store.Sql.{Sqlite}
use tribios_vfs.Engine.Host.{Host, Node, dir}
use tribios_vfs.Engine.State.{Engine, DirEntry}
use tribios_vfs.Projects.Names.{is_alnum, is_allowed, all_allowed, is_valid_workspace_name}
use tribios_vfs.FuseAdapter.{View, parse_project_view_path}
use tribios_vfs.FuseAdapter.Requests.{Request, mkdir}
use tribios_vfs.FuseAdapter.Pages.{read_pages, read_pages-entries}
use tribios_vfs.FuseAdapter.Paths.{
  IsView, mounted_at, parse_project_view_path-IsView, parse_project_view_path-mounted_at,
}

abbrev sqlite : Sqlite
sqlite = record {
  refuses = λ _. false;
  rows_read = λ _. none;
  stays_open = false;
  message = λ _. [];
  like = bytes_eq;
  now = 7;
}

abbrev host : Host
host = record {
  fault = λ _. 0;
  inode = λ _. 40;
  created_mode = λ mode. mode;
  written = λ n. n;
  reports_types = true;
  clock = 9;
  sql = sqlite;
}

abbrev top : Node
top = record { kind = dir; mode = 0o755; body = []; atime = 1; mtime = 2; ino = 1 }

abbrev engine : Bytes → Engine
engine name = record {
  workspace = name;
  inode_salt = 3;
  base = ([], top) ∷ [];
  upper = ([], top) ∷ [];
  stages = [];
  db = record {
    project = none;
    workspaces = [];
    tombstones = [];
    operations = [];
    next_operation = 1;
    diagnostics = [];
    next_diagnostic = 1;
  };
  tombstones = [];
  cache = [];
  handles = [];
  next_handle = 3;
}

abbrev view : View
view = record { engines = (codes "a", engine (codes "a")) ∷ (codes "b", engine (codes "b")) ∷ [] }

abbrev listing : List DirEntry
listing =
    record { name = codes "."; ino = 4; mode = 0o040000 }
    ∷ record { name = codes ".."; ino = 1; mode = 0o040000 }
    ∷ record { name = codes "f"; ino = 9; mode = 0o100000 }
    ∷ []

abbrev request : Request
request = mkdir (codes "/a/d") 0o755

read_pages-entries_example :
    read_pages host
      (codes "/a")
      (2 ∷ 1 ∷ 5 ∷ [])
      0
      (record { entries = listing; first_read_pending = true })
      view
    ≡ listing
read_pages-entries_example =
    read_pages-entries host (codes "/a") listing view (2 ∷ 1 ∷ 5 ∷ [])
      (omega arith, (omega arith, (omega arith, tt))) (omega arith) (omega arith)

parse_project_view_path-IsView_example : IsView (parse_project_view_path (codes "/a/../../etc"))
parse_project_view_path-IsView_example = parse_project_view_path-IsView (codes "/a/../../etc")

valid_name : is_valid_workspace_name (codes "my-app_2.0") ≡ true
unfolding is_valid_workspace_name all_allowed is_allowed is_alnum bytes_eq
valid_name = refl

normal_path : normalize_relative (codes "src/main.cpp") ≡ codes "src/main.cpp"
unfolding normalize_relative take_segments take_segment write_segments bytes_eq
normal_path = refl

parse_project_view_path-mounted_at_example :
    parse_project_view_path (mounted_at (codes "my-app_2.0") (codes "src/main.cpp"))
    ≡ record { workspace = codes "my-app_2.0"; relative = codes "src/main.cpp"; is_root = false }
parse_project_view_path-mounted_at_example =
    parse_project_view_path-mounted_at (codes "my-app_2.0") (codes "src/main.cpp") valid_name
      normal_path
