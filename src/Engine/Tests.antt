-- ===== src/Engine/Tests.antt =====
-- The theorems of the engine at a small Workspace: a directory with one file, on both layers.
use tribios_vfs.Common.{
  Bytes, ℕ, true, false, [], ◌∷◌, codes, bytes_eq, starts_with, none, not, ◌≡◌, ◌≢◌, refl, arith,
}
use tribios_vfs.Paths.{normalize_relative}
use tribios_vfs.Store.Types.{Database, RecoveryOperation, prepared}
use tribios_vfs.Store.Sql.{Sqlite}
use tribios_vfs.Engine.Host.{Node, Tree, Host, ok, Kind, reg, dir, lstat, within}
use tribios_vfs.Engine.State.{Engine}
use tribios_vfs.Engine.Inode.{
  workspace_inode_salt, salted_workspace_inode, salted_workspace_inode-ne-zero,
}
use tribios_vfs.Engine.Visible.{base_is_visible}
use tribios_vfs.Engine.Hiding.{hides, base_is_visible_lem}
use tribios_vfs.Engine.Outcomes.{SettlesCleanly}
use tribios_vfs.Engine.Publish.{publish_staged_operation}
use tribios_vfs.Engine.Whole.{Settled, publish_staged_operation-Settled}
use tribios_vfs.Engine.Mutations.{unlink, rmdir}
use tribios_vfs.Engine.Removal.{IsClosed, GoneAt, HasNoLinkAbove, IsDirect, unlink-Gone, rmdir-Gone}

abbrev sqlite : Sqlite
sqlite = record {
  refuses = λ _. false;
  rows_read = λ _. none;
  stays_open = false;
  message = λ _. [];
  like = bytes_eq;
  now = 7;
}

abbrev host : Host
host = record {
  fault = λ _. 0;
  inode = λ _. 40;
  created_mode = λ mode. mode;
  written = λ n. n;
  reports_types = true;
  clock = 9;
  sql = sqlite;
}

abbrev node : Kind → ℕ → Node
node kind ino = record {
  kind = kind;
  mode = 0o644;
  body = codes "hi";
  atime = 1;
  mtime = 2;
  ino = ino;
}

abbrev tree : Tree
tree = ([], node dir 1) ∷ (codes "a", node reg 2) ∷ (codes "d", node dir 4) ∷ []

abbrev empty : Database
empty = record {
  project = none;
  workspaces = [];
  tombstones = [];
  operations = [];
  next_operation = 1;
  diagnostics = [];
  next_diagnostic = 1;
}

abbrev engine : Engine
engine = record {
  workspace = codes "w";
  inode_salt = 5;
  base = tree;
  upper = tree;
  stages = [];
  db = empty;
  tombstones = [];
  cache = [];
  handles = [];
  next_handle = 1;
}

abbrev creation : RecoveryOperation
creation = record {
  id = 0;
  workspace = codes "w";
  kind = codes "create";
  path = codes "b";
  target = [];
  phase = prepared;
  add_path_tombstone = false;
  drop_target_tombstones = false;
}

abbrev new_file : Tree
new_file = ([], node reg 3) ∷ []

tree-IsClosed : IsClosed tree
unfolding within lstat bytes_eq starts_with
tree-IsClosed p [] w n = ground (arith)
tree-IsClosed p (c ∷ d ∷ q) w n = ground arith
tree-IsClosed [] (c ∷ []) w n = absurd cc
tree-IsClosed (b ∷ []) (c ∷ []) w n = ground arith
tree-IsClosed (b ∷ d ∷ p) (c ∷ []) w n = ground arith

salted_workspace_inode-ne-zero_example :
    salted_workspace_inode (workspace_inode_salt (codes "w")) 12 ≢ 0
salted_workspace_inode-ne-zero_example =
    salted_workspace_inode-ne-zero (workspace_inode_salt (codes "w")) 12

base_is_visible_lem_example :
    base_is_visible (codes "docs" ∷ []) (codes "docs/a")
    ≡ not (hides (codes "docs" ∷ []) (codes "docs/a"))
base_is_visible_lem_example = base_is_visible_lem (codes "docs" ∷ []) (codes "docs/a")

host-SettlesCleanly : SettlesCleanly host
host-SettlesCleanly = record {
  synced = refl;
  removed = refl;
  begins = refl;
  inserts = refl;
  deletes = refl;
  settles = refl;
  commits = refl;
}

publish_staged_operation-Settled_example :
    Settled host creation
      (λ _. ok new_file)
      engine
      (publish_staged_operation host creation (λ _. ok new_file) engine)
publish_staged_operation-Settled_example =
    publish_staged_operation-Settled host creation (λ _. ok new_file) engine host-SettlesCleanly

tree-HasNoLinkAbove : (path : Bytes) → HasNoLinkAbove tree path
unfolding lstat bytes_eq
tree-HasNoLinkAbove path [] n w other e = ground (arith, e)
tree-HasNoLinkAbove path (c ∷ []) n w other e = ground (arith, e)
tree-HasNoLinkAbove path (c ∷ d ∷ p) n w other e = ground (arith, e)

engine-IsDirect : (path : Bytes) → IsDirect engine path
engine-IsDirect path = record { upper = tree-HasNoLinkAbove path; base = tree-HasNoLinkAbove path }

unlink-Gone_example :
    GoneAt (normalize_relative (codes "/a")) (codes "d") engine (unlink host (codes "/a") engine)
unlink-Gone_example =
    unlink-Gone host (codes "/a") (codes "d") engine tree-IsClosed tree-IsClosed
      (engine-IsDirect (normalize_relative (codes "/a"))) (engine-IsDirect (codes "d"))

rmdir-Gone_example :
    GoneAt (normalize_relative (codes "d")) (codes "a") engine (rmdir host (codes "d") engine)
rmdir-Gone_example =
    rmdir-Gone host (codes "d") (codes "a") engine tree-IsClosed tree-IsClosed
      (engine-IsDirect (normalize_relative (codes "d"))) (engine-IsDirect (codes "a"))
