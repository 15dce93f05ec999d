-- ===== src/Projects/Tests.antt =====
-- A Project with one Workspace, whose creation or removal is interrupted.
use tribios_vfs.Common.{none, Bool, true, false, [], codes, bytes_eq, some, refl}
use tribios_vfs.Store.Types.{ProjectRecord}
use tribios_vfs.Store.Sql.{Sqlite, ok}
use tribios_vfs.Engine.Host.{Host}
use tribios_vfs.Projects.Git.{Repository}
use tribios_vfs.Projects.State.{Manager, Machine, Failpoint, create_after_git_register}
use tribios_vfs.Projects.Create.{create_workspace}
use tribios_vfs.Projects.Startup.{recover_interrupted_operations}
use tribios_vfs.Projects.Journaled.{IsRecoverable}
use tribios_vfs.Projects.Journaled.History.{
  History, here, next, creates, crashes, crashed, History-IsRecoverable,
}
use tribios_vfs.Projects.Settling.Loop.{Recovered, recover_interrupted_operations-Recovered}
use tribios_vfs.Projects.Settling.Histories.{crashed-IsKept, History-Recovered}

abbrev sqlite : Sqlite
sqlite = record {
  refuses = λ _. false;
  rows_read = λ _. none;
  stays_open = false;
  message = λ _. [];
  like = bytes_eq;
  now = 7;
}

abbrev host : Host
host = record {
  fault = λ _. 0;
  inode = λ _. 40;
  created_mode = λ mode. mode;
  written = λ n. n;
  reports_types = true;
  clock = 9;
  sql = sqlite;
}

-- A repository that keeps nothing and agrees with everything.
abbrev repository : Repository (Unit {0})
repository = record {
  run = λ arguments w. (record { succeeded = true; output = [] }, w);
  remove_dir = λ path w. w;
  make_dirs = λ path w. w;
  first_line = λ path w. codes "gitdir: /p/.git/worktrees/a";
  write_file = λ path contents w. (true, w);
  is_regular_file = λ path w. true;
  is_directory = λ path w. true;
  canonical = λ path w. some path;
  parent_path = λ path. path;
  filename = λ path. path;
  flush = λ path w. 0;
}

abbrev machine_at : (Failpoint → Bool) → Machine (Unit {0})
machine_at exits = record {
  paths = record {
    root = codes "/p";
    tribios_dir = codes "/p/.tribios";
    base_dir = codes "/p/.tribios/base";
    workspaces_dir = codes "/p/.tribios/workspaces";
    staging_dir = codes "/p/.tribios/staging";
    mount_point = codes "/p/.tribios/mnt";
  };
  fault = λ _. 0;
  strerror = λ _. [];
  exits = exits;
  sql = λ _. sqlite;
  now = 5;
  elapsed = 2;
  git = repository;
  host = host;
  integrity = λ _. ok tt;
  has_base = true;
  has_database = true;
  populate = λ name admin w. (ok tt, w);
}

abbrev machine : Machine (Unit {0})
machine = machine_at (λ _. false)

-- The process ends once the branch is registered.
abbrev interrupting : Machine (Unit {0})
interrupting = machine_at (λ p. elim p [ create_after_git_register ↦ true | _ ↦ false ])

abbrev project : ProjectRecord
project = record {
  root = codes "/p";
  mount_point = codes "/p/.tribios/mnt";
  base_captured_at = 1;
  base_capture_ms = 1;
  base_entry_count = 1;
  base_bytes = 1;
}

abbrev fresh : Manager (Unit {0})
fresh = record {
  db = record {
    project = some project;
    workspaces = [];
    tombstones = [];
    operations = [];
    next_operation = 1;
    diagnostics = [];
    next_diagnostic = 1;
  };
  dirs = [];
  git = tt;
  engines = [];
  reclaimers = [];
}

fresh-IsRecoverable : IsRecoverable fresh
fresh-IsRecoverable = record {
  tables = record { fresh = tt; distinct = tt; rows = tt; keyed = tt; owned = tt };
}

-- A creation that is cut short, a crash, and nothing after it.
abbrev interrupted : Manager (Unit {0})
interrupted = (create_workspace interrupting (codes "a") [] fresh).1

abbrev history : History (λ (i : Unit {0}). interrupting) fresh (crashed interrupted)
history = next (next here (creates tt (codes "a") [] fresh)) (crashes interrupted)

History-IsRecoverable_example : IsRecoverable (crashed interrupted)
History-IsRecoverable_example =
    History-IsRecoverable (λ (i : Unit {0}). interrupting) (λ i. refl) fresh (crashed interrupted)
      fresh-IsRecoverable history

History-Recovered_example :
    Recovered (recover_interrupted_operations machine (crashed (crashed interrupted)))
History-Recovered_example =
    History-Recovered (λ (i : Unit {0}). interrupting) machine (λ i. refl) refl refl fresh
      (crashed interrupted) fresh-IsRecoverable history

crashed-IsRecoverable : IsRecoverable (crashed interrupted)
crashed-IsRecoverable =
    History-IsRecoverable (λ (i : Unit {0}). interrupting) (λ i. refl) fresh (crashed interrupted)
      fresh-IsRecoverable history

-- The journal holds the interrupted creation.
recover_interrupted_operations-Recovered_example :
    Recovered (recover_interrupted_operations machine (crashed interrupted))
recover_interrupted_operations-Recovered_example =
    recover_interrupted_operations-Recovered machine refl refl (crashed interrupted)
      (crashed-IsKept interrupted crashed-IsRecoverable)
