-- ===== src/Recovery/Tests.antt =====
-- A rename that is interrupted after its entry is published.
use mathlib.Core.List.{cons-ne-nil}
use tribios_vfs.Common.{
  ℕ, true, false, [], ◌∷◌, Bytes, codes, bytes_eq, starts_with, none, ◌≡◌, refl, arith,
}
use tribios_vfs.Paths.{normalize_relative}
use tribios_vfs.Store.Types.{RecoveryOperation, prepared}
use tribios_vfs.Store.Sql.{Sqlite}
use tribios_vfs.Engine.Host.{Node, Tree, Host, Kind, reg, dir, lstat, within, renamed, rename_error}
use tribios_vfs.Engine.Publish.{destination_of, is_rename}
use tribios_vfs.Recovery.{
  Storage, is_safe, is_known, is_removal, recover_operation, valid_recovery_relative_path,
  staged_filesystem_operation,
}
use tribios_vfs.Recovery.Moments.{published, crash_state, journal_entry, phase_at}
use tribios_vfs.Recovery.Crash.{IsCompletable, Recovered, recover_operation-crash}

abbrev sqlite : Sqlite
sqlite = record {
  refuses = λ _. false;
  rows_read = λ _. none;
  stays_open = false;
  message = λ _. [];
  like = bytes_eq;
  now = 7;
}

abbrev host : Host
host = record {
  fault = λ _. 0;
  inode = λ _. 40;
  created_mode = λ mode. mode;
  written = λ n. n;
  reports_types = true;
  clock = 9;
  sql = sqlite;
}

abbrev node : Kind → ℕ → Node
node kind ino = record {
  kind = kind;
  mode = 0o644;
  body = codes "hi";
  atime = 1;
  mtime = 2;
  ino = ino;
}

abbrev storage : Storage
storage = record {
  upper = ([], node dir 1) ∷ (codes "a", node reg 2) ∷ [];
  stages = [];
  db = record {
    project = none;
    workspaces = [];
    tombstones = [];
    operations = [];
    next_operation = 1;
    diagnostics = [];
    next_diagnostic = 1;
  };
}

abbrev stage : Tree
stage = ([], node reg 3) ∷ []

abbrev renaming : RecoveryOperation
renaming = record {
  id = 0;
  workspace = codes "w";
  kind = codes "rename";
  path = codes "a";
  target = codes "b";
  phase = prepared;
  add_path_tombstone = true;
  drop_target_tombstones = true;
}

after :
    (q : Bytes)
    → (p : Bytes) → within p q ≡ true
    → lstat (renamed stage storage.upper (codes "b")) p ≡ none
    → lstat (renamed stage storage.upper (codes "b")) q ≡ none
unfolding within lstat bytes_eq starts_with renamed
after [] p w n = ground arith
after (c ∷ d ∷ q) p w n = ground arith
after (c ∷ []) [] w n = absurd cc
after (c ∷ []) (b ∷ []) w n = ground arith
after (c ∷ []) (b ∷ d ∷ p) w n = ground arith

renaming-IsCompletable : IsCompletable host renaming stage storage
unfolding rename_error destination_of is_safe is_known is_removal is_rename within
    valid_recovery_relative_path normalize_relative staged_filesystem_operation
renaming-IsCompletable = record {
  settles = record {
    synced = refl;
    removed = refl;
    begins = refl;
    inserts = refl;
    deletes = refl;
    settles = refl;
    commits = refl;
  };
  renames = refl;
  fits = refl;
  fresh = tt;
  safe = refl;
  known = refl;
  staged = refl;
  below_root = λ e. cons-ne-nil _ _ e;
  apart = λ e. refl;
  closed = λ p q. after q p;
}

recover_operation-crash_example :
    Recovered sqlite renaming stage storage
      (phase_at published)
      (recover_operation host
        (journal_entry renaming storage.db published)
        (crash_state sqlite renaming stage storage published)).1
recover_operation-crash_example =
    recover_operation-crash host renaming stage storage published renaming-IsCompletable
