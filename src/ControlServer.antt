-- ===== src/ControlServer.antt =====
-- The control server of src/daemon/control_server.cpp: how a request becomes a reply. A request and a
-- reply are lists of fields; the socket loop that carries them is not part of the model.
pub mod Replies
pub mod Files
pub mod Doors
mod Tests
use tribios_vfs.Common.{
  ℕ, Bool, true, false, List, [], ◌∷◌, ◌++◌, Bytes, codes, bytes_eq, starts_with, map, to_string,
  Option, none, some, ◌||◌, if◌then◌else◌,
}
use tribios_vfs.Paths.{slash}
use tribios_vfs.Store.Types.{Int64, Database, ProjectRecord, WorkspaceRecord, workspace_state_name}
use tribios_vfs.Store.Sql.{Sqlite, Outcome, ok, error}
use tribios_vfs.Store.Tombstones.{load_workspace_tombstones}
use tribios_vfs.Engine.Host.{Host, Tree}
use tribios_vfs.Engine.Inode.{workspace_inode_salt}
use tribios_vfs.Engine.State.{Engine}
use tribios_vfs.Projects.State.{Manager, Machine, loading, Ran, replied, exited, upper_of}
use tribios_vfs.Projects.Create.{CreateResult, create_workspace}
use tribios_vfs.Projects.Remove.{
  RemoveResult, remove_workspace, wait_for_reclamation, workspace_records,
}
use tribios_vfs.Projects.Startup.{tree_or_empty}
use tribios_vfs.FuseAdapter.{View}
use tribios_vfs.ControlServer.Replies.{
  Libc, Change, ControlReply, ok_reply, error_reply, request_argument, signed_text,
}
use tribios_vfs.ControlServer.Files.{dispatch_filesystem_request}

-- The manager, the engines with their state, and the flags of the server. `base` is the Base tree, which
-- never changes.
pub record Server (W : Type 0) : Type 0 where
  pub manager : Manager W
  pub view : View
  pub base : Tree
  pub mount_active : Bool
  pub running : Bool

-- `WorkspaceEngine::WorkspaceEngine`, for a Workspace of the manager.
unfoldable pub start_engine : {W : Type 0} → Sqlite → Bytes → Tree → Manager W → Engine
start_engine sql name base s = record {
  workspace = name;
  inode_salt = workspace_inode_salt name;
  base = base;
  upper = tree_or_empty (upper_of name s.dirs);
  stages = [];
  db = s.db;
  tombstones = load_workspace_tombstones sql name s.db;
  cache = [];
  handles = [];
  next_handle = 3;
}

unfoldable pub erase_engine : Bytes → List (Bytes × Engine) → List (Bytes × Engine)
erase_engine name [] = []
erase_engine name ((k, e) ∷ es) =
    let rest = erase_engine name es in if bytes_eq k name then rest else (k, e) ∷ rest

-- The reply, the changes that are reported to the handler, and the state. The process may end instead.
abbrev pub Dispatched : Type 0 → Type 0
Dispatched W = Ran ControlReply × List Change × Server W

unfoldable pub answer : {W : Type 0} → ControlReply → List Change → Server W → Dispatched W
answer reply changes s = (replied (ok reply), changes, s)

unfoldable pub created_reply :
    {W : Type 0} → Sqlite → Server W → Ran CreateResult × Manager W → Dispatched W
created_reply sql s (exited, t) = (exited, [], record s { manager = t })
created_reply sql s (replied (error e), t) = answer (error_reply e) [] (record s { manager = t })
created_reply sql s (replied (ok created), t) =
    answer
      (ok_reply (created.name ∷ created.branch ∷ signed_text created.create_us ∷ created.path ∷ []))
      (record { workspace = created.name; path = []; unlinked = false } ∷ [])
      (record s {
        manager = t;
        view = record {
          engines = s.view.engines ++ (created.name, start_engine sql created.name s.base t) ∷ [];
        };
      })

unfoldable pub removed_reply : {W : Type 0} → Server W → Ran RemoveResult × Manager W → Dispatched W
removed_reply s (exited, t) = (exited, [], record s { manager = t })
removed_reply s (replied (error e), t) = answer (error_reply e) [] (record s { manager = t })
removed_reply s (replied (ok gone), t) =
    answer (ok_reply (gone.name ∷ signed_text gone.logical_remove_us ∷ []))
      (record { workspace = gone.name; path = []; unlinked = true } ∷ [])
      (record s { manager = t; view = record { engines = erase_engine gone.name s.view.engines } })

unfoldable pub waited_reply : {W : Type 0} → Server W → Ran (Unit {0}) × Manager W → Dispatched W
waited_reply s (exited, t) = (exited, [], record s { manager = t })
waited_reply s (replied r, t) = answer (ok_reply []) [] (record s { manager = t })

unfoldable pub record_line : WorkspaceRecord → Bytes
record_line r =
    r.name
    ++ b'\t' ∷ workspace_state_name r.state
    ++ b'\t' ∷ r.branch
    ++ b'\t' ∷ signed_text r.create_us
    ++ b'\t' ∷ signed_text r.logical_remove_us
    ++ b'\t' ∷ signed_text r.reclaim_us

module _ {W : Type 0} (libc : Libc) (m : Machine W) where
  unfoldable pub dispatch_workspace_request : Bytes → List Bytes → Server W → Dispatched W
  dispatch_workspace_request verb request s =
      if bytes_eq verb (codes "ws.create")
      then created_reply (m.sql loading) s
          (create_workspace m (request_argument request 1) (request_argument request 2) s.manager)
      else if bytes_eq verb (codes "ws.remove")
      then removed_reply s (remove_workspace m (request_argument request 1) s.manager)
      else if bytes_eq verb (codes "ws.list")
      then answer (ok_reply (map record_line (workspace_records m s.manager))) [] s
      else if bytes_eq verb (codes "ws.wait-reclaim")
      then waited_reply s (wait_for_reclamation m s.manager)
      else answer (error_reply (codes "unknown Workspace request: " ++ verb)) [] s

  unfoldable pub in_view : Server W → ControlReply × List Change × View → Dispatched W
  in_view s (reply, changes, view) = answer reply changes (record s { view = view })

  -- `shutdown_unmount_` is a callback: its result is given.
  unfoldable pub shut_down : Option (Outcome (Unit {0})) → Server W → Dispatched W
  shut_down none s = answer (ok_reply (codes "stopping" ∷ [])) [] (record s { running = false })
  shut_down (some (ok u)) s =
      answer (ok_reply (codes "stopping" ∷ [])) []
        (record s { mount_active = false; running = false })
  shut_down (some (error e)) s = answer (error_reply e) [] s

  unfoldable pub info_reply : ProjectRecord → Bool → ControlReply
  info_reply r mounted = ok_reply (
      r.root
      ∷ r.mount_point
      ∷ codes "git"
      ∷ signed_text r.base_entry_count
      ∷ signed_text r.base_bytes
      ∷ signed_text r.base_capture_ms
      ∷ (if mounted then codes "mounted" else codes "unmounted")
      ∷ [])

  unfoldable pub dispatch_control_request :
      ProjectRecord → Option (Outcome (Unit {0})) → List Bytes → Server W → Dispatched W
  dispatch_control_request project unmount [] s = answer (error_reply (codes "empty request")) [] s
  dispatch_control_request project unmount (verb ∷ arguments) s =
      if bytes_eq verb (codes "ping")
      then answer (ok_reply (codes "pong" ∷ [])) [] s
      else if bytes_eq verb (codes "info")
      then answer (info_reply project s.mount_active) [] s
      else if bytes_eq verb (codes "shutdown")
      then shut_down unmount s
      else if starts_with (codes "ws.") verb
      then dispatch_workspace_request verb (verb ∷ arguments) s
      else if starts_with (codes "fs.") verb || bytes_eq verb (codes "stats.upper")
      then in_view s (dispatch_filesystem_request libc m.host verb (verb ∷ arguments) s.view)
      else answer (error_reply (codes "unknown request: " ++ verb)) [] s
