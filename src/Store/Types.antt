-- ===== src/Store/Types.antt =====
-- The records of includes/core/metadata_store.hpp and the tables of the schema that
-- src/core/metadata_store.cpp creates. A state or a phase is stored as text.
use tribios_vfs.Common.{ℕ, Bool, List, Bytes, codes, bytes_eq, Option, none, some, if◌then◌else◌}

-- A `std::int64_t` is its 64-bit pattern.
abbrev pub Int64 : Type 0
Int64 = ℕ

pub record ProjectRecord : Type 0 where
  pub root : Bytes
  pub mount_point : Bytes
  pub base_captured_at : Int64
  pub base_capture_ms : Int64
  pub base_entry_count : Int64
  pub base_bytes : Int64

pub data WorkspaceState : Type 0 where
  creating active removed reclaimed : WorkspaceState

pub record WorkspaceRecord : Type 0 where
  pub name : Bytes
  pub branch : Bytes
  pub state : WorkspaceState
  pub created_at : Int64
  pub create_us : Int64
  pub removed_at : Int64
  pub logical_remove_us : Int64
  pub reclaim_us : Int64

pub data RecoveryPhase : Type 0 where
  prepared publishing : RecoveryPhase

pub record RecoveryOperation : Type 0 where
  pub id : ℕ
  pub workspace : Bytes
  pub kind : Bytes
  pub path : Bytes
  pub target : Bytes
  pub phase : RecoveryPhase
  pub add_path_tombstone : Bool
  pub drop_target_tombstones : Bool

pub record RecoveryDiagnostic : Type 0 where
  pub id : ℕ
  pub created_at : Int64
  pub project : Bytes
  pub message : Bytes

-- A row of table `workspace`.
pub record WorkspaceRow : Type 0 where
  pub name : Bytes
  pub branch : Bytes
  pub state : Bytes
  pub created_at : Int64
  pub create_us : Int64
  pub removed_at : Int64
  pub logical_remove_us : Int64
  pub reclaim_us : Int64

pub record TombstoneRow : Type 0 where
  pub workspace : Bytes
  pub path : Bytes

-- A row of table `recovery_operation`.
pub record OperationRow : Type 0 where
  pub id : ℕ
  pub workspace : Bytes
  pub kind : Bytes
  pub path : Bytes
  pub target : Bytes
  pub phase : Bytes
  pub add_path_tombstone : Bool
  pub drop_target_tombstones : Bool

-- The tables; a counter stands for the sequence of an AUTOINCREMENT key.
pub record Database : Type 0 where
  pub project : Option ProjectRecord
  pub workspaces : List WorkspaceRow
  pub tombstones : List TombstoneRow
  pub operations : List OperationRow
  pub next_operation : ℕ
  pub diagnostics : List RecoveryDiagnostic
  pub next_diagnostic : ℕ

unfoldable pub workspace_state_name : WorkspaceState → Bytes
workspace_state_name creating = codes "creating"
workspace_state_name removed = codes "removed"
workspace_state_name reclaimed = codes "reclaimed"
workspace_state_name active = codes "active"

unfoldable pub parse_workspace_state : Bytes → Option WorkspaceState
unfolding bytes_eq
parse_workspace_state state =
    if bytes_eq state (codes "creating")
    then some creating
    else if bytes_eq state (codes "active")
    then some active
    else if bytes_eq state (codes "removed")
    then some removed
    else if bytes_eq state (codes "reclaimed")
    then some reclaimed
    else none

unfoldable pub recovery_phase_name : RecoveryPhase → Bytes
recovery_phase_name publishing = codes "publishing"
recovery_phase_name prepared = codes "prepared"

unfoldable pub parse_recovery_phase : Bytes → Option RecoveryPhase
unfolding bytes_eq
parse_recovery_phase phase =
    if bytes_eq phase (codes "prepared")
    then some prepared
    else if bytes_eq phase (codes "publishing")
    then some publishing
    else none
