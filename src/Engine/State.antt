-- ===== src/Engine/State.antt =====
-- The state of a Workspace engine: the members of `WorkspaceEngine` in
-- includes/core/workspace_engine.hpp, with the storage that they lead to.
use tribios_vfs.Common.{ℕ, Bool, List, Bytes, Option}
use tribios_vfs.Engine.Host.{Node, Tree}
use tribios_vfs.Store.Types.{Database}

-- Without the link count and the change time, which the engine copies from the host.
pub record Attr : Type 0 where
  pub ino : ℕ
  pub mode : ℕ
  pub size : ℕ
  pub mtime : ℕ
  pub atime : ℕ
  pub from_upper : Bool

pub record DirEntry : Type 0 where
  pub name : Bytes
  pub ino : ℕ
  pub mode : ℕ

-- The open flags of the source, a Boolean for each bit that it reads.
pub record OpenFlags : Type 0 where
  pub write_only : Bool
  pub read_write : Bool
  pub append : Bool
  pub create : Bool
  pub exclusive : Bool
  pub truncate : Bool

-- `backing` is the file that `backing_fd` was opened on: the engine replaces the files of a tree
-- and never writes into one, so an open descriptor goes on reading what it found.
pub record OpenHandle : Type 0 where
  pub backing : Option Node
  pub flags : OpenFlags
  pub relative : Bytes

-- The Base tree, the upper tree, the staged entries of `recovery/`, and the metadata store as this
-- engine's operations leave it: the source shares one store between the engines.
pub record Engine : Type 0 where
  pub workspace : Bytes
  pub inode_salt : ℕ
  pub base : Tree
  pub upper : Tree
  pub stages : List (ℕ × Tree)
  pub db : Database
  pub tombstones : List Bytes
  pub cache : List (Bytes × List DirEntry)
  pub handles : List (ℕ × OpenHandle)
  pub next_handle : ℕ
