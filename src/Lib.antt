-- ===== src/Lib.antt =====
-- A verification library for tribios-vfs, a copy-on-write file system that gives each Workspace of a
-- Project a view of one captured Base state.
--
-- How the program fits together. A daemon serves FUSE requests and control messages. A FUSE request
-- reaches the Workspace engine, which looks a path up in the Workspace's upper tree, then, unless a
-- tombstone hides it, in the Base tree. A mutation is journaled in an SQLite store, staged beside the
-- upper tree, renamed into place, and settled in one transaction with its tombstones; after a crash
-- the journal says whether to undo or to complete it. Before git sees a Workspace, the stat data in its
-- copy of the index are rewritten. A capture leaves out what the patterns of a `.tribiosignore` exclude.
-- The Project manager creates, removes and reclaims Workspaces: it journals each, keeps their records,
-- and registers a linked Git worktree; at startup the journal is settled before engines are made.
--
-- Which file models what (paths from the repository's root):
--   Common         bytes, Booleans on native numbers, lists: a std::string is a list of bytes
--   Paths          src/core/paths.cpp
--   Store          src/core/metadata_store.cpp, includes/core/metadata_store.hpp: Types has the records
--                  and tables, Workspaces, Tombstones and Journal the statements on them, Sql what is
--                  asked of SQLite, which decides what statements run and matches LIKE; Like has the
--                  documented meaning of LIKE, an assumption where it is used, for patterns whose
--                  underscores are escaped
--   Engine         src/core/workspace_engine.cpp, includes/core/workspace_engine.hpp: Host has the trees
--                  of the host and the POSIX calls on them, with an errno for each step that can fail;
--                  State the members of WorkspaceEngine; Inode, Visible, Listing, Stage, Publish,
--                  Mutations and Handles one function for each of its methods, under the method's name
--   Recovery       the journal part of recover_interrupted_operations of src/core/recovery.cpp;
--                  Moments has the steps between which a crash can fall
--   Protocol       encode_message and decode_message of src/daemon/protocol.cpp
--   Sha1           src/core/sha1.cpp
--   GitIndex       src/core/git_index.cpp; Parse is parse_git_index
--   CapturePolicy  src/core/capture_policy.cpp: Classes, Utf8, Parse, Glob, Decide and
--                  Describe
--   BaseCapture    src/core/base_capture.cpp: Excluded and Walk, over a listing of the Project
--   Projects       src/core/project_manager.cpp and src/core/git_worktree.cpp: Names, Git, State (what
--                  survives the process, its faults and failpoints), Create, Remove; Startup is the rest
--                  of src/core/recovery.cpp, with Startup/Validate for the tests behind it
--   FuseAdapter    src/fuse/fuse_adapter.cpp: the paths of the view; Files and Directories have the
--                  callbacks, Requests the table of them
--   ControlServer  src/daemon/control_server.cpp: Replies has the texts, Files the requests on files
-- The other files hold proofs about the module that they stand below, named for what they prove, and
-- Tests has runs of the code and the theorems at concrete inputs.
--
-- How the state corresponds. A file tree is a list of entries under their paths; an operation takes the
-- engine and gives its status and the engine after it. A failing step is a fault of the host, so
-- every early return of the source is a branch of the model. Injected faults and real errors have the
-- same effect and share a fault. The locks of the source make each operation one step.
--
-- Where the model has less than the source. A tree finds an entry under its path alone: a path that leads
-- through a symlink, which the host would follow for a request of the control socket (the kernel
-- resolves those of the mount), has no entry, and no theorem speaks of the source there. The engines of
-- the source share one MetadataStore; in the model each engine has the tables as its own operations
-- leave them, and Store/Isolated is about the shared tables. A text is stored whole, but for the branch
-- of a record: the source cuts a text at a zero byte, which only the control socket can give. A
-- transaction that a refused COMMIT leaves open shows its changes; that later statements join it, and
-- that the end of the process rolls it back, is not modelled. The moments of a crash in Recovery/Moments
-- leave out an operation that is being abandoned after its phase was publishing. In recovery the
-- directory above a destination is there, since it was made before the entry was staged. The Base
-- directory of a capture has no entries before it.
--
-- Bounds and fuel. The walk over the ancestors of a path has the path's length as fuel, enough because
-- each step shortens the path. The copy of a tree has more fuel than its longest path. The loop over
-- the extensions of an index has the file's length, and each extension takes eight bytes. The
-- zeros of SHA-1's padding number at most 63. The scanners of a pattern have its length as fuel and take
-- a byte in each turn. 32-bit and 64-bit words wrap around as written; file offsets do not, for files
-- shorter than 2 ^ 63 bytes.
--
-- Not modelled: the mounting and unmounting and the kernel caches of the FUSE adapter, the sockets and
-- threads of the daemon, the command line, the running of processes, opening the database file, what a
-- flush makes durable, explaining a capture decision, the times that a capture reports,
-- `ProjectManager::configure`, and the seeding of a Workspace's Git index, which `register_linked_worktree`
-- takes as an argument.
pub mod Common
pub mod Paths
pub mod Store
pub mod Engine
pub mod Recovery
pub mod Protocol
pub mod Sha1
pub mod GitIndex
pub mod CapturePolicy
pub mod BaseCapture
pub mod Projects
pub mod FuseAdapter
pub mod ControlServer
