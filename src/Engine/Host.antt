-- ===== src/Engine/Host.antt =====
-- The host file system beneath src/core/workspace_engine.cpp, as far as the engine uses it: trees of
-- entries, and the POSIX and std::filesystem calls on them. A tree is a list of entries under their
-- paths from its top; a path under which no entry stands does not exist.
use tribios_vfs.Common.{
  ℕ, Bool, true, false, List, [], ◌∷◌, ◌++◌, Bytes, bytes_eq, starts_with, is_empty, ◌==◌, ◌&&◌,
  ◌||◌, not, Option, none, some, if◌then◌else◌,
}
use tribios_vfs.Paths.{slash, has_slash, parent_of, join_relative}
use tribios_vfs.Store.Sql.{Sqlite}

-- The errno values of the source, as Linux numbers them.
abbrev pub enoent : ℕ
enoent = 2

abbrev pub eio : ℕ
eio = 5

abbrev pub ebadf : ℕ
ebadf = 9

abbrev pub ebusy : ℕ
ebusy = 16

abbrev pub eexist : ℕ
eexist = 17

abbrev pub enotdir : ℕ
enotdir = 20

abbrev pub eisdir : ℕ
eisdir = 21

abbrev pub einval : ℕ
einval = 22

abbrev pub enotempty : ℕ
enotempty = 39

-- The kind of an entry, and its S_IFMT bits.
pub data Kind : Type 0 where
  reg dir lnk chr blk fifo sock : Kind

abbrev pub file_type : Kind → ℕ
file_type reg = 0o100000
file_type dir = 0o040000
file_type lnk = 0o120000
file_type chr = 0o020000
file_type blk = 0o060000
file_type fifo = 0o010000
file_type sock = 0o140000

-- `S_ISDIR` and `S_ISLNK`.
abbrev pub is_dir : Kind → Bool
is_dir dir = true
is_dir _ = false

abbrev pub is_lnk : Kind → Bool
is_lnk lnk = true
is_lnk _ = false

-- An entry: `mode` has the permission bits, and `body` the bytes of a file or the target of a link.
pub record Node : Type 0 where
  pub kind : Kind
  pub mode : ℕ
  pub body : Bytes
  pub atime : ℕ
  pub mtime : ℕ
  pub ino : ℕ

abbrev pub Tree : Type 0
Tree = List (Bytes × Node)

-- The steps that the host can fail, injected faults among them.
pub data Point : Type 0 where
  journal_write recovery_dir stage_flush stage_sync journal_phase : Point
  publish_rename publish_directory_flush journal_finish : Point
  host_rename destination_sync source_remove : Point
  upper_remove upper_sync make_parent parent_sync : Point
  host_create host_copy host_change host_reopen host_read : Point

-- A host: the errno with which each step fails (0 where it succeeds), the inode of a new entry, the
-- mode that it gives to a new entry for a requested one, how many bytes of a write it takes, whether
-- it reports the types of directory entries, its clock, and SQLite.
pub record Host : Type 0 where
  pub fault : Point → ℕ
  pub inode : Bytes → ℕ
  pub created_mode : ℕ → ℕ
  pub written : ℕ → ℕ
  pub reports_types : Bool
  pub clock : ℕ
  pub sql : Sqlite

-- `std::expected<T, int>`.
pub data Result {ℓ} (A : Type ℓ) : Type ℓ where
  ok : A → Result A
  fail : ℕ → Result A

-- lstat, of a path that leads through no symlink: the host follows a symlink above the path, and the
-- model has no entry there.
unfoldable pub lstat : Tree → Bytes → Option Node
unfolding bytes_eq
lstat [] path = none
lstat ((k, n) ∷ t) path = if bytes_eq k path then some n else lstat t path

-- The path is `top` or lies beneath it.
unfoldable pub within : Bytes → Bytes → Bool
unfolding bytes_eq starts_with
within top path = bytes_eq path top || starts_with (top ++ slash ∷ []) path

-- std::filesystem::remove_all.
unfoldable pub remove_all : Bytes → Tree → Tree
unfolding within
remove_all top [] = []
remove_all top ((k, n) ∷ t) =
    let rest = remove_all top t in if within top k then rest else (k, n) ∷ rest

-- The entries of a tree, put at a path.
unfoldable pub place : Bytes → Bytes → Bytes
place top k = if is_empty k then top else join_relative top k

unfoldable pub graft : Bytes → Tree → Tree
unfolding place join_relative
graft top [] = []
graft top ((k, n) ∷ t) = (place top k, n) ∷ graft top t

-- The name of an entry in its directory.
unfoldable pub final_segment : Bytes → Bytes
unfolding has_slash
final_segment [] = []
final_segment (c ∷ s) =
    let rest = final_segment s in if has_slash s then rest else if c == slash then s else c ∷ s

-- opendir and readdir, without the entries `.` and `..`.
unfoldable pub children : Tree → Bytes → Tree
unfolding parent_of final_segment bytes_eq
children [] d = []
children ((k, n) ∷ t) d =
    let rest = children t d in
    if not (is_empty k) && bytes_eq (parent_of k) d then (final_segment k, n) ∷ rest else rest

unfoldable pub root_kind : Tree → Option Kind
unfolding lstat
root_kind stage = elim (lstat stage []) [ none ↦ none | some n ↦ some n.kind ]

-- What rename(2) says of a staged entry and a path at which an entry may stand: the errno, or 0.
unfoldable pub rename_onto : Kind → Option Node → Bool → ℕ
rename_onto k none empty = 0
rename_onto k (some n) empty =
    if is_dir k
    then (if is_dir n.kind then (if empty then 0 else enotempty) else enotdir)
    else if is_dir n.kind
    then eisdir
    else 0

unfoldable pub rename_staged : Option Kind → Tree → Bytes → ℕ
unfolding rename_onto lstat children
rename_staged none t to = enoent
rename_staged (some k) t to = rename_onto k (lstat t to) (is_empty (children t to))

-- The errno of `rename(stage, to)`.
unfoldable pub rename_error : Tree → Tree → Bytes → ℕ
unfolding root_kind rename_staged
rename_error stage t to = rename_staged (root_kind stage) t to

-- Its effect.
unfoldable pub renamed : Tree → Tree → Bytes → Tree
unfolding graft remove_all
renamed stage t to = graft to stage ++ remove_all to t
