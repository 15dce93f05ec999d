-- ===== src/Projects/Found.antt =====
-- What `load_workspace_record` of src/core/metadata_store.cpp finds.
use tribios_vfs.Common.{
  List, [], ◌∷◌, Bytes, bytes_eq, bytes_eq_sound, Option, none, some, ◌≡◌, inl, inr, Bool-cases,
}
use tribios_vfs.Store.Types.{
  Database, WorkspaceRow, WorkspaceRecord, WorkspaceState, parse_workspace_state,
}
use tribios_vfs.Store.Sql.{Sqlite, select_workspaces}
use tribios_vfs.Store.Workspaces.{
  find_row, read_as, read_workspace_record, read_found, load_workspace_record,
}

-- A record that is found has the name, where there is one.
abbrev pub Named : Bytes → Option WorkspaceRecord → Type 0
Named name none = Unit
Named name (some r) = r.name ≡ name

abbrev pub NamedRow : Bytes → Option WorkspaceRow → Type 0
NamedRow name none = Unit
NamedRow name (some w) = w.name ≡ name

find_row-NamedRow : (name : Bytes) (rows : List WorkspaceRow) → NamedRow name (find_row name rows)
unfolding find_row
find_row-NamedRow name [] = tt
find_row-NamedRow name (w ∷ rows) = elim (Bool-cases (bytes_eq w.name name)) [
  | inl same ↦ rw same (bytes_eq_sound w.name name same)
  | inr other ↦ rw other (find_row-NamedRow name rows)
]

read_as-Named :
    (name : Bytes) (w : WorkspaceRow) (st : Option WorkspaceState)
    → w.name ≡ name
    → Named name (read_as w st)
unfolding read_as
read_as-Named name w none e = tt
read_as-Named name w (some st) e = e

read_found-Named :
    (name : Bytes) (o : Option WorkspaceRow) → NamedRow name o → Named name (read_found o)
unfolding read_found read_workspace_record
read_found-Named name none h = tt
read_found-Named name (some w) h = read_as-Named name w (parse_workspace_state w.state) h

pub load_workspace_record-Named :
    (sql : Sqlite) (name : Bytes) (db : Database) → Named name (load_workspace_record sql name db)
unfolding load_workspace_record
load_workspace_record-Named sql name db = elim (Bool-cases (sql.refuses select_workspaces)) [
  | inl refused ↦ rw refused tt
  | inr runs ↦
      rw runs
        (read_found-Named name (find_row name db.workspaces) (find_row-NamedRow name db.workspaces))
]
