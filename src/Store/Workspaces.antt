-- ===== src/Store/Workspaces.antt =====
-- Project and Workspace records of src/core/metadata_store.cpp.
use mathlib.Core.List.{filter_map}
use tribios_vfs.Common.{
  ◌+◌, ◌%◌, ◌^◌, Bool, true, false, List, [], ◌∷◌, Bytes, bytes_eq, Option, none, some, map, ltb,
  ◌==◌, ◌&&◌, ◌||◌, if◌then◌else◌,
}
use tribios_vfs.Store.Types.{
  Int64, Database, ProjectRecord, WorkspaceState, WorkspaceRecord, WorkspaceRow,
  workspace_state_name, parse_workspace_state,
}
use tribios_vfs.Store.Sql.{
  Sqlite, Outcome, save_project, save_workspace, select_workspaces, update_state, update_reclaim,
  execute, stepped, bound_text,
}

-- The row that `save_workspace_record` binds. A name has no zero byte: `is_valid_workspace_name` has
-- accepted it.
unfoldable pub write_workspace_row : WorkspaceRecord → WorkspaceRow
unfolding workspace_state_name bound_text
write_workspace_row r = record {
  name = r.name;
  branch = bound_text r.branch;
  state = workspace_state_name r.state;
  created_at = r.created_at;
  create_us = r.create_us;
  removed_at = r.removed_at;
  logical_remove_us = r.logical_remove_us;
  reclaim_us = r.reclaim_us;
}

unfoldable pub read_as : WorkspaceRow → Option WorkspaceState → Option WorkspaceRecord
read_as w none = none
read_as w (some state) = some (record {
  name = w.name;
  branch = w.branch;
  state = state;
  created_at = w.created_at;
  create_us = w.create_us;
  removed_at = w.removed_at;
  logical_remove_us = w.logical_remove_us;
  reclaim_us = w.reclaim_us;
})

unfoldable pub read_workspace_record : WorkspaceRow → Option WorkspaceRecord
unfolding read_as parse_workspace_state
read_workspace_record w = read_as w (parse_workspace_state w.state)

unfoldable pub save_project_record :
    Sqlite → ProjectRecord → Database → Outcome (Unit {0}) × Database
unfolding execute
save_project_record sql r = execute sql save_project (λ db. record db { project = some r })

unfoldable pub load_project_record : Database → Option ProjectRecord
load_project_record db = db.project

-- INSERT OR REPLACE on the primary key `name`: the old row goes, the new one stands last.
unfoldable pub replace_row : WorkspaceRow → List WorkspaceRow → List WorkspaceRow
unfolding bytes_eq
replace_row w [] = w ∷ []
replace_row w (v ∷ rows) =
    let rest = replace_row w rows in if bytes_eq v.name w.name then rest else v ∷ rest

unfoldable pub save_workspace_record :
    Sqlite → WorkspaceRecord → Database → Outcome (Unit {0}) × Database
unfolding execute replace_row write_workspace_row
save_workspace_record sql r =
    execute sql save_workspace
      (λ db. record db { workspaces = replace_row (write_workspace_row r) db.workspaces })

-- The first row of `SELECT … WHERE name = ?`.
unfoldable pub find_row : Bytes → List WorkspaceRow → Option WorkspaceRow
unfolding bytes_eq
find_row name [] = none
find_row name (v ∷ rows) = if bytes_eq v.name name then some v else find_row name rows

unfoldable pub read_found : Option WorkspaceRow → Option WorkspaceRecord
unfolding read_workspace_record
read_found none = none
read_found (some w) = read_workspace_record w

unfoldable pub load_workspace_record : Sqlite → Bytes → Database → Option WorkspaceRecord
unfolding find_row read_found
load_workspace_record sql name db =
    if sql.refuses select_workspaces then none else read_found (find_row name db.workspaces)

-- The order of signed 64-bit integers, on their patterns.
unfoldable pub int64_lt : Int64 → Int64 → Bool
int64_lt a b = ltb ((a + 2 ^ 63) % 2 ^ 64) ((b + 2 ^ 63) % 2 ^ 64)

-- The order of texts under the BINARY collation.
unfoldable pub bytes_lt : Bytes → Bytes → Bool
bytes_lt s [] = false
bytes_lt [] (b ∷ t) = true
bytes_lt (a ∷ s) (b ∷ t) = ltb a b || (a == b) && bytes_lt s t

-- ORDER BY created_at, name.
unfoldable pub row_before : WorkspaceRow → WorkspaceRow → Bool
unfolding int64_lt bytes_lt
row_before v w =
    int64_lt v.created_at w.created_at || (v.created_at == w.created_at) && bytes_lt v.name w.name

unfoldable pub insert_row : WorkspaceRow → List WorkspaceRow → List WorkspaceRow
unfolding row_before
insert_row w [] = w ∷ []
insert_row w (v ∷ rows) =
    let rest = insert_row w rows in if row_before w v then w ∷ v ∷ rows else v ∷ rest

unfoldable pub sort_rows : List WorkspaceRow → List WorkspaceRow
unfolding insert_row
sort_rows [] = []
sort_rows (w ∷ rows) = insert_row w (sort_rows rows)

-- Rows whose state does not parse are left out.
unfoldable pub load_all_workspace_records : Sqlite → Database → List WorkspaceRecord
unfolding sort_rows read_workspace_record filter_map stepped
load_all_workspace_records sql db =
    if sql.refuses select_workspaces
    then []
    else filter_map read_workspace_record
        (stepped (sql.rows_read select_workspaces) (sort_rows db.workspaces))

unfoldable pub update_rows :
    (WorkspaceRow → WorkspaceRow) → Bytes → List WorkspaceRow → List WorkspaceRow
unfolding bytes_eq
update_rows f name = map (λ v. if bytes_eq v.name name then f v else v)

unfoldable pub set_workspace_state :
    Sqlite → Bytes → WorkspaceState → Database → Outcome (Unit {0}) × Database
unfolding execute update_rows workspace_state_name
set_workspace_state sql name state = execute sql update_state λ db. record db {
  workspaces =
      update_rows (λ v. record v { state = workspace_state_name state }) name db.workspaces;
}

unfoldable pub set_workspace_reclamation_duration :
    Sqlite → Bytes → Int64 → Database → Outcome (Unit {0}) × Database
unfolding execute update_rows
set_workspace_reclamation_duration sql name us = execute sql update_reclaim λ db. record db {
  workspaces = update_rows (λ v. record v { reclaim_us = us }) name db.workspaces;
}
