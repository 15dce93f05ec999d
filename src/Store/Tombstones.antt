-- ===== src/Store/Tombstones.antt =====
-- Tombstones of src/core/metadata_store.cpp.
use tribios_vfs.Common.{
  Bool, false, List, [], ◌∷◌, ◌++◌, Bytes, codes, bytes_eq, ◌==◌, ◌&&◌, ◌||◌, if◌then◌else◌,
}
use tribios_vfs.Store.Types.{Database, TombstoneRow}
use tribios_vfs.Store.Sql.{
  Sqlite, Outcome, select_tombstones, stepped, insert_tombstone, delete_tombstones, clear_workspace,
  execute,
}

unfoldable pub escape_like_wildcards : Bytes → Bytes
escape_like_wildcards [] = []
escape_like_wildcards (c ∷ text) =
    let rest = escape_like_wildcards text in
    if (c == b'\\') || (c == b'%') || (c == b'_') then b'\\' ∷ c ∷ rest else c ∷ rest

unfoldable pub has_tombstone : Bytes → Bytes → List TombstoneRow → Bool
unfolding bytes_eq
has_tombstone workspace path [] = false
has_tombstone workspace path (t ∷ rows) =
    bytes_eq t.workspace workspace && bytes_eq t.path path || has_tombstone workspace path rows

-- INSERT OR IGNORE on the primary key (workspace, path).
unfoldable pub put_tombstone : Bytes → Bytes → List TombstoneRow → List TombstoneRow
unfolding has_tombstone
put_tombstone workspace path rows =
    if has_tombstone workspace path rows
    then rows
    else rows ++ record { workspace = workspace; path = path } ∷ []

-- workspace = ? AND (path = ? OR path LIKE ? ESCAPE '\')
unfoldable pub falls_under : Sqlite → Bytes → Bytes → TombstoneRow → Bool
unfolding bytes_eq escape_like_wildcards
falls_under sql workspace path t =
    bytes_eq t.workspace workspace
    && (bytes_eq t.path path || sql.like (escape_like_wildcards path ++ codes "/%") t.path)

unfoldable pub drop_tombstones : Sqlite → Bytes → Bytes → List TombstoneRow → List TombstoneRow
unfolding falls_under
drop_tombstones sql workspace path [] = []
drop_tombstones sql workspace path (t ∷ rows) =
    let rest = drop_tombstones sql workspace path rows in
    if falls_under sql workspace path t then rest else t ∷ rest

unfoldable pub drop_workspace : Bytes → List TombstoneRow → List TombstoneRow
unfolding bytes_eq
drop_workspace workspace [] = []
drop_workspace workspace (t ∷ rows) =
    let rest = drop_workspace workspace rows in
    if bytes_eq t.workspace workspace then rest else t ∷ rest

unfoldable pub add_tombstone : Sqlite → Bytes → Bytes → Database → Outcome (Unit {0}) × Database
unfolding execute put_tombstone
add_tombstone sql workspace path =
    execute sql insert_tombstone
      (λ db. record db { tombstones = put_tombstone workspace path db.tombstones })

unfoldable pub remove_tombstones_under :
    Sqlite → Bytes → Bytes → Database → Outcome (Unit {0}) × Database
unfolding execute drop_tombstones
remove_tombstones_under sql workspace path =
    execute sql delete_tombstones
      (λ db. record db { tombstones = drop_tombstones sql workspace path db.tombstones })

unfoldable pub clear_tombstones : Sqlite → Bytes → Database → Outcome (Unit {0}) × Database
unfolding execute drop_workspace
clear_tombstones sql workspace =
    execute sql clear_workspace
      (λ db. record db { tombstones = drop_workspace workspace db.tombstones })

unfoldable pub paths_of : Bytes → List TombstoneRow → List Bytes
unfolding bytes_eq
paths_of workspace [] = []
paths_of workspace (t ∷ rows) =
    let rest = paths_of workspace rows in
    if bytes_eq t.workspace workspace then t.path ∷ rest else rest

unfoldable pub load_workspace_tombstones : Sqlite → Bytes → Database → List Bytes
unfolding paths_of stepped
load_workspace_tombstones sql workspace db =
    if sql.refuses select_tombstones
    then []
    else stepped (sql.rows_read select_tombstones) (paths_of workspace db.tombstones)
