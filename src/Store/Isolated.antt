-- ===== src/Store/Isolated.antt =====
-- What the statements of src/core/metadata_store.cpp for one Workspace leave of the others.
use tribios_vfs.Common.{
  true, false, List, [], ◌∷◌, ◌++◌, Bytes, bytes_eq, bytes_eq_sound, ◌≡◌, refl, arith, Bool-cases,
  inl, inr, append-nil,
}
use tribios_vfs.Store.Types.{Database, TombstoneRow, RecoveryOperation}
use tribios_vfs.Store.Sql.{
  Sqlite, Statement, insert_tombstone, delete_tombstones, clear_workspace, execute,
}
use tribios_vfs.Store.Tombstones.{
  put_tombstone, drop_tombstones, drop_workspace, falls_under, paths_of, load_workspace_tombstones,
  add_tombstone, remove_tombstones_under, clear_tombstones,
}
use tribios_vfs.Store.Journal.{finish_recovery_operation}
use tribios_vfs.Store.Atomic.{committed, finish_atomic}

paths_of-append :
    (other : Bytes) (xs ys : List TombstoneRow)
    → paths_of other (xs ++ ys) ≡ paths_of other xs ++ paths_of other ys
unfolding paths_of
paths_of-append other [] ys = refl
paths_of-append other (t ∷ xs) ys = ground (arith, paths_of-append other xs ys)

module _ (workspace other : Bytes) (apart : bytes_eq workspace other ≡ false) where
  paths_of-put_tombstone :
      (path : Bytes) (rows : List TombstoneRow)
      → paths_of other (put_tombstone workspace path rows) ≡ paths_of other rows
  unfolding put_tombstone paths_of
  paths_of-put_tombstone path rows = ground (
    arith,
    apart,
    paths_of-append other rows (record { workspace = workspace; path = path } ∷ []),
    append-nil (paths_of other rows),
  )

  foreign :
      (t : TombstoneRow)
      → bytes_eq t.workspace workspace ≡ true
      → bytes_eq t.workspace other ≡ false
  foreign t h = let same = bytes_eq_sound t.workspace workspace h in rw same apart

  paths_of-drop_tombstones :
      (sql : Sqlite) (path : Bytes) (rows : List TombstoneRow)
      → paths_of other (drop_tombstones sql workspace path rows) ≡ paths_of other rows
  unfolding drop_tombstones paths_of falls_under
  paths_of-drop_tombstones sql path [] = refl
  paths_of-drop_tombstones sql path (t ∷ rows) =
      let ih = paths_of-drop_tombstones sql path rows in
      elim (Bool-cases (bytes_eq t.workspace workspace)) [
        | inl e ↦ let not_here = foreign t e in ground (arith, ih, e, not_here)
        | inr e ↦ ground (arith, ih, e)
      ]

  paths_of-drop_workspace :
      (rows : List TombstoneRow)
      → paths_of other (drop_workspace workspace rows) ≡ paths_of other rows
  unfolding drop_workspace paths_of
  paths_of-drop_workspace [] = refl
  paths_of-drop_workspace (t ∷ rows) =
      let ih = paths_of-drop_workspace rows in
      elim (Bool-cases (bytes_eq t.workspace workspace)) [
        | inl e ↦ let not_here = foreign t e in ground (arith, ih, e, not_here)
        | inr e ↦ ground (arith, ih, e)
      ]

  same_tombstones :
      (sql : Sqlite) (db after : Database)
      → paths_of other after.tombstones ≡ paths_of other db.tombstones
      → load_workspace_tombstones sql other after ≡ load_workspace_tombstones sql other db
  unfolding load_workspace_tombstones
  same_tombstones sql db after e = rw e refl

  committed-paths :
      (sql : Sqlite) (o : RecoveryOperation) (db : Database)
      → o.workspace ≡ workspace
      → paths_of other (committed sql o db).tombstones ≡ paths_of other db.tombstones
  committed-paths sql o db mine = rw mine (
      ground (
        arith,
        paths_of-put_tombstone o.path db.tombstones,
        paths_of-drop_tombstones sql o.target db.tombstones,
        paths_of-drop_tombstones sql o.target (put_tombstone workspace o.path db.tombstones),
      ))

  executed :
      (sql : Sqlite) (statement : Statement) (effect : Database → Database) (db : Database)
      → paths_of other (effect db).tombstones ≡ paths_of other db.tombstones
      → load_workspace_tombstones sql other (execute sql statement effect db).1
        ≡ load_workspace_tombstones sql other db
  unfolding execute
  executed sql statement effect db e = elim (Bool-cases (sql.refuses statement)) [
    | inl r ↦ rw r refl
    | inr r ↦ rw r (same_tombstones sql db (effect db) e)
  ]

  finish-others :
      (sql : Sqlite) (o : RecoveryOperation) (db : Database)
      → o.workspace ≡ workspace
      → load_workspace_tombstones sql other (finish_recovery_operation sql o db).1
        ≡ load_workspace_tombstones sql other db
  finish-others sql o db mine =
      let all = same_tombstones sql db (committed sql o db) (committed-paths sql o db mine) in
      elim (finish_atomic sql o db) [
        | inl e ↦ rw e all
        | inr (inl (m, e)) ↦ rw e refl
        | inr (inr (c, k, (m, e))) ↦ rw e all
      ]

-- Whatever statement SQLite refuses, adding a tombstone of one Workspace, removing its tombstones under
-- a path, clearing them all, and finishing one of its operations leave the tombstones that are loaded
-- for every other Workspace as they were.
pub load_workspace_tombstones-others :
    (sql : Sqlite) (o : RecoveryOperation) (path other : Bytes) (db : Database)
    → bytes_eq o.workspace other ≡ false
    → (load_workspace_tombstones sql other (add_tombstone sql o.workspace path db).1
        ≡ load_workspace_tombstones sql other db)
      × (load_workspace_tombstones sql other (remove_tombstones_under sql o.workspace path db).1
          ≡ load_workspace_tombstones sql other db)
      × (load_workspace_tombstones sql other (clear_tombstones sql o.workspace db).1
          ≡ load_workspace_tombstones sql other db)
      × (load_workspace_tombstones sql other (finish_recovery_operation sql o db).1
          ≡ load_workspace_tombstones sql other db)
unfolding add_tombstone remove_tombstones_under clear_tombstones
load_workspace_tombstones-others sql o path other db apart = (
  executed o.workspace other apart sql insert_tombstone
      (λ d. record d { tombstones = put_tombstone o.workspace path d.tombstones }) db
      (paths_of-put_tombstone o.workspace other apart path db.tombstones),
  executed o.workspace other apart sql delete_tombstones
      (λ d. record d { tombstones = drop_tombstones sql o.workspace path d.tombstones }) db
      (paths_of-drop_tombstones o.workspace other apart sql path db.tombstones),
  executed o.workspace other apart sql clear_workspace
      (λ d. record d { tombstones = drop_workspace o.workspace d.tombstones }) db
      (paths_of-drop_workspace o.workspace other apart db.tombstones),
  finish-others o.workspace other apart sql o db refl,
)
