-- ===== src/Projects/Settling/Records.antt =====
-- What the record that `load_workspace_record` finds says of the table.
use tribios_vfs.Common.{
  true, false, List, [], ◌∷◌, Bytes, codes, bytes_eq, bytes_eq_sound, All, ◌≡◌, ◌≢◌, ◌⊎◌, inl, inr,
  refl, sym, ap, ◌∙◌, arith, Bool-cases,
}
use tribios_vfs.Store.Types.{Database, WorkspaceRow, OperationRow, parse_workspace_state}
use tribios_vfs.Store.Sql.{Sqlite, select_workspaces}
use tribios_vfs.Store.Workspaces.{
  find_row, read_as, read_workspace_record, read_found, load_workspace_record,
}
use tribios_vfs.Projects.Remove.{is_active}
use tribios_vfs.Projects.Startup.{is_not_removed}
use tribios_vfs.Projects.Journaled.{is_settled, opens, is_open, is_journaled, Unique}

-- The rows of the Workspace `name` are settled.
abbrev pub IsFree : Bytes → WorkspaceRow → Type 0
IsFree name w = (is_settled w ≡ true) ⊎ (bytes_eq w.name name ≡ false)

open-state :
    (w : WorkspaceRow) (ops : List OperationRow)
    → is_open w ops ≡ true
    → (w.state ≡ codes "creating") ⊎ (w.state ≡ codes "removed")
unfolding is_open opens
open-state w [] h = absurd (cc h)
open-state w (o ∷ ops) h = elim (Bool-cases (bytes_eq w.state (codes "creating"))) [
  | inl c ↦ inl (bytes_eq_sound w.state (codes "creating") c)
  | inr nc ↦ elim (Bool-cases (bytes_eq w.state (codes "removed"))) [
    | inl r ↦ inr (bytes_eq_sound w.state (codes "removed") r)
    | inr nr ↦ open-state w ops (ground arith)
  ]
]

creating-removed :
    (w : WorkspaceRow)
    → w.state ≡ codes "creating"
    → is_not_removed (read_workspace_record w) ≡ false
unfolding read_workspace_record read_as parse_workspace_state is_not_removed is_active bytes_eq
creating-removed w e = rw e refl

removed-removed :
    (w : WorkspaceRow)
    → w.state ≡ codes "removed"
    → is_not_removed (read_workspace_record w) ≡ false
unfolding read_workspace_record read_as parse_workspace_state is_not_removed is_active bytes_eq
removed-removed w e = rw e refl

-- A journaled row that reads as no record, or as an Active one, is settled.
read-settled :
    (w : WorkspaceRow) (ops : List OperationRow)
    → is_journaled ops w ≡ true
    → is_not_removed (read_workspace_record w) ≡ true
    → is_settled w ≡ true
unfolding is_journaled read_workspace_record
read-settled w ops j h = elim (Bool-cases (is_settled w)) [
  | inl still ↦ still
  | inr open_ ↦ elim (open-state w ops (ground arith)) [
    | inl c ↦ absurd (cc (creating-removed w c, h))
    | inr r ↦ absurd (cc (removed-removed w r, h))
  ]
]

module _ (name : Bytes) (ops : List OperationRow) where
  others :
      (w : WorkspaceRow) (rows : List WorkspaceRow)
      → bytes_eq w.name name ≡ true
      → All (λ v. v.name ≢ w.name) rows
      → All (IsFree name) rows
  others w [] same h = tt
  others w (v ∷ rows) same h = (
    elim (Bool-cases (bytes_eq v.name name)) [
      | inr other ↦ inr other
      | inl also ↦
          let a = bytes_eq_sound v.name name also in
          let b = bytes_eq_sound w.name name same in absurd (h.0 (cc (a, b)))
    ],
    others w rows same h.1,
  )

  found-IsFree :
      (rows : List WorkspaceRow)
      → Unique rows
      → All (λ w. is_journaled ops w ≡ true) rows
      → is_not_removed (read_found (find_row name rows)) ≡ true
      → All (IsFree name) rows
  unfolding find_row read_found
  found-IsFree [] u j h = tt
  found-IsFree (w ∷ rows) u j h = elim (Bool-cases (bytes_eq w.name name)) [
    | inl same ↦
        let found : read_found (find_row name (w ∷ rows)) ≡ read_workspace_record w =
          rw same refl in
        (inl (read-settled w ops j.0 (ap is_not_removed (sym found) ∙ h)), others w rows same u.0)
    | inr other ↦
        let on : read_found (find_row name (w ∷ rows)) ≡ read_found (find_row name rows) =
          rw other refl in
        (inr other, found-IsFree rows u.1 j.1 (ap is_not_removed (sym on) ∙ h))
  ]

  -- Where the record is missing or Active, every row of the name is settled.
  pub load_workspace_record-IsFree :
      (sql : Sqlite) (db : Database)
      → sql.refuses select_workspaces ≡ false
      → Unique db.workspaces
      → All (λ w. is_journaled ops w ≡ true) db.workspaces
      → is_not_removed (load_workspace_record sql name db) ≡ true
      → All (IsFree name) db.workspaces
  unfolding load_workspace_record
  load_workspace_record-IsFree sql db runs u j h =
      let loaded : load_workspace_record sql name db ≡ read_found (find_row name db.workspaces) =
        rw runs refl in
      found-IsFree db.workspaces u j (ap is_not_removed (sym loaded) ∙ h)
