-- ===== src/Projects/Journaled.antt =====
-- Which Workspace records a restart can settle: an invariant of the tables that
-- src/core/project_manager.cpp keeps through every step of a creation or a removal.
pub mod Steps
pub mod Creation
pub mod Removal
pub mod Reclamation
pub mod History
use tribios_vfs.Common.{
  ℕ, suc, ◌<◌, Bool, true, false, List, [], ◌∷◌, ◌++◌, Bytes, codes, bytes_eq, bytes_eq_refl,
  bytes_eq_sound, map, All, All-append, ◌==◌, ◌&&◌, ◌||◌, if◌then◌else◌, ◌≡◌, ◌≢◌, ◌⊎◌, inl, inr,
  refl, ap, arith, Bool-cases,
}
use tribios_vfs.Store.Types.{Database, WorkspaceRow, OperationRow, reclaimed}
use tribios_vfs.Store.Sql.{Sqlite, update_state, delete_operation, execute}
use tribios_vfs.Store.Workspaces.{replace_row, update_rows, set_workspace_state}
use tribios_vfs.Store.Journal.{delete_id, abandon_recovery_operation}
use tribios_vfs.Projects.State.{Manager}

-- The Workspace is in use or free, and nothing is to be done for it.
unfoldable pub is_settled : WorkspaceRow → Bool
unfolding bytes_eq
is_settled w = bytes_eq w.state (codes "active") || bytes_eq w.state (codes "reclaimed")

-- The operation is the one that left the record in its state.
unfoldable pub opens : WorkspaceRow → OperationRow → Bool
unfolding bytes_eq
opens w o =
    bytes_eq o.workspace w.name
    && (bytes_eq o.kind (codes "workspace_create") && bytes_eq w.state (codes "creating")
        || bytes_eq o.kind (codes "workspace_remove") && bytes_eq w.state (codes "removed"))

unfoldable pub is_open : WorkspaceRow → List OperationRow → Bool
unfolding opens
is_open w [] = false
is_open w (o ∷ ops) = opens w o || is_open w ops

unfoldable pub is_journaled : List OperationRow → WorkspaceRow → Bool
unfolding is_settled is_open
is_journaled ops w = is_settled w || is_open w ops

-- A reclamation that was started owns the one journal row that it will delete.
abbrev pub Owns : List OperationRow → ℕ → Bytes × ℕ → Type 0
Owns ops next q = (q.1 < next) × All (λ r. r.id ≡ q.1 → r.workspace ≡ q.0) ops

-- No two journal rows have the same identifier.
abbrev pub Distinct : List OperationRow → Type 0
Distinct [] = Unit
Distinct (o ∷ ops) = All (λ r. r.id ≢ o.id) ops × Distinct ops

-- `name` is the primary key of table `workspace`.
abbrev pub Unique : List WorkspaceRow → Type 0
Unique [] = Unit
Unique (w ∷ rows) = All (λ v. v.name ≢ w.name) rows × Unique rows

-- Every record is settled or has its operation in the journal, and the identifiers are fresh.
pub record IsJournaled (db : Database) (reclaimers : List (Bytes × ℕ)) : Type 0 where
  pub fresh : All (λ r. r.id < db.next_operation) db.operations
  pub distinct : Distinct db.operations
  pub rows : All (λ w. is_journaled db.operations w ≡ true) db.workspaces
  pub keyed : Unique db.workspaces
  pub owned : All (Owns db.operations db.next_operation) reclaimers

pub record IsRecoverable {W : Type 0} (s : Manager W) : Type 0 where
  pub tables : IsJournaled s.db s.reclaimers

-- In the middle of an operation on `name`, whose journal row stands last.
pub record IsPending (name state : Bytes) (ops : List OperationRow) (o : OperationRow)
    (db : Database) (reclaimers : List (Bytes × ℕ)) : Type 0 where
  pub journal : db.operations ≡ ops ++ o ∷ []
  pub next : db.next_operation ≡ suc o.id
  pub rows :
      All (λ w. (is_journaled ops w ≡ true) ⊎ ((w.name ≡ name) × (w.state ≡ state))) db.workspaces
  pub keyed : Unique db.workspaces
  pub fresh : All (λ r. r.id < o.id) ops
  pub distinct : Distinct ops
  pub owned : All (Owns ops o.id) reclaimers
  pub opener : (w : WorkspaceRow) → w.name ≡ name → w.state ≡ state → opens w o ≡ true

module _ {ℓ κ} {A : Type ℓ} {P Q : A → Type κ} where
  pub All-mono : (xs : List A) → ((x : A) → P x → Q x) → All P xs → All Q xs
  All-mono [] f h = tt
  All-mono (x ∷ xs) f h = (f x h.0, All-mono xs f h.1)

pub is_open-append :
    (w : WorkspaceRow) (ops more : List OperationRow)
    → is_open w ops ≡ true
    → is_open w (ops ++ more) ≡ true
unfolding is_open
is_open-append w [] more h = cc
is_open-append w (o ∷ ops) more h = ground (arith, is_open-append w ops more)

pub is_open-last :
    (w : WorkspaceRow) (ops : List OperationRow) (o : OperationRow)
    → opens w o ≡ true
    → is_open w (ops ++ o ∷ []) ≡ true
unfolding is_open
is_open-last w [] o h = ground arith
is_open-last w (p ∷ ops) o h = ground (arith, is_open-last w ops o h)

pub is_journaled-append :
    (w : WorkspaceRow) (ops more : List OperationRow)
    → is_journaled ops w ≡ true
    → is_journaled (ops ++ more) w ≡ true
unfolding is_journaled
is_journaled-append w ops more h = ground (arith, is_open-append w ops more)

pub is_journaled-last :
    (w : WorkspaceRow) (ops : List OperationRow) (o : OperationRow)
    → opens w o ≡ true
    → is_journaled (ops ++ o ∷ []) w ≡ true
unfolding is_journaled
is_journaled-last w ops o h = ground (arith, is_open-last w ops o h)

pub delete_id-fresh :
    (id : ℕ) (ops : List OperationRow) → All (λ r. r.id < id) ops → delete_id id ops ≡ ops
unfolding delete_id
delete_id-fresh id [] h = refl
delete_id-fresh id (o ∷ ops) h =
    let below = h.0 in let rest = delete_id-fresh id ops h.1 in ground arith

pub delete_id-last :
    (ops : List OperationRow) (o : OperationRow)
    → All (λ r. r.id < o.id) ops
    → delete_id o.id (ops ++ o ∷ []) ≡ ops
unfolding delete_id
delete_id-last [] o h = ground arith
delete_id-last (p ∷ ops) o h =
    let below = h.0 in let rest = delete_id-last ops o h.1 in ground arith

pub Distinct-last :
    (ops : List OperationRow) (o : OperationRow)
    → All (λ r. r.id < o.id) ops
    → Distinct ops
    → Distinct (ops ++ o ∷ [])
Distinct-last [] o f d = (tt, tt)
Distinct-last (p ∷ ops) o f d =
    let below = f.0 in
    (
      All-append _ ops (o ∷ []) d.0 ((λ e. omega (arith, below, e)), tt),
      Distinct-last ops o f.1 d.1,
    )

module _ {P Q : WorkspaceRow → Type 0} (w : WorkspaceRow) where
  pub All-replace_row :
      (rows : List WorkspaceRow)
      → Q w
      → ((v : WorkspaceRow) → bytes_eq v.name w.name ≡ false → P v → Q v)
      → All P rows
      → All Q (replace_row w rows)
  unfolding replace_row
  All-replace_row [] q miss h = (q, tt)
  All-replace_row (v ∷ rows) q miss h = elim (Bool-cases (bytes_eq v.name w.name)) [
    | inl same ↦ rw same (All-replace_row rows q miss h.1)
    | inr other ↦ rw other (miss v other h.0, All-replace_row rows q miss h.1)
  ]

module _ {P Q : WorkspaceRow → Type 0} (f : WorkspaceRow → WorkspaceRow) (name : Bytes) where
  pub All-update_rows :
      (rows : List WorkspaceRow)
      → ((w : WorkspaceRow) → w.name ≡ name → P w → Q (f w))
      → ((w : WorkspaceRow) → bytes_eq w.name name ≡ false → P w → Q w)
      → All P rows
      → All Q (update_rows f name rows)
  unfolding update_rows
  All-update_rows [] hit miss h = tt
  All-update_rows (w ∷ rows) hit miss h = elim (Bool-cases (bytes_eq w.name name)) [
    | inl same ↦
        rw same (hit w (bytes_eq_sound w.name name same) h.0, All-update_rows rows hit miss h.1)
    | inr other ↦ rw other (miss w other h.0, All-update_rows rows hit miss h.1)
  ]

pub Unique-replace_row :
    (w : WorkspaceRow) (rows : List WorkspaceRow) → Unique rows → Unique (replace_row w rows)
unfolding replace_row
Unique-replace_row w [] u = (tt, tt)
Unique-replace_row w (v ∷ rows) u = elim (Bool-cases (bytes_eq v.name w.name)) [
  | inl same ↦ rw same (Unique-replace_row w rows u.1)
  | inr other ↦ rw other (
    All-replace_row w rows (λ e. cc (other, ap (λ n. bytes_eq v.name n) e, bytes_eq_refl v.name))
        (λ x differs h. h) u.0,
    Unique-replace_row w rows u.1,
  )
]

module _ (f : WorkspaceRow → WorkspaceRow) (name : Bytes)
    (keeps : (w : WorkspaceRow) → (f w).name ≡ w.name) where
  updated-name : (v : WorkspaceRow) → (if bytes_eq v.name name then f v else v).name ≡ v.name
  updated-name v = elim (Bool-cases (bytes_eq v.name name)) [
    | inl same ↦ rw same (keeps v)
    | inr other ↦ rw other refl
  ]

  others :
      (n : Bytes) (vs : List WorkspaceRow)
      → All (λ v. v.name ≢ n) vs
      → All (λ v. v.name ≢ n) (update_rows f name vs)
  unfolding update_rows
  others n [] h = tt
  others n (v ∷ vs) h = (rw (updated-name v) h.0, others n vs h.1)

  pub Unique-update_rows :
      (rows : List WorkspaceRow) → Unique rows → Unique (update_rows f name rows)
  unfolding update_rows
  Unique-update_rows [] u = tt
  Unique-update_rows (w ∷ rows) u =
      (rw (updated-name w) (others w.name rows u.0), Unique-update_rows rows u.1)
