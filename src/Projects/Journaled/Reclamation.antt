-- ===== src/Projects/Journaled/Reclamation.antt =====
-- The reclamation of a removed Workspace in src/core/project_manager.cpp, at every end and at every
-- failpoint.
use tribios_vfs.Common.{
  ℕ, true, false, List, [], ◌∷◌, Bytes, codes, bytes_eq, bytes_eq_refl, bytes_eq_sound, All, ◌==◌,
  ◌≡◌, inl, inr, refl, ap, arith, Bool-cases,
}
use tribios_vfs.Store.Types.{Database, WorkspaceRow, OperationRow, reclaimed, workspace_state_name}
use tribios_vfs.Store.Sql.{
  Sqlite, Outcome, ok, error, clear_workspace, update_reclaim, update_state, delete_operation,
  execute, store_error,
}
use tribios_vfs.Store.Workspaces.{set_workspace_state, set_workspace_reclamation_duration}
use tribios_vfs.Store.Tombstones.{clear_tombstones}
use tribios_vfs.Store.Journal.{delete_id, abandon_recovery_operation}
use tribios_vfs.Projects.State.{
  Manager, Machine, Ran, trigger_failpoint, Failpoint, remove_storage, sync_workspaces, clearing,
  timing, reclaiming, settling,
}
use tribios_vfs.Projects.Remove.{
  ended, settled, reclaimed_state, timed, cleared, remove_tree, unlisted, reclaim,
}
use tribios_vfs.Projects.Journaled.{
  is_settled, opens, is_open, is_journaled, Distinct, IsJournaled, All-mono, All-update_rows,
  Unique-update_rows,
}
use tribios_vfs.Projects.Journaled.Steps.{settled-is_journaled, reclaimed-is_settled}

-- The tables alone, for the reclamations `qs` that are still to run.
pub record IsKept {W : Type 0} (qs : List (Bytes × ℕ)) (s : Manager W) : Type 0 where
  pub tables : IsJournaled s.db qs

pub is_open-same :
    (v w : WorkspaceRow) (ops : List OperationRow)
    → v.name ≡ w.name
    → v.state ≡ w.state
    → is_open v ops ≡ is_open w ops
unfolding is_open opens
is_open-same v w [] e f = refl
is_open-same v w (o ∷ ops) e f = rw (e, f, is_open-same v w ops e f) refl

is_journaled-same :
    (v w : WorkspaceRow) (ops : List OperationRow)
    → v.name ≡ w.name
    → v.state ≡ w.state
    → is_journaled ops w ≡ true
    → is_journaled ops v ≡ true
unfolding is_journaled is_settled
is_journaled-same v w ops e f h = rw (is_open-same v w ops e f, f) h

-- The row of another Workspace does not rest on the journal row that goes.
opens-name : (w : WorkspaceRow) (o : OperationRow) → opens w o ≡ true → o.workspace ≡ w.name
unfolding opens
opens-name w o h =
    let same : bytes_eq o.workspace w.name ≡ true = ground arith in
    bytes_eq_sound o.workspace w.name same

-- A record does not rest on a journal row that did not open it.
pub is_open-delete_id :
    (w : WorkspaceRow) (id : ℕ) (ops : List OperationRow)
    → All (λ r. r.id ≡ id → opens w r ≡ false) ops
    → is_open w ops ≡ true
    → is_open w (delete_id id ops) ≡ true
unfolding is_open delete_id
is_open-delete_id w id [] h e = e
is_open-delete_id w id (o ∷ ops) h e =
    let rest : is_open w ops ≡ true → is_open w (delete_id id ops) ≡ true =
      is_open-delete_id w id ops h.1 in
    elim (Bool-cases (o.id == id)) [
      | inl goes ↦
          let foreign = h.0 (ground arith) in let there = rest (ground arith) in ground arith
      | inr stays ↦ elim (Bool-cases (opens w o)) [
        | inl mine ↦ rw stays (ground arith)
        | inr foreign ↦ let there = rest (ground arith) in ground arith
      ]
    ]

pub is_journaled-kept :
    (w : WorkspaceRow) (id : ℕ) (ops : List OperationRow)
    → All (λ r. r.id ≡ id → opens w r ≡ false) ops
    → is_journaled ops w ≡ true
    → is_journaled (delete_id id ops) w ≡ true
unfolding is_journaled
is_journaled-kept w id ops h e = elim (Bool-cases (is_settled w)) [
  | inl still ↦ ground arith
  | inr open_ ↦ let now = is_open-delete_id w id ops h (ground arith) in ground arith
]

opens-other :
    (w : WorkspaceRow) (name : Bytes) (o : OperationRow)
    → bytes_eq w.name name ≡ false
    → o.workspace ≡ name
    → opens w o ≡ false
opens-other w name o other named = elim (Bool-cases (opens w o)) [
  | inr foreign ↦ foreign
  | inl mine ↦
      let own = opens-name w o mine in
      absurd (
        cc (
          other,
          ap (λ n. bytes_eq n name) own,
          ap (λ n. bytes_eq n name) named,
          bytes_eq_refl name,
        ))
]

pub is_journaled-delete_id :
    (w : WorkspaceRow) (name : Bytes) (id : ℕ) (ops : List OperationRow)
    → bytes_eq w.name name ≡ false
    → All (λ r. r.id ≡ id → r.workspace ≡ name) ops
    → is_journaled ops w ≡ true
    → is_journaled (delete_id id ops) w ≡ true
is_journaled-delete_id w name id ops other h e =
    is_journaled-kept w id ops (All-mono ops (λ r mine i. opens-other w name r other (mine i)) h) e

pub All-delete_id :
    (P : OperationRow → Type 0) (id : ℕ) (ops : List OperationRow)
    → All P ops
    → All P (delete_id id ops)
unfolding delete_id
All-delete_id P id [] h = tt
All-delete_id P id (o ∷ ops) h = elim (Bool-cases (o.id == id)) [
  | inl goes ↦ rw goes (All-delete_id P id ops h.1)
  | inr stays ↦ rw stays (h.0, All-delete_id P id ops h.1)
]

pub Distinct-delete_id :
    (id : ℕ) (ops : List OperationRow) → Distinct ops → Distinct (delete_id id ops)
unfolding delete_id
Distinct-delete_id id [] d = tt
Distinct-delete_id id (o ∷ ops) d = elim (Bool-cases (o.id == id)) [
  | inl goes ↦ rw goes (Distinct-delete_id id ops d.1)
  | inr stays ↦ rw stays (All-delete_id _ id ops d.0, Distinct-delete_id id ops d.1)
]

module _ (name : Bytes) (id : ℕ) (qs : List (Bytes × ℕ)) where
  -- The journal row `id` is of this Workspace.
  abbrev pub Mine : Database → Type 0
  Mine db = All (λ r. r.id ≡ id → r.workspace ≡ name) db.operations

  -- The tables before and after a statement that leaves the journal alone.
  abbrev pub Kept : Outcome (Unit {0}) × Database → Type 0
  Kept r = IsJournaled r.1 qs × Mine r.1

  pub clear-Kept :
      (sql : Sqlite) (db : Database)
      → IsJournaled db qs
      → Mine db
      → Kept (clear_tombstones sql name db)
  unfolding clear_tombstones execute
  clear-Kept sql db j mine = elim (Bool-cases (sql.refuses clear_workspace)) [
    | inl refused ↦ rw refused (j, mine)
    | inr runs ↦ rw runs (
      record {
        fresh = j.fresh;
        distinct = j.distinct;
        rows = j.rows;
        keyed = j.keyed;
        owned = j.owned;
      },
      mine,
    )
  ]

  pub duration-Kept :
      (sql : Sqlite) (us : ℕ) (db : Database)
      → IsJournaled db qs
      → Mine db
      → Kept (set_workspace_reclamation_duration sql name us db)
  unfolding set_workspace_reclamation_duration execute
  duration-Kept sql us db j mine = elim (Bool-cases (sql.refuses update_reclaim)) [
    | inl refused ↦ rw refused (j, mine)
    | inr runs ↦ rw runs (
      record {
        fresh = j.fresh;
        distinct = j.distinct;
        rows =
            All-update_rows (λ w. record w { reclaim_us = us }) name db.workspaces
              (λ w e h.
                is_journaled-same (record w { reclaim_us = us }) w db.operations refl refl h)
              (λ w other h. h) j.rows;
        keyed =
            Unique-update_rows (λ w. record w { reclaim_us = us }) name (λ w. refl) db.workspaces
              j.keyed;
        owned = j.owned;
      },
      mine,
    )
  ]

  -- Once the record is marked as reclaimed, the journal row may go.
  abbrev pub Freed : Outcome (Unit {0}) × Database → Type 0
  Freed (error e, db) = IsJournaled db qs
  Freed (ok u, db) =
      IsJournaled db qs
      × Mine db
      × All (λ w. is_journaled (delete_id id db.operations) w ≡ true) db.workspaces

  pub reclaimed-Freed :
      (sql : Sqlite) (db : Database)
      → IsJournaled db qs
      → Mine db
      → Freed (set_workspace_state sql name reclaimed db)
  unfolding set_workspace_state execute workspace_state_name
  reclaimed-Freed sql db j mine = elim (Bool-cases (sql.refuses update_state)) [
    | inl refused ↦ rw refused (unfold store_error in j)
    | inr runs ↦ rw runs (
        let after = λ (w : WorkspaceRow). record w { state = codes "reclaimed" } in
        let free = λ (ops : List OperationRow) (w : WorkspaceRow).
          settled-is_journaled ops (after w) (reclaimed-is_settled (after w) refl) in
        (
          record {
            fresh = j.fresh;
            distinct = j.distinct;
            rows =
                All-update_rows after name db.workspaces (λ w e h. free db.operations w)
                  (λ w other h. h) j.rows;
            keyed = Unique-update_rows after name (λ w. refl) db.workspaces j.keyed;
            owned = j.owned;
          },
          mine,
          All-update_rows after name db.workspaces (λ w e h. free (delete_id id db.operations) w)
              (λ w other h. is_journaled-delete_id w name id db.operations other mine h) j.rows,
        ))
  ]

  pub deleted-IsJournaled :
      (db : Database)
      → Freed (ok tt, db)
      → IsJournaled (record db { operations = delete_id id db.operations }) qs
  deleted-IsJournaled db (j, mine, rows) = record {
    fresh = All-delete_id _ id db.operations j.fresh;
    distinct = Distinct-delete_id id db.operations j.distinct;
    rows = rows;
    keyed = j.keyed;
    owned = All-mono qs (λ q h. (h.0, All-delete_id _ id db.operations h.1)) j.owned;
  }

  pub delete-IsJournaled :
      (sql : Sqlite) (db : Database)
      → Freed (ok tt, db)
      → IsJournaled (abandon_recovery_operation sql id db).1 qs
  unfolding abandon_recovery_operation execute
  delete-IsJournaled sql db freed = elim (Bool-cases (sql.refuses delete_operation)) [
    | inl refused ↦ rw refused freed.0
    | inr runs ↦ rw runs (deleted-IsJournaled db freed)
  ]

module _ {W : Type 0} (m : Machine W) (name : Bytes) (id : ℕ) (qs : List (Bytes × ℕ)) where
  -- Wherever it ends, `reclaim` keeps the tables, for the reclamations `qs` too.
  abbrev Ends : Ran (Unit {0}) × Manager W → Type 0
  Ends r = IsKept qs r.1

  trigger_failpoint-Ends :
      (p : Failpoint) (s : Manager W) (rest : Ran (Unit {0}) × Manager W)
      → IsKept qs s
      → Ends rest
      → Ends (trigger_failpoint m p s rest)
  unfolding trigger_failpoint
  trigger_failpoint-Ends p s rest here on = elim (Bool-cases (m.exits p)) [
    | inl ends ↦ rw ends here
    | inr goes ↦ rw goes on
  ]

  reclaimed_state-Ends :
      (r : Outcome (Unit {0}) × Database) (s : Manager W)
      → Freed name id qs r
      → Ends (reclaimed_state m name id r s)
  unfolding reclaimed_state ended settled
  reclaimed_state-Ends (error e, db) s f = record { tables = f }
  reclaimed_state-Ends (ok u, db) s f =
      trigger_failpoint-Ends _ _ _ (record { tables = f.0 })
        (record { tables = delete-IsJournaled name id qs (m.sql settling) db f })

  timed-Ends :
      (r : Outcome (Unit {0}) × Database) (s : Manager W)
      → Kept name id qs r
      → Ends (timed m name id r s)
  unfolding timed ended
  timed-Ends (error e, db) s k = record { tables = k.0 }
  timed-Ends (ok u, db) s k =
      trigger_failpoint-Ends _ _ _ (record { tables = k.0 })
        (reclaimed_state-Ends _ _ (reclaimed-Freed name id qs (m.sql reclaiming) db k.0 k.1))

  cleared-Ends :
      (r : Outcome (Unit {0}) × Database) (s : Manager W)
      → Kept name id qs r
      → Ends (cleared m name id r s)
  unfolding cleared ended
  cleared-Ends (error e, db) s k = record { tables = k.0 }
  cleared-Ends (ok u, db) s k =
      trigger_failpoint-Ends _ _ _ (record { tables = k.0 })
        (timed-Ends _ _ (duration-Kept name id qs (m.sql timing) m.elapsed db k.0 k.1))

  remove_tree-Ends :
      (s : Manager W) → IsKept qs s → Mine name id qs s.db → Ends (remove_tree m name id s)
  unfolding remove_tree ended
  remove_tree-Ends s k mine = elim (Bool-cases (m.fault remove_storage == 0)) [
    | inr fails ↦ rw fails k
    | inl fine ↦ elim (Bool-cases (m.fault sync_workspaces == 0)) [
      | inr fails ↦ rw (fine, fails) (record { tables = k.tables })
      | inl synced ↦
          rw (fine, synced)
            (trigger_failpoint-Ends _ _ _ (record { tables = k.tables })
              (trigger_failpoint-Ends _ _ _ (record { tables = k.tables })
                (cleared-Ends _ _ (clear-Kept name id qs (m.sql clearing) s.db k.tables mine))))
    ]
  ]

  unlisted-Ends :
      (r : Outcome (Unit {0}) × W) (s : Manager W)
      → IsKept qs s
      → Mine name id qs s.db
      → Ends (unlisted m name id r s)
  unfolding unlisted ended
  unlisted-Ends (error e, w) s k mine = record { tables = k.tables }
  unlisted-Ends (ok u, w) s k mine =
      trigger_failpoint-Ends _ _ _ (record { tables = k.tables })
        (trigger_failpoint-Ends _ _ _ (record { tables = k.tables })
          (remove_tree-Ends _ (record { tables = k.tables }) mine))

  pub reclaim-Ends :
      (s : Manager W) → IsKept qs s → Mine name id qs s.db → Ends (reclaim m name id s)
  unfolding reclaim
  reclaim-Ends s k mine = trigger_failpoint-Ends _ _ _ k (unlisted-Ends _ s k mine)
