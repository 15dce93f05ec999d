-- ===== src/Engine/Whole.antt =====
-- The endings of a whole journaled operation: `publish_staged_operation` of
-- src/core/workspace_engine.cpp.
use tribios_vfs.Common.{ℕ, ◌∙◌, ◌==◌, ◌≡◌, refl, Bool-cases, inl, inr, ap}
use tribios_vfs.Store.Types.{Database, RecoveryOperation, publishing}
use tribios_vfs.Store.Sql.{Outcome}
use tribios_vfs.Engine.Host.{
  Tree, Host, eio, Result, journal_write, recovery_dir, stage_flush, stage_sync, journal_phase, ok,
  fail,
}
use tribios_vfs.Engine.State.{Engine}
use tribios_vfs.Engine.Listing.{forget_cached_directory_entries}
use tribios_vfs.Engine.Publish.{
  Status, forget_touched, publish_staged_operation, stage_begun, stage_prepared, flush_stage,
  change_phase, is_rename, destination_of, apply_tombstones, discard,
}
use tribios_vfs.Engine.Outcomes.{
  published_tree, IsPublished, IsUntouched, SettlesCleanly, Ending, publish_or_discard-Ending,
}

-- The fields of a state that an ending compares with.
pub record SameTrees (e s : Engine) : Type 0 where
  pub upper : s.upper ≡ e.upper
  pub tombstones : s.tombstones ≡ e.tombstones
  pub base : s.base ≡ e.base
  pub cache : s.cache ≡ e.cache

pub forget_touched-IsUntouched :
    (o : RecoveryOperation) (e : Engine) → IsUntouched e (forget_touched o e)
unfolding forget_touched forget_cached_directory_entries
forget_touched-IsUntouched o e = elim (Bool-cases (is_rename o)) [
  | inl y ↦ record { upper = rw y; tombstones = rw y; base = rw y }
  | inr y ↦ record { upper = rw y; tombstones = rw y; base = rw y }
]

IsUntouched-trans : {e s e' : Engine} → IsUntouched e s → IsUntouched s e' → IsUntouched e e'
IsUntouched-trans p q = record {
  upper = q.upper ∙ p.upper;
  tombstones = q.tombstones ∙ p.tombstones;
  base = q.base ∙ p.base;
}

module _ (h : Host) (o : RecoveryOperation) (prepare : Engine → Result Tree) (e : Engine) where
  -- The ending of a whole operation: if it succeeds, its stage is what was prepared, in a state that
  -- differs from the first in its journal and its cache alone.
  abbrev pub WholeEnding : Status × Engine → Type 0
  WholeEnding (ok u, e') =
      (stage : Tree) × (db : Database) × (prepare (record (forget_touched o e) { db = db })
        ≡ ok stage)
      × IsPublished o stage (forget_touched o e) e'
  WholeEnding (fail c, e') = SettlesCleanly h → IsUntouched e e'

  whole_of :
      (stage : Tree) (db : Database) (id : ℕ) (s : Engine) (r : Status × Engine)
      → prepare (record (forget_touched o e) { db = db }) ≡ ok stage
      → SameTrees (forget_touched o e) s
      → Ending h (record o { id = id; phase = publishing }) stage s r
      → WholeEnding r
  unfolding is_rename destination_of apply_tombstones
  whole_of stage db id s (ok u, e') q same p = (
    stage,
    db,
    q,
    record {
      upper = p.upper ∙ ap (published_tree o stage) same.upper;
      tombstones = p.tombstones ∙ ap (apply_tombstones o) same.tombstones;
      base = p.base ∙ same.base;
      cache = p.cache ∙ same.cache;
    },
  )
  whole_of stage db id s (fail c, e') q same p = λ k.
      IsUntouched-trans (forget_touched-IsUntouched o e) (
        IsUntouched-trans
          (record { upper = same.upper; tombstones = same.tombstones; base = same.base }) (p k))

  -- An early failure: the state differs from the ready one in its journal and its stages.
  early : (c : ℕ) (e' : Engine) → SameTrees (forget_touched o e) e' → WholeEnding (fail c, e')
  early c e' same = λ k.
      IsUntouched-trans (forget_touched-IsUntouched o e)
        (record { upper = same.upper; tombstones = same.tombstones; base = same.base })

  discarded :
      (q : RecoveryOperation) (s : Engine)
      → SameTrees (forget_touched o e) s
      → SameTrees (forget_touched o e) (discard h q s)
  unfolding discard
  discarded q s same = record {
    upper = same.upper;
    tombstones = same.tombstones;
    base = same.base;
    cache = same.cache;
  }

  module _ (stage : Tree) (db : Database) (id : ℕ)
      (staged : prepare (record (forget_touched o e) { db = db }) ≡ ok stage) where
    change_phase-WholeEnding :
        (r : Outcome (Unit {0}) × Database) (s : Engine)
        → SameTrees (forget_touched o e) s
        → WholeEnding (change_phase h (record o { id = id }) stage r s)
    unfolding change_phase
    change_phase-WholeEnding (Outcome.error m, d) s same =
        early eio _ (discarded (record o { id = id }) s same)
    change_phase-WholeEnding (Outcome.ok u, d) s same =
        let t : SameTrees (forget_touched o e) (record s { db = d }) = record {
          upper = same.upper;
          tombstones = same.tombstones;
          base = same.base;
          cache = same.cache;
        } in
        whole_of stage db id (record s { db = d }) _ staged t
          (publish_or_discard-Ending h (record o { id = id; phase = publishing }) stage
            (record s { db = d }))

    flush_stage-WholeEnding :
        (s : Engine)
        → SameTrees (forget_touched o e) s
        → WholeEnding (flush_stage h (record o { id = id }) stage s)
    unfolding flush_stage
    flush_stage-WholeEnding s same =
        let q = record o { id = id } in
        elim (Bool-cases (h.fault stage_flush == 0)) [
          | inr f ↦ rw f (early (h.fault stage_flush) _ (discarded q s same))
          | inl f ↦ elim (Bool-cases (h.fault stage_sync == 0)) [
            | inr g ↦ rw (f, g) (early (h.fault stage_sync) _ (discarded q s same))
            | inl g ↦ elim (Bool-cases (h.fault journal_phase == 0)) [
              | inr j ↦ rw (f, g, j) (early (h.fault journal_phase) _ (discarded q s same))
              | inl j ↦ rw (f, g, j) (change_phase-WholeEnding _ s same)
            ]
          ]
        ]

  with_stage :
      (id : ℕ) (db : Database)
      → SameTrees (forget_touched o e) (record (forget_touched o e) { db = db })
  with_stage id db = record { upper = refl; tombstones = refl; base = refl; cache = refl }

  stage_prepared-WholeEnding :
      (id : ℕ) (db : Database) (r : Result Tree)
      → prepare (record (forget_touched o e) { db = db }) ≡ r
      → WholeEnding
          (stage_prepared h (record o { id = id }) r (record (forget_touched o e) { db = db }))
  unfolding stage_prepared
  stage_prepared-WholeEnding id db (fail c) q =
      early c _ (discarded (record o { id = id }) _ (with_stage id db))
  stage_prepared-WholeEnding id db (ok stage) q =
      flush_stage-WholeEnding stage db id q _
        (record { upper = refl; tombstones = refl; base = refl; cache = refl })

  stage_begun-WholeEnding :
      (r : Outcome ℕ × Database) → WholeEnding (stage_begun h o prepare r (forget_touched o e))
  unfolding stage_begun
  stage_begun-WholeEnding (Outcome.error m, db) =
      early eio _ (record { upper = refl; tombstones = refl; base = refl; cache = refl })
  stage_begun-WholeEnding (Outcome.ok id, db) = elim (Bool-cases (h.fault recovery_dir == 0)) [
    | inr f ↦
        rw f
          (early (h.fault recovery_dir) _ (discarded (record o { id = id }) _ (with_stage id db)))
    | inl f ↦ rw f (stage_prepared-WholeEnding id db _ refl)
  ]

  -- A journaled operation ends in one of two ways. If it succeeds, the upper tree is the old one with
  -- the prepared stage in the place of the destination (and, for a rename, without the source), the
  -- tombstones in memory are those with the operation applied, and the Base tree is the same. If it
  -- fails, whatever step it is that fails before the staged entry is renamed, the trees and the
  -- tombstones are as they were: that is, if the host then has no fault left to show after the rename
  -- (the flush of the directory, the removal of the source, and the last transaction).
  pub publish_staged_operation-WholeEnding : WholeEnding (publish_staged_operation h o prepare e)
  unfolding publish_staged_operation
  publish_staged_operation-WholeEnding = elim (Bool-cases (h.fault journal_write == 0)) [
    | inr f ↦ rw f (λ k. record { upper = refl; tombstones = refl; base = refl })
    | inl f ↦ rw f (stage_begun-WholeEnding _)
  ]

  -- The two ways in which an operation may end: its entry, its tombstones and the removal of its
  -- source took effect together, or none did.
  abbrev pub Settled : Status × Engine → Type 0
  Settled (ok u, e') = WholeEnding (ok u, e')
  Settled (fail c, e') = IsUntouched e e'

  WholeEnding-Settled : (r : Status × Engine) → SettlesCleanly h → WholeEnding r → Settled r
  WholeEnding-Settled (ok u, e') k w = w
  WholeEnding-Settled (fail c, e') k w = w k

-- If the host does what is left to do after the rename, an operation is all or nothing, whichever
-- step fails before: a success leaves the upper tree with the staged entry at its destination and
-- without a moved source, and the tombstones of the operation; a failure leaves both trees and the
-- tombstones as they were.
pub publish_staged_operation-Settled :
    (h : Host) (o : RecoveryOperation) (prepare : Engine → Result Tree) (e : Engine)
    → SettlesCleanly h
    → Settled h o prepare e (publish_staged_operation h o prepare e)
publish_staged_operation-Settled h o prepare e k =
    WholeEnding-Settled h o prepare e _ k (publish_staged_operation-WholeEnding h o prepare e)
