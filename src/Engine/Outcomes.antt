-- ===== src/Engine/Outcomes.antt =====
-- What a published operation leaves behind, when it succeeds and when it fails:
-- `publish_staged_operation` of src/core/workspace_engine.cpp.
use tribios_vfs.Common.{false, ◌==◌, if◌then◌else◌, ◌≡◌, refl, arith, Bool-cases, inl, inr}
use tribios_vfs.Store.Types.{Database, RecoveryOperation}
use tribios_vfs.Store.Sql.{
  Outcome, begin_immediate, commit, insert_tombstone, delete_tombstones, delete_operation,
}
use tribios_vfs.Store.Journal.{finish_recovery_operation}
use tribios_vfs.Engine.Host.{
  Tree, Host, ok, fail, remove_all, renamed, destination_sync, source_remove,
}
use tribios_vfs.Engine.State.{Engine}
use tribios_vfs.Engine.Publish.{
  Status, is_rename, destination_of, apply_tombstones, discard, finish, finished, settle, publish,
  rename_fault, publish_or_discard,
}

-- The upper tree after the staged entry took its place and a moved source went.
abbrev pub published_tree : RecoveryOperation → Tree → Tree → Tree
published_tree o stage t =
    let there = renamed stage t (destination_of o) in
    if is_rename o then remove_all o.path there else there

-- The operation took effect.
pub record IsPublished (o : RecoveryOperation) (stage : Tree) (e e' : Engine) : Type 0 where
  pub upper : e'.upper ≡ published_tree o stage e.upper
  pub tombstones : e'.tombstones ≡ apply_tombstones o e.tombstones
  pub base : e'.base ≡ e.base
  pub cache : e'.cache ≡ e.cache

-- The trees and the tombstones, of which every path shows its entry, are as they were.
pub record IsUntouched (e e' : Engine) : Type 0 where
  pub upper : e'.upper ≡ e.upper
  pub tombstones : e'.tombstones ≡ e.tombstones
  pub base : e'.base ≡ e.base

-- The host does what is left to do after the rename.
pub record SettlesCleanly (h : Host) : Type 0 where
  pub synced : h.fault destination_sync ≡ 0
  pub removed : h.fault source_remove ≡ 0
  pub begins : h.sql.refuses begin_immediate ≡ false
  pub inserts : h.sql.refuses insert_tombstone ≡ false
  pub deletes : h.sql.refuses delete_tombstones ≡ false
  pub settles : h.sql.refuses delete_operation ≡ false
  pub commits : h.sql.refuses commit ≡ false

-- The two endings, of an operation on a state `e`.
abbrev pub Ending : Host → RecoveryOperation → Tree → Engine → Status × Engine → Type 0
Ending h o stage e (ok u, e') = IsPublished o stage e e'
Ending h o stage e (fail c, e') = SettlesCleanly h → IsUntouched e e'

pub finish_clean :
    (h : Host) (o : RecoveryOperation) (db : Database)
    → SettlesCleanly h
    → (finish_recovery_operation h.sql o db).0 ≡ Outcome.ok tt
unfolding finish_recovery_operation
finish_clean h o db c = ground arith

module _ (h : Host) (o : RecoveryOperation) (stage : Tree) (e : Engine) where
  pub finished-Ending :
      (r : Outcome (Unit {0}) × Database) (s : Engine)
      → IsPublished o stage e (record s { tombstones = apply_tombstones o s.tombstones })
      → (SettlesCleanly h → r.0 ≡ Outcome.ok tt)
      → Ending h o stage e (finished o r s)
  unfolding finished
  finished-Ending (Outcome.error m, db) s p clean = λ k. absurd (cc (clean k))
  finished-Ending (Outcome.ok u, db) s p clean = record {
    upper = p.upper;
    tombstones = p.tombstones;
    base = p.base;
    cache = p.cache;
  }

  finish-Ending :
      (s : Engine)
      → IsPublished o stage e (record s { tombstones = apply_tombstones o s.tombstones })
      → Ending h o stage e (finish h o s)
  unfolding finish
  finish-Ending s p =
      finished-Ending (finish_recovery_operation h.sql o s.db) s p (finish_clean h o s.db)

  settle-Ending : Ending h o stage e (settle h o (publish h o stage e))
  unfolding settle publish
  settle-Ending = elim (Bool-cases (is_rename o)) [
    | inr stays ↦ rw stays (
        finish-Ending (publish h o stage e)
          (record { upper = rw stays refl; tombstones = refl; base = refl; cache = refl }))
    | inl moves ↦ elim (Bool-cases (h.fault source_remove == 0)) [
      | inr left ↦ rw (moves, left) (λ k. absurd (ground (arith, k.removed)))
      | inl gone ↦
          rw (moves, gone)
            (finish-Ending _
              (record { upper = rw moves refl; tombstones = refl; base = refl; cache = refl }))
    ]
  ]

  pub publish_or_discard-Ending : Ending h o stage e (publish_or_discard h o stage e)
  unfolding publish_or_discard
  publish_or_discard-Ending = elim (Bool-cases (rename_fault h o stage e == 0)) [
    | inr refused ↦
        rw refused (λ k. unfold discard in record { upper = refl; tombstones = refl; base = refl })
    | inl fits ↦ elim (Bool-cases (h.fault destination_sync == 0)) [
      | inr unsynced ↦ rw (fits, unsynced) (λ k. absurd (ground (arith, k.synced)))
      | inl synced ↦ rw (fits, synced) settle-Ending
    ]
  ]
