-- ===== src/Recovery/Crash.antt =====
-- Crashes in the middle of `publish_staged_operation` (src/core/workspace_engine.cpp) and what
-- `recover_interrupted_operations` (src/core/recovery.cpp) makes of them.
use tribios_vfs.Common.{
  ℕ, true, false, List, [], ◌∷◌, Bytes, Option, none, some, ◌≡◌, ◌≢◌, refl, arith, Bool, Bool-cases,
  inl, inr, ◌∙◌,
}
use tribios_vfs.Store.Types.{RecoveryOperation, RecoveryPhase, prepared, publishing}
use tribios_vfs.Store.Sql.{Sqlite, ok}
use tribios_vfs.Engine.Host.{
  Node, Tree, Host, lstat, root_kind, rename_staged, place, within, rename_error, renamed,
  host_rename,
}
use tribios_vfs.Engine.Trees.{lstat-remove_all, lstat-renamed}
use tribios_vfs.Engine.Publish.{drop_stage, put_stage, destination_of, is_rename, has_entry, exists}
use tribios_vfs.Engine.Outcomes.{published_tree, SettlesCleanly}
use tribios_vfs.Engine.Removal.{IsClosed}
use tribios_vfs.Recovery.{
  Storage, is_safe, is_known, is_removal, find_stage, publish_staged_entry, remove_source,
  apply_again, recover_phase, recover_operation,
}
use tribios_vfs.Recovery.Thinned.{lstat-thinned}
use tribios_vfs.Recovery.Moments.{
  Moment, journaled, staging, phased, published, removing_source, source_removed, phase_at,
  journal_entry, phased_db, crash_state, IsFresh, begun-IsJournaled, phased-IsJournaled,
  IsCompleted, IsUndone,
}
use tribios_vfs.Recovery.Reapplied.{
  IsReapplied, undone, committed_end, moved_source, thinned_source, removed_source,
}

find_stage-put_stage :
    (id : ℕ) (t : Tree) (stages : List (ℕ × Tree)) → find_stage id (put_stage id t stages) ≡ some t
unfolding find_stage put_stage
find_stage-put_stage id t stages = ground arith

find_stage-drop_stage :
    (id : ℕ) (stages : List (ℕ × Tree)) → find_stage id (drop_stage id stages) ≡ none
unfolding find_stage drop_stage
find_stage-drop_stage id [] = refl
find_stage-drop_stage id ((i, t) ∷ stages) = ground (arith, find_stage-drop_stage id stages)

-- An entry that can be renamed stands, once it is, at the destination.
has_entry-renamed :
    (stage t : Tree) (to : Bytes)
    → to ≢ []
    → rename_error stage t to ≡ 0
    → has_entry (renamed stage t to) to ≡ true
unfolding exists place
has_entry-renamed stage t to h fits =
    unfold has_entry exists in
    let top : lstat (renamed stage t to) to ≡ lstat stage [] = lstat-renamed stage t to [] h in
    rw top (stands (lstat stage []) refl)
  where
    stands : (n : Option Node) → lstat stage [] ≡ n → exists n ≡ true
    stands none e = absurd (unfold rename_error root_kind rename_staged in ground arith)
    stands (some n) e = refl

-- What an interrupted operation needs so that it can be completed: it was accepted by the host when
-- it was published, its record is one of the engine's, and a rename does not go beneath its source.
pub record IsCompletable (h : Host) (o : RecoveryOperation) (stage : Tree) (s : Storage)
    : Type 0 where
  pub settles : SettlesCleanly h
  pub renames : h.fault host_rename ≡ 0
  pub fits : rename_error stage s.upper (destination_of o) ≡ 0
  pub fresh : IsFresh s.db
  pub safe : is_safe o ≡ true
  pub known : is_known o ≡ true
  pub staged : is_removal o.kind ≡ false
  pub below_root : destination_of o ≢ []
  pub apart : is_rename o ≡ true → within o.path o.target ≡ false
  pub closed : IsClosed (renamed stage s.upper (destination_of o))

module _ (h : Host) (o : RecoveryOperation) (stage : Tree) (s : Storage)
    (c : IsCompletable h o stage s) where
  abbrev at : Moment → Storage
  at m = crash_state h.sql o stage s m

  abbrev to : Bytes
  to = destination_of o

  published_there : has_entry (renamed stage s.upper to) to ≡ true
  published_there = has_entry-renamed stage s.upper to c.below_root c.fits

  still_there : has_entry (published_tree o stage s.upper) to ≡ true
  unfolding destination_of
  still_there = elim (Bool-cases (is_rename o)) [
    | inr stays ↦ rw stays (rw stays at published_there)
    | inl moves ↦
        let apart = c.apart moves in
        rw moves (
          unfold has_entry exists in
          let there = published_there in
          ground (arith, lstat-remove_all o.path (renamed stage s.upper o.target) o.target))
  ]

  thinned_there : (keep : Bytes → Bool) → has_entry (at (removing_source keep)).upper to ≡ true
  unfolding destination_of crash_state
  thinned_there keep = elim (Bool-cases (is_rename o)) [
    | inr stays ↦ rw stays (rw stays at published_there)
    | inl moves ↦
        let apart = c.apart moves in
        rw moves (
          unfold has_entry exists in
          let there = published_there in
          ground (arith, lstat-thinned keep o.path (renamed stage s.upper o.target) o.target))
  ]

  going :
      (keep : Bytes → Bool) (t : Storage)
      → t.upper ≡ (at (removing_source keep)).upper
      → IsReapplied h o s c.settles stage t.db (remove_source h o (ok tt, t))
  unfolding crash_state
  going keep t u = elim (Bool-cases (is_rename o)) [
    | inr stays ↦ moved_source h o s c.settles stage t c.closed (u ∙ ground (arith, stays))
    | inl moves ↦
        thinned_source h o s c.settles stage keep t c.closed moves (u ∙ ground (arith, moves))
  ]

  publish_staged :
      (t : Storage)
      → t.upper ≡ s.upper
      → publish_staged_entry h s.db.next_operation (some stage) to t ≡ (
        ok tt,
        record t {
          upper = renamed stage t.upper to;
          stages = drop_stage s.db.next_operation t.stages;
        },
      )
  unfolding publish_staged_entry
  publish_staged t u = rw (u, c.fits, c.renames, c.settles.synced) refl

  publish_missing :
      (t : Storage)
      → has_entry t.upper to ≡ true
      → publish_staged_entry h s.db.next_operation none to t ≡ (ok tt, t)
  unfolding publish_staged_entry
  publish_missing t there = rw (there, c.settles.synced) refl

  applied :
      (m : Moment)
      → phase_at m ≡ publishing
      → IsReapplied h o s c.settles stage
          (phased_db h.sql o s.db)
          (apply_again h (journal_entry o s.db m) (at m))
  unfolding apply_again remove_source is_rename destination_of crash_state
  applied journaled e = absurd (ground arith)
  applied (staging t) e = absurd (ground arith)
  applied phased e =
      rw
        (
          c.staged,
          find_stage-put_stage s.db.next_operation stage s.stages,
          publish_staged (at phased) refl,
        )
        (moved_source h o s c.settles stage _ c.closed refl)
  applied published e =
      rw
        (
          c.staged,
          find_stage-drop_stage s.db.next_operation s.stages,
          publish_missing (at published) published_there,
        )
        (moved_source h o s c.settles stage _ c.closed refl)
  applied (removing_source keep) e =
      rw
        (
          c.staged,
          find_stage-drop_stage s.db.next_operation s.stages,
          publish_missing (at (removing_source keep)) (thinned_there keep),
        )
        (going keep (at (removing_source keep)) refl)
  applied source_removed e =
      rw
        (
          c.staged,
          find_stage-drop_stage s.db.next_operation s.stages,
          publish_missing (at source_removed) still_there,
        )
        (removed_source h o s c.settles stage _ refl)

  recovers :
      (m : Moment)
      → recover_operation h (journal_entry o s.db m) (at m)
        ≡ recover_phase h (journal_entry o s.db m) (phase_at m) (at m)
  unfolding recover_operation is_safe is_known
  recovers m =
      let safe : is_safe (journal_entry o s.db m) ≡ true = c.safe in
      let known : is_known (journal_entry o s.db m) ≡ true = c.known in ground arith

  completes :
      (m : Moment)
      → phase_at m ≡ publishing
      → IsCompleted h.sql o stage s (recover_phase h (journal_entry o s.db m) publishing (at m)).1
  unfolding recover_phase
  completes m e =
      let (t, r, u, d) = applied m e in
      rw r
        (committed_end h o s c.settles m stage t u (rw d (phased-IsJournaled h.sql o s.db c.fresh)))

-- What recovery is to leave, by the phase in the journal.
abbrev pub Recovered :
    Sqlite → RecoveryOperation → Tree → Storage → RecoveryPhase → Storage → Type 0
Recovered sql o stage s prepared r = IsUndone s r
Recovered sql o stage s publishing r = IsCompleted sql o stage s r

-- After a crash at any of the moments of a staged operation (any kind but unlink and rmdir) that the
-- host can complete, recovery ends in one of the two states that the running operation ends in: if its
-- row says `prepared`, the upper tree, the tombstones and the journal are as they were before it; if it
-- says `publishing`, every path of the upper tree shows what it shows after the completed operation,
-- its tombstones are stored, and its row is gone.
pub recover_operation-crash :
    (h : Host) (o : RecoveryOperation) (stage : Tree) (s : Storage) (m : Moment)
    → IsCompletable h o stage s
    → Recovered h.sql o stage s
        (phase_at m)
        (recover_operation h (journal_entry o s.db m) (crash_state h.sql o stage s m)).1
unfolding crash_state
recover_operation-crash h o stage s journaled c =
    rw (recovers h o stage s c journaled)
      (undone h o s c.settles _ journaled _ (begun-IsJournaled h.sql o s.db c.fresh))
recover_operation-crash h o stage s (staging t) c =
    rw (recovers h o stage s c (staging t))
      (undone h o s c.settles _ (staging t) _ (begun-IsJournaled h.sql o s.db c.fresh))
recover_operation-crash h o stage s phased c =
    rw (recovers h o stage s c phased) (completes h o stage s c phased refl)
recover_operation-crash h o stage s published c =
    rw (recovers h o stage s c published) (completes h o stage s c published refl)
recover_operation-crash h o stage s (removing_source keep) c =
    rw (recovers h o stage s c (removing_source keep))
      (completes h o stage s c (removing_source keep) refl)
recover_operation-crash h o stage s source_removed c =
    rw (recovers h o stage s c source_removed) (completes h o stage s c source_removed refl)
