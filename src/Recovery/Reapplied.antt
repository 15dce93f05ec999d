-- ===== src/Recovery/Reapplied.antt =====
-- One operation of the journal that `recover_interrupted_operations` (src/core/recovery.cpp) undoes, or
-- whose entry and source it settles again.
use tribios_vfs.Common.{
  ℕ, true, false, List, Bytes, none, if◌then◌else◌, ◌≡◌, refl, arith, Bool, bytes_eq_refl,
  Bool-cases, inl, inr, ◌∙◌, ap, sym,
}
use tribios_vfs.Store.Types.{Database, RecoveryOperation, prepared}
use tribios_vfs.Store.Sql.{Outcome, ok}
use tribios_vfs.Store.Journal.{abandon_recovery_operation}
use tribios_vfs.Store.Atomic.{finish_atomic}
use tribios_vfs.Engine.Host.{Tree, Host, lstat, within, remove_all, renamed}
use tribios_vfs.Engine.Trees.{lstat-remove_all, within_refl}
use tribios_vfs.Engine.Publish.{destination_of, is_rename, has_entry, exists}
use tribios_vfs.Engine.Outcomes.{published_tree, SettlesCleanly, finish_clean}
use tribios_vfs.Engine.Removal.{IsClosed, no_entry}
use tribios_vfs.Recovery.{
  Storage, remove_upper_entry, remove_source, with_db, commit_recovered, recover_phase,
}
use tribios_vfs.Recovery.Thinned.{thinned, remove_all-thinned, lstat-thinned}
use tribios_vfs.Recovery.Moments.{Moment, journal_entry, IsJournaled, IsCompleted, IsUndone}

module _ (h : Host) (o : RecoveryOperation) (s : Storage) (clean : SettlesCleanly h) where
  abbrev id : ℕ
  id = s.db.next_operation

  pub undone :
      (stages : List (ℕ × Tree)) (m : Moment) (d : Database)
      → IsJournaled s.db.next_operation s.db d
      → IsUndone s
          (recover_phase h
            (journal_entry o s.db m)
            prepared
            (record s { stages = stages; db = d })).1
  unfolding recover_phase with_db abandon_recovery_operation
  undone stages m d j =
      let runs = clean.settles in
      let clears = clean.removed in
      record { upper = ground arith; tombstones = ground arith; operations = ground arith }

  -- The rest of an operation whose entry and source are settled.
  abbrev pub IsReapplied : Tree → Database → Outcome (Unit {0}) × Storage → Type 0
  IsReapplied stage d r =
      (t : Storage) × (r ≡ (ok tt, t))
      × ((p : Bytes) → lstat t.upper p ≡ lstat (published_tree o stage s.upper) p)
      × (t.db ≡ d)

  pub committed_end :
      (m : Moment) (stage : Tree) (t : Storage)
      → ((p : Bytes) → lstat t.upper p ≡ lstat (published_tree o stage s.upper) p)
      → IsJournaled s.db.next_operation s.db t.db
      → IsCompleted h.sql o stage s (commit_recovered h (journal_entry o s.db m) (ok tt, t)).1
  unfolding commit_recovered with_db
  committed_end m stage t u j =
      let q = journal_entry o s.db m in
      elim (finish_atomic h.sql q t.db) [
        | inl e ↦ record {
          upper = u;
          tombstones = rw (e, j.tombstones);
          operations = rw e j.operations;
        }
        | inr (inl (x, e)) ↦ absurd (cc (finish_clean h q t.db clean))
        | inr (inr (c, k, (x, e))) ↦ absurd (cc (finish_clean h q t.db clean))
      ]

  pub moved_source :
      (stage : Tree) (t : Storage)
      → IsClosed (renamed stage s.upper (destination_of o))
      → t.upper ≡ renamed stage s.upper (destination_of o)
      → IsReapplied stage t.db (remove_source h o (ok tt, t))
  unfolding remove_source remove_upper_entry
  moved_source stage t closed u =
      let there = renamed stage s.upper (destination_of o) in
      elim (Bool-cases (is_rename o)) [
        | inr stays ↦
            let same : published_tree o stage s.upper ≡ there = ground arith in
            (t, ground arith, (λ p. ap (λ w. lstat w p) (u ∙ sym same)), refl)
        | inl moves ↦
            let cut : published_tree o stage s.upper ≡ remove_all o.path there = ground arith in
            elim (Bool-cases (has_entry t.upper o.path)) [
              | inl stands ↦ (
                record t { upper = remove_all o.path t.upper },
                ground (arith, clean.removed),
                (λ p. ap (λ w. lstat w p) (ap (remove_all o.path) u ∙ sym cut)),
                refl,
              )
              | inr gone ↦
                  let none_there = no_entry there o.path (rw u at gone) in
                  (
                    t,
                    ground arith,
                    (λ p.
                        rw (u, cut, lstat-remove_all)
                          (if_within o.path there p (closed o.path p) none_there)),
                    refl,
                  )
            ]
      ]
    where
      if_within :
          (top : Bytes) (w : Tree) (p : Bytes)
          → (within top p ≡ true → lstat w top ≡ none → lstat w p ≡ none)
          → lstat w top ≡ none
          → lstat w p ≡ (if within top p then none else lstat w p)
      if_within top w p k e = ground (arith, k)

  pub thinned_source :
      (stage : Tree) (keep : Bytes → Bool) (t : Storage)
      → IsClosed (renamed stage s.upper (destination_of o))
      → is_rename o ≡ true
      → t.upper ≡ thinned keep o.path (renamed stage s.upper (destination_of o))
      → IsReapplied stage t.db (remove_source h o (ok tt, t))
  unfolding remove_source remove_upper_entry
  thinned_source stage keep t closed moves u =
      let there = renamed stage s.upper (destination_of o) in
      let cut : published_tree o stage s.upper ≡ remove_all o.path there = ground arith in
      let rest : remove_all o.path t.upper ≡ published_tree o stage s.upper =
        ap (remove_all o.path) u ∙ remove_all-thinned keep o.path there ∙ sym cut in
      elim (Bool-cases (has_entry t.upper o.path)) [
        | inl stands ↦ (
          record t { upper = remove_all o.path t.upper },
          ground (arith, clean.removed),
          (λ p. ap (λ w. lstat w p) rest),
          refl,
        )
        | inr gone ↦
            let none_there = no_entry (thinned keep o.path there) o.path (rw u at gone) in
            (
              t,
              ground arith,
              (λ p.
                  rw (u, cut, lstat-remove_all)
                    (nothing_left o.path keep there p (closed o.path p) none_there)),
              refl,
            )
      ]
    where
      nothing_left :
          (top : Bytes) (k : Bytes → Bool) (w : Tree) (p : Bytes)
          → (within top p ≡ true → lstat w top ≡ none → lstat w p ≡ none)
          → lstat (thinned k top w) top ≡ none
          → lstat (thinned k top w) p ≡ (if within top p then none else lstat w p)
      nothing_left top k w p c e =
          ground
            (arith, c, e, lstat-thinned k top w p, lstat-thinned k top w top, bytes_eq_refl top)

  pub removed_source :
      (stage : Tree) (t : Storage)
      → t.upper ≡ published_tree o stage s.upper
      → IsReapplied stage t.db (remove_source h o (ok tt, t))
  unfolding remove_source remove_upper_entry
  removed_source stage t u = elim (Bool-cases (is_rename o)) [
    | inr stays ↦ (t, ground arith, (λ p. ap (λ w. lstat w p) u), refl)
    | inl moves ↦
        let there = renamed stage s.upper (destination_of o) in
        let cut : t.upper ≡ remove_all o.path there = ground arith in
        let gone : has_entry t.upper o.path ≡ false =
          unfold has_entry exists in
          rw cut (ground (arith, lstat-remove_all o.path there o.path, within_refl o.path)) in
        (t, ground arith, (λ p. ap (λ w. lstat w p) u), refl)
  ]
