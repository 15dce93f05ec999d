-- ===== src/Store/Tests.antt =====
-- An executable LIKE that meets SQLite's documentation, runs of src/core/metadata_store.cpp, and the
-- theorems at concrete tables.
use tribios_vfs.Common.{
  ◌-◌, ◌^◌, ℕ, Bool, true, false, [], ◌∷◌, Bytes, codes, bytes_eq, ◌==◌, ◌&&◌, ◌||◌, none, some,
  if◌then◌else◌, ◌≡◌, ◌↔◌, ◌⊎◌, ◌≢◌, Bool-cases, inl, inr, refl, arith, is_empty,
}
use tribios_vfs.Store.Types.{Database, RecoveryOperation, publishing, WorkspaceRecord, active}
use tribios_vfs.Store.Sql.{bound_text, Sqlite, ok, error, select_workspaces}
use tribios_vfs.Store.Workspaces.{save_workspace_record, load_workspace_record}
use tribios_vfs.Store.Tombstones.{
  falls_under, load_workspace_tombstones, add_tombstone, remove_tombstones_under, clear_tombstones,
}
use tribios_vfs.Store.Journal.{
  begin_recovery_operation, abandon_recovery_operation, finish_recovery_operation,
}
use tribios_vfs.Store.Like.{
  LikeMatches, LikeIsDocumented, fold_case, IsBelow, falls_under_iff, done, escaped, skip, more,
  one, literal,
}
use tribios_vfs.Store.Isolated.{load_workspace_tombstones-others}
use tribios_vfs.Store.Atomic.{
  committed, IsLeftOpen, finish_atomic, load-save_workspace_record, abandon-begin,
}

-- LIKE by recursion on the pattern and, for `%`, on the text.
any_tail : (Bytes → Bool) → Bytes → Bool
any_tail rest [] = rest []
any_tail rest (d ∷ t) = rest (d ∷ t) || any_tail rest t

on_head : (ℕ → Bool) → (Bytes → Bool) → Bytes → Bool
on_head test rest [] = false
on_head test rest (d ∷ t) = test d && rest t

plain_like : ℕ → (Bytes → Bool) → Bytes → Bool
unfolding any_tail on_head
plain_like e rest t =
    if e == b'%'
    then any_tail rest t
    else on_head (λ d. (e == b'_') || (fold_case e == fold_case d)) rest t

like : Bytes → Bytes → Bool
unfolding plain_like on_head
like [] t = is_empty t
like (e ∷ []) t = elim (e == b'\\') [ true ↦ false | false ↦ plain_like e (like []) t ]
like (e ∷ c ∷ p) t = elim (e == b'\\') [
  | true ↦ on_head (λ d. fold_case c == fold_case d) (like p) t
  | false ↦ plain_like e (like (c ∷ p)) t
]

any_tail_sound :
    (e : ℕ) (p : Bytes) (rest : Bytes → Bool) (t : Bytes)
    → e ≡ b'%'
    → ((s : Bytes) → rest s ≡ true → LikeMatches p s)
    → any_tail rest t ≡ true
    → LikeMatches (e ∷ p) t
unfolding any_tail
any_tail_sound e p rest [] b k h = skip b (k [] h)
any_tail_sound e p rest (d ∷ t) b k h = elim (Bool-cases (rest (d ∷ t))) [
  | inl y ↦ skip b (k (d ∷ t) y)
  | inr y ↦ more b (any_tail_sound e p rest t b k (ground arith))
]

plain_like_sound :
    (e : ℕ) (p : Bytes) (rest : Bytes → Bool) (t : Bytes)
    → e ≢ b'\\'
    → ((s : Bytes) → rest s ≡ true → LikeMatches p s)
    → plain_like e rest t ≡ true
    → LikeMatches (e ∷ p) t
unfolding plain_like
plain_like_sound e p rest [] b k h = elim (Bool-cases (e == b'%')) [
  | inl y ↦ any_tail_sound e p rest [] (ground arith) k (ground arith)
  | inr y ↦ absurd (ground arith)
]
plain_like_sound e p rest (d ∷ t) b k h = elim (Bool-cases (e == b'%')) [
  | inl y ↦ any_tail_sound e p rest (d ∷ t) (ground arith) k (ground arith)
  | inr y ↦ elim (Bool-cases (e == b'_')) [
    | inl z ↦ one (ground arith) (k t (ground arith))
    | inr z ↦ literal b (ground arith) (ground arith) (ground arith) (k t (ground arith))
  ]
]

escaped_sound :
    (e c : ℕ) (p : Bytes) (rest : Bytes → Bool) (t : Bytes)
    → e ≡ b'\\'
    → ((s : Bytes) → rest s ≡ true → LikeMatches p s)
    → on_head (λ d. fold_case c == fold_case d) rest t ≡ true
    → LikeMatches (e ∷ c ∷ p) t
unfolding on_head
escaped_sound e c p rest [] b k h = cc
escaped_sound e c p rest (d ∷ t) b k h = escaped b (ground arith) (k t (ground arith))

like_sound : (p t : Bytes) → like p t ≡ true → LikeMatches p t
unfolding like
like_sound [] [] h = done
like_sound [] (d ∷ t) h = cc
like_sound (e ∷ []) t h =
    plain_like_sound e [] (like []) t (ground arith) (like_sound []) (ground arith)
like_sound (e ∷ c ∷ p) t h = elim (Bool-cases (e == b'\\')) [
  | inl y ↦ escaped_sound e c p (like p) t (ground arith) (like_sound p) (rw (y, like) at h)
  | inr y ↦
      plain_like_sound e (c ∷ p) (like (c ∷ p)) t (ground arith) (like_sound (c ∷ p))
        (rw (y, like) at h)
]

any_tail_complete : (rest : Bytes → Bool) (t : Bytes) → rest t ≡ true → any_tail rest t ≡ true
unfolding any_tail
any_tail_complete rest [] h = h
any_tail_complete rest (d ∷ t) h = rw h

any_tail_more :
    (rest : Bytes → Bool) (d : ℕ) (t : Bytes)
    → any_tail rest t ≡ true
    → any_tail rest (d ∷ t) ≡ true
unfolding any_tail
any_tail_more rest d t h = ground arith

like_complete : {p t : Bytes} → LikeMatches p t → like p t ≡ true
unfolding like
like_complete done = refl
like_complete (escaped {p = p} {t = t} b f m) = ground (arith, like_complete m)
like_complete (skip {p = []} {t = t} b m) =
    ground (arith, any_tail_complete (like []) t (like_complete m))
like_complete (skip {p = c ∷ p} {t = t} b m) =
    ground (arith, any_tail_complete (like (c ∷ p)) t (like_complete m))
like_complete (more {e = e} {d = d} {p = []} {t = t} b m) =
    ground (arith, like_complete m, any_tail_more (like []) d t)
like_complete (more {e = e} {d = d} {p = c ∷ p} {t = t} b m) =
    ground (arith, like_complete m, any_tail_more (like (c ∷ p)) d t)
like_complete (one {p = []} b m) = ground (arith, like_complete m)
like_complete (one {p = c ∷ p} b m) = ground (arith, like_complete m)
like_complete (literal {p = []} x y z f m) = ground (arith, like_complete m)
like_complete (literal {p = c ∷ p} x y z f m) = ground (arith, like_complete m)

abbrev sqlite : Sqlite
sqlite = record {
  refuses = λ _. false;
  rows_read = λ _. none;
  stays_open = false;
  message = λ _. [];
  like = like;
  now = 7;
}

like-LikeIsDocumented : LikeIsDocumented sqlite
like-LikeIsDocumented p t h = (like_sound p t, like_complete)

abbrev feature : Bytes
feature = codes "feature-x"

falls_under_iff_example :
    (falls_under sqlite feature (codes "a_b") (record { workspace = feature; path = codes "A_b/c" })
      ≡ true)
    ↔ ((◌≡◌ {A = Bytes} feature feature)
        × ((◌≡◌ {A = Bytes} (codes "A_b/c") (codes "a_b")) ⊎ IsBelow (codes "a_b") (codes "A_b/c")))
falls_under_iff_example =
    falls_under_iff sqlite like-LikeIsDocumented feature (codes "a_b")
      (record { workspace = feature; path = codes "A_b/c" })

-- The DELETE for `docs` takes the tombstone of `Docs/a` with it.
other_case_is_taken :
    falls_under sqlite feature
      (codes "docs")
      (record { workspace = feature; path = codes "Docs/a" })
    ≡ true
unfolding falls_under like
other_case_is_taken = refl

prefix_is_kept :
    falls_under sqlite feature
      (codes "docs")
      (record { workspace = feature; path = codes "docs2/a" })
    ≡ false
unfolding falls_under like
prefix_is_kept = refl

abbrev empty : Database
empty = record {
  project = none;
  workspaces = [];
  tombstones = [];
  operations = [];
  next_operation = 1;
  diagnostics = [];
  next_diagnostic = 1;
}

abbrev renaming : RecoveryOperation
renaming = record {
  id = 1;
  workspace = feature;
  kind = codes "rename";
  path = codes "a";
  target = codes "b";
  phase = publishing;
  add_path_tombstone = true;
  drop_target_tombstones = true;
}

finish_atomic_example :
    (finish_recovery_operation sqlite renaming empty ≡ (ok tt, committed sqlite renaming empty))
    ⊎ (((m : Bytes) × (finish_recovery_operation sqlite renaming empty ≡ (error m, empty)))
        ⊎ IsLeftOpen sqlite
            (committed sqlite renaming empty)
            (finish_recovery_operation sqlite renaming empty))
finish_atomic_example = finish_atomic sqlite renaming empty

abbrev agent : WorkspaceRecord
agent = record {
  name = feature;
  branch = codes "main";
  state = active;
  created_at = 1;
  create_us = 2;
  removed_at = 0;
  logical_remove_us = 0;
  reclaim_us = 2 ^ 64 - 1;
}

load-save_workspace_record_example :
    load_workspace_record sqlite feature (save_workspace_record sqlite agent empty).1 ≡ (
      if sqlite.refuses select_workspaces
      then none
      else if bytes_eq agent.name feature
      then some (record agent { branch = bound_text agent.branch })
      else load_workspace_record sqlite feature empty)
unfolding save_workspace_record bound_text
load-save_workspace_record_example =
    load-save_workspace_record sqlite agent feature empty refl refl refl

abandon-begin_example :
    (abandon_recovery_operation sqlite empty.next_operation
      (begin_recovery_operation sqlite renaming empty).1).1.operations
    ≡ empty.operations
unfolding begin_recovery_operation
abandon-begin_example = abandon-begin sqlite renaming empty tt refl refl

-- A tombstone of another Workspace beneath the target of the rename.
abbrev hidden : Database
hidden = record empty { tombstones = record { workspace = codes "other"; path = codes "b/x" } ∷ [] }

other_Workspace : bytes_eq renaming.workspace (codes "other") ≡ false
unfolding bytes_eq
other_Workspace = refl

load_workspace_tombstones-others_example :
    (load_workspace_tombstones sqlite
        (codes "other")
        (add_tombstone sqlite renaming.workspace (codes "b") hidden).1
      ≡ load_workspace_tombstones sqlite (codes "other") hidden)
    × (load_workspace_tombstones sqlite
          (codes "other")
          (remove_tombstones_under sqlite renaming.workspace (codes "b") hidden).1
        ≡ load_workspace_tombstones sqlite (codes "other") hidden)
    × (load_workspace_tombstones sqlite
          (codes "other")
          (clear_tombstones sqlite renaming.workspace hidden).1
        ≡ load_workspace_tombstones sqlite (codes "other") hidden)
    × (load_workspace_tombstones sqlite
          (codes "other")
          (finish_recovery_operation sqlite renaming hidden).1
        ≡ load_workspace_tombstones sqlite (codes "other") hidden)
load_workspace_tombstones-others_example =
    load_workspace_tombstones-others sqlite renaming (codes "b") (codes "other") hidden
      other_Workspace
