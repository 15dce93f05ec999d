-- ===== src/Projects/Git.antt =====
-- Linked Git worktrees: src/core/git_worktree.cpp. The Project's Git directory and the staging
-- directory are a state `W` which the source reaches through Git and the file system alone; these are
-- the operations that it uses.
use tribios_vfs.Common.{
  ℕ, Bool, true, false, List, [], ◌∷◌, ◌++◌, Bytes, codes, starts_with, drop, Option, none, some,
  ◌==◌, ◌&&◌, ◌||◌, not, if◌then◌else◌,
}
use tribios_vfs.Store.Sql.{Outcome, ok, error}
use tribios_vfs.Projects.Names.{path_join}

-- `ProcessResult`: whether the process ended with 0, and what it printed.
pub record Run : Type 0 where
  pub succeeded : Bool
  pub output : Bytes

-- `run` is `run_process_and_capture_output`; `flush` is the errno of an fsync, 0 where it succeeds.
-- A flush changes nothing that the program reads.
pub record Repository (W : Type 0) : Type 0 where
  pub run : List Bytes → W → Run × W
  pub remove_dir : Bytes → W → W
  pub make_dirs : Bytes → W → W
  pub first_line : Bytes → W → Bytes
  pub write_file : Bytes → Bytes → W → Bool × W
  pub is_regular_file : Bytes → W → Bool
  pub is_directory : Bytes → W → Bool
  pub canonical : Bytes → W → Option Bytes
  pub parent_path : Bytes → Bytes
  pub filename : Bytes → Bytes
  pub flush : Bytes → W → ℕ

-- `text.find(word)`, with the text from the word on.
unfoldable pub find_text : Bytes → Bytes → Option Bytes
unfolding starts_with
find_text word [] = if starts_with word [] then some [] else none
find_text word (c ∷ text) =
    let rest = find_text word text in if starts_with word (c ∷ text) then some (c ∷ text) else rest

unfoldable pub contains_text : Bytes → Bytes → Bool
unfolding find_text
contains_text word text = elim (find_text word text) [ none ↦ false | some t ↦ true ]

abbrev pub git_dir_name : Bytes
git_dir_name = codes ".git"

-- The branches of the loop over the files of the administrative directory.
unfoldable pub flush_files :
    {W : Type 0} → Repository W → Bytes → List Bytes → W → Outcome (Unit {0})
unfolding path_join
flush_files g admin [] w = ok tt
flush_files g admin (name ∷ names) w =
    let rest = flush_files g admin names w in
    let file = path_join admin name in
    if g.is_regular_file file w && not (g.flush file w == 0)
    then error (codes "cannot flush Git linked-worktree file " ++ file)
    else rest

module _ {W : Type 0} (g : Repository W) (root : Bytes) where
  abbrev pub in_git : Bytes → Bytes
  in_git name = path_join (path_join root git_dir_name) name

  unfoldable pub flush_branch : Bytes → Bytes → W → Outcome Bytes
  unfolding path_join
  flush_branch branch admin w =
      let ref_file = in_git (path_join (codes "refs/heads") branch) in
      if g.is_regular_file ref_file w
        && (not (g.flush ref_file w == 0) || not (g.flush (g.parent_path ref_file) w == 0))
      then error (codes "cannot flush Git branch " ++ branch)
      else ok (codes "gitdir: " ++ admin ++ codes "\n")

  unfoldable pub flush_admin : Bytes → Bytes → W → Outcome (Unit {0}) → Outcome Bytes
  flush_admin branch admin w (error e) = error e
  flush_admin branch admin w (ok u) =
      if not (g.flush admin w == 0) || not (g.flush (g.parent_path admin) w == 0)
      then error (codes "cannot flush Git linked-worktree administrative directory")
      else flush_branch branch admin w

  unfoldable pub after_index : Bytes → Bytes → Outcome (Unit {0}) × W → Outcome Bytes × W
  after_index branch admin (error e, w) = (error e, w)
  after_index branch admin (ok u, w) = (
    flush_admin branch admin w (
        flush_files g admin (codes "HEAD" ∷ codes "commondir" ∷ codes "gitdir" ∷ codes "index" ∷ [])
          w),
    w,
  )

  -- `populate` is `populate_workspace_git_index` with its seed.
  unfoldable pub point_admin :
      (Bytes → W → Outcome (Unit {0}) × W) → Bytes → Bytes → Bytes → Bool × W → Outcome Bytes × W
  point_admin populate branch staging admin (false, w) =
      (error (codes "cannot update the linked-worktree gitdir"), w)
  point_admin populate branch staging admin (true, w) =
      after_index branch admin (populate admin (g.remove_dir staging w))

  -- `git_file.substr(marker + 8)`, for the line `gitdir: <directory>` that Git writes.
  unfoldable pub after_add :
      (Bytes → W → Outcome (Unit {0}) × W)
      → Bytes
      → Bytes
      → Bytes
      → W
      → Option Bytes
      → Outcome Bytes × W
  after_add populate branch workspace_path staging w none =
      (error (codes "unexpected .git file in the linked worktree"), w)
  after_add populate branch workspace_path staging w (some found) =
      let admin = drop 8 found in
      point_admin populate branch staging admin (
        g.write_file (path_join admin (codes "gitdir"))
          (path_join workspace_path git_dir_name ++ codes "\n") w)

  unfoldable pub added :
      (Bytes → W → Outcome (Unit {0}) × W) → Bytes → Bytes → Bytes → Run × W → Outcome Bytes × W
  added populate branch workspace_path staging (r, w) =
      if not r.succeeded
      then (error (codes "git worktree add failed: " ++ r.output), w)
      else after_add populate branch workspace_path staging w
          (find_text (codes "gitdir:") (g.first_line (path_join staging git_dir_name) w))

  unfoldable pub register_linked_worktree :
      (Bytes → W → Outcome (Unit {0}) × W) → Bytes → Bytes → Bytes → W → Outcome Bytes × W
  register_linked_worktree populate branch workspace_path staging w =
      added populate branch workspace_path staging (
        g.run
          (codes "git"
            ∷ codes "-C"
            ∷ root
            ∷ codes "worktree"
            ∷ codes "add"
            ∷ codes "--no-checkout"
            ∷ codes "-b"
            ∷ branch
            ∷ staging
            ∷ [])
          (g.make_dirs (g.parent_path staging) (g.remove_dir staging w)))

  -- A worktree that Git does not know is unregistered already.
  unfoldable pub unregistered : Run × W → Outcome (Unit {0}) × W
  unregistered (r, w) =
      if not r.succeeded
        && not (contains_text (codes "is not a working tree") r.output)
        && not (contains_text (codes "is not a working tree directory") r.output)
      then (error (codes "git worktree remove failed: " ++ r.output), w)
      else if g.is_directory (in_git (codes "worktrees")) w
          && not (g.flush (in_git (codes "worktrees")) w == 0)
      then (error (codes "cannot flush Git linked-worktree registry"), w)
      else if not (g.flush (path_join root git_dir_name) w == 0)
      then (error (codes "cannot flush Git administrative directory"), w)
      else (ok tt, w)

  unfoldable pub unregister_linked_worktree : Bytes → W → Outcome (Unit {0}) × W
  unregister_linked_worktree workspace_path w = unregistered (
      g.run
        (codes "git"
          ∷ codes "-C"
          ∷ root
          ∷ codes "worktree"
          ∷ codes "remove"
          ∷ codes "--force"
          ∷ workspace_path
          ∷ [])
        w)

  unfoldable pub deleted : Run × W → Outcome (Unit {0}) × W
  deleted (r, w) =
      if not r.succeeded && not (contains_text (codes "not found") r.output)
      then (error (codes "git branch rollback failed: " ++ r.output), w)
      else (ok tt, w)

  unfoldable pub delete_branch :
      Bytes → Outcome (Unit {0}) → Outcome (Unit {0}) × W → Outcome (Unit {0}) × W
  delete_branch branch (error e) (error f, w) = (error e, w)
  delete_branch branch removed (staged, w) =
      deleted
        (g.run (codes "git" ∷ codes "-C" ∷ root ∷ codes "branch" ∷ codes "-D" ∷ branch ∷ []) w)

  unfoldable pub rollback_linked_worktree_creation :
      Bytes → Bytes → Bytes → W → Outcome (Unit {0}) × W
  rollback_linked_worktree_creation branch workspace_path staging w =
      let (removed, w') = unregister_linked_worktree workspace_path w in
      delete_branch branch removed (unregister_linked_worktree staging w')
