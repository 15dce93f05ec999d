-- ===== src/Projects/Journaled/History.antt =====
-- Every history of the Project manager of src/core/project_manager.cpp, as a sequence of steps:
-- requests and reclamations in any order, with any faults, and crashes.
use tribios_vfs.Common.{ℕ, false, List, [], ◌∷◌, ◌++◌, Bytes, All, ◌≡◌}
use tribios_vfs.Store.Sql.{update_state}
use tribios_vfs.Projects.State.{Manager, Machine, undo_state}
use tribios_vfs.Projects.Create.{create_workspace}
use tribios_vfs.Projects.Remove.{remove_workspace, reclaim}
use tribios_vfs.Projects.Journaled.{Owns, IsRecoverable}
use tribios_vfs.Projects.Journaled.Creation.{create_workspace-IsRecoverable}
use tribios_vfs.Projects.Journaled.Removal.{remove_workspace-IsRecoverable}
use tribios_vfs.Projects.Journaled.Reclamation.{reclaim-Ends}

-- The state without the reclamation that runs.
unfoldable pub take_reclaimer : {W : Type 0} → List (Bytes × ℕ) → Manager W → Manager W
take_reclaimer qs s = record s { reclaimers = qs }

-- What is left of the state when the process ends.
unfoldable pub crashed : {W : Type 0} → Manager W → Manager W
crashed s = record s { engines = []; reclaimers = [] }

-- Each step meets its own machine, with the faults, refusals and failpoints of that moment. A
-- reclamation is a thread, so any of those that were started may be the next to run.
pub data Step {W I : Type 0} (machine : I → Machine W) : Manager W → Manager W → Type 0 where
  creates :
      (i : I) (name branch : Bytes) (s : Manager W)
      → Step machine s (create_workspace (machine i) name branch s).1
  removes :
      (i : I) (name : Bytes) (s : Manager W)
      → Step machine s (remove_workspace (machine i) name s).1
  reclaims :
      (i : I) (before after : List (Bytes × ℕ)) (name : Bytes) (id : ℕ) (s : Manager W)
      → s.reclaimers ≡ before ++ (name, id) ∷ after
      → Step machine s (take_reclaimer (before ++ after) (reclaim (machine i) name id s).1)
  crashes : (s : Manager W) → Step machine s (crashed s)

pub data History {W I : Type 0} (machine : I → Machine W) (s : Manager W) : Manager W → Type 0 where
  here : History machine s s
  next : {t u : Manager W} → History machine s t → Step machine t u → History machine s u

drop_middle :
    {A : Type 0} (P : A → Type 0) (before after : List A) (x : A)
    → All P (before ++ x ∷ after)
    → P x × All P (before ++ after)
drop_middle P [] after x h = h
drop_middle P (y ∷ before) after x h =
    let (p, rest) = drop_middle P before after x h.1 in (p, (h.0, rest))

module _ {W I : Type 0} (machine : I → Machine W)
    (runs : (i : I) → ((machine i).sql undo_state).refuses update_state ≡ false) where
  Step-IsRecoverable : {s t : Manager W} → Step machine s t → IsRecoverable s → IsRecoverable t
  unfolding take_reclaimer crashed
  Step-IsRecoverable (creates i name branch s) j =
      create_workspace-IsRecoverable (machine i) (runs i) name branch s j
  Step-IsRecoverable (removes i name s) j = remove_workspace-IsRecoverable (machine i) name s j
  Step-IsRecoverable (reclaims i before after name id s e) j =
      let all : All (Owns s.db.operations s.db.next_operation) (before ++ (name, id) ∷ after) =
        rw⁻¹ e j.tables.owned in
      let (own, others) = drop_middle _ before after (name, id) all in
      let kept =
        reclaim-Ends (machine i) name id (before ++ after) s
          (record {
            tables = record {
              fresh = j.tables.fresh;
              distinct = j.tables.distinct;
              rows = j.tables.rows;
              keyed = j.tables.keyed;
              owned = others;
            };
          })
          own.1 in
      record { tables = kept.tables }
  Step-IsRecoverable (crashes s) j = record {
    tables = record {
      fresh = j.tables.fresh;
      distinct = j.tables.distinct;
      rows = j.tables.rows;
      keyed = j.tables.keyed;
      owned = tt;
    };
  }

  -- From a state in which every Workspace record is Active, Reclaimed or has its operation in the
  -- journal, every history of creations, removals, reclamations in any order and crashes leads to
  -- such a state. Any step may fail, except that each UPDATE which marks a record as Reclaimed after
  -- an error of a creation runs.
  pub History-IsRecoverable :
      (s t : Manager W) → IsRecoverable s → History machine s t → IsRecoverable t
  History-IsRecoverable s t j here = j
  History-IsRecoverable s t j (next h st) = Step-IsRecoverable st (History-IsRecoverable s _ j h)
