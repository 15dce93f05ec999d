-- ===== src/Projects/Settling/Histories.antt =====
-- Startup after any history of the Project manager (src/core/project_manager.cpp and
-- src/core/recovery.cpp).
use tribios_vfs.Common.{false, [], none, ◌≡◌}
use tribios_vfs.Store.Sql.{update_state, select_workspaces, select_operations}
use tribios_vfs.Projects.State.{Manager, Machine, undo_state, loading}
use tribios_vfs.Projects.Startup.{recover_interrupted_operations}
use tribios_vfs.Projects.Journaled.{IsRecoverable}
use tribios_vfs.Projects.Journaled.Reclamation.{IsKept}
use tribios_vfs.Projects.Journaled.History.{History, next, crashes, crashed, History-IsRecoverable}
use tribios_vfs.Projects.Settling.Loop.{Recovered, recover_interrupted_operations-Recovered}

pub crashed-IsKept :
    {W : Type 0} (s : Manager W) → IsRecoverable (crashed s) → IsKept [] (crashed s)
unfolding crashed
crashed-IsKept s j = record { tables = j.tables }

-- After every history of creations, removals, reclamations and crashes, the next startup ends with an
-- empty journal and with every Workspace record Active or Reclaimed, or stops at an error that leaves
-- tables which a later startup can recover. Any step may fail, except that each UPDATE which marks a
-- record as Reclaimed after an error of a creation runs, that SQLite answers the startup's queries for
-- a record, and that its query for the journal gives all rows or does not start.
pub History-Recovered :
    {W I : Type 0} (machine : I → Machine W) (m : Machine W)
    → ((i : I) → ((machine i).sql undo_state).refuses update_state ≡ false)
    → (m.sql loading).refuses select_workspaces ≡ false
    → (m.sql loading).rows_read select_operations ≡ none
    → (s t : Manager W) → IsRecoverable s
    → History machine s t
    → Recovered (recover_interrupted_operations m (crashed t))
History-Recovered machine m runs selects reads_all s t j h =
    recover_interrupted_operations-Recovered m selects reads_all (crashed t)
      (crashed-IsKept t (History-IsRecoverable machine runs s (crashed t) j (next h (crashes t))))
