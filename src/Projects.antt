-- ===== src/Projects.antt =====
-- The Project manager: the life of a Workspace in src/core/project_manager.cpp, with its linked Git
-- worktree in src/core/git_worktree.cpp and its recovery at startup in src/core/recovery.cpp.
pub mod Names
pub mod Git
pub mod State
pub mod Create
pub mod Remove
pub mod Startup
pub mod Found
pub mod Journaled
pub mod Settling
mod Tests
