-- ===== src/Engine.antt =====
-- The Workspace engine: src/core/workspace_engine.cpp with includes/core/workspace_engine.hpp.
pub mod Host
pub mod Inode
pub mod State
pub mod Visible
pub mod Listing
pub mod Stage
pub mod Publish
pub mod Mutations
pub mod Handles
pub mod Syncing
pub mod Hiding
pub mod Trees
pub mod Ancestry
pub mod Outcomes
pub mod Whole
pub mod Progress
pub mod Removal
mod Tests
