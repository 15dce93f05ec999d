-- ===== src/Store.antt =====
-- The metadata store: src/core/metadata_store.cpp with includes/core/metadata_store.hpp.
pub mod Types
pub mod Sql
pub mod Workspaces
pub mod Tombstones
pub mod Journal
pub mod Like
pub mod Atomic
pub mod Isolated
mod Tests
