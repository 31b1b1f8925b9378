-- ===== src/Examples.antt =====
-- Concrete inputs: sample values, and the theorems at them.
pub mod Fixtures
pub mod Tasks
pub mod Syncs
pub mod Outboxes
pub mod Boards
pub mod Names
pub mod Repos
pub mod Stores
pub mod Plans
pub mod Applies
pub mod Polls
pub mod Sweeps
pub mod Services
pub mod Mirrors
