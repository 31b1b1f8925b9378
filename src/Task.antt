-- ===== src/Task.antt =====
-- crates/domain-task: the task aggregate and its parts.
pub mod Enums
pub mod IssueType
pub mod Snapshot
pub mod State
pub mod Mirror
pub mod Sync
pub mod Edits
pub mod Machine
pub mod Hash
