-- ===== src/Project.antt =====
-- crates/domain-project: the mirror of a GitHub Projects v2 board.
pub mod Field
pub mod Mapping
pub mod Board
