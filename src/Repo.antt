-- ===== src/Repo.antt =====
-- crates/domain-repo: the shared identity of a repo, its name and prefix.
pub mod Naming
pub mod Origin
pub mod Instance
