-- ===== src/Sync.antt =====
-- crates/domain-sync: the reconciliation rules, the filing repo and the outbox's values.
pub mod Policy
pub mod Filing
pub mod Outbox
