-- ===== src/Task/Snapshot/Source.antt =====
-- crates/domain-task/src/snapshot.rs: why a snapshot was captured.
use repo_link.Prelude.{Bool, true, false, Eq}

pub data SnapshotSource : Type 0 where
  created local_edit promote push pre_pull pull conflict_resolve rollback link : SnapshotSource
  filing_repo_repair : SnapshotSource

unfoldable pub SnapshotSource-discrete : Discrete SnapshotSource
SnapshotSource-discrete = hlevel

instance abbrev pub snapshot_source_eq : Eq SnapshotSource
snapshot_source_eq = record { dec_eq = SnapshotSource-discrete }

-- `SnapshotSource::is_baseline`
unfoldable pub is_baseline : SnapshotSource → Bool
is_baseline promote = true
is_baseline push = true
is_baseline pull = true
is_baseline conflict_resolve = true
is_baseline link = true
is_baseline filing_repo_repair = true
is_baseline _ = false
