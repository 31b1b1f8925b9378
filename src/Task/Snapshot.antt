-- ===== src/Task/Snapshot.antt =====
-- crates/domain-task/src/snapshot.rs and relation.rs: what hangs off a task, and its history.
pub mod Source
use Source.{SnapshotSource, link, snapshot_source_eq}
use repo_link.Prelude.{ℕ, Bool, true, false, Option, none, some, List, Eq, if◌then◌else◌, ◌==◌}
use repo_link.Prelude.Text.{Text}
use repo_link.Core.{TaskId, RepoId, Timestamp}
use repo_link.Task.Enums.{Lifecycle, SyncState, synced, Priority, RelationKind, sync_state_eq}
use repo_link.Task.IssueType.{IssueType}

pub record TaskRelation : Type 0 where
  pub kind : RelationKind
  pub other : TaskId

pub record RemoteRef : Type 0 where
  pub provider : Text
  pub remote_id : Text
  pub node_id : Option Text

pub record TaskComment : Type 0 where
  pub local_id : Option Text
  pub remote_id : Option Text
  pub author : Text
  pub body : Text
  pub created_at : Timestamp

pub record TaskSnapshot : Type 0 where
  pub task_id : TaskId
  pub version : ℕ
  pub title : Text
  pub body : Text
  pub lifecycle : Lifecycle
  pub sync_state : SyncState
  pub priority : Priority
  pub issue_type : Option IssueType
  pub issue_type_recorded : Bool
  pub assignees : List Text
  pub remote : Option RemoteRef
  pub repo_id : Option RepoId
  pub repo_id_recorded : Bool
  pub filing_repo_id : Option RepoId
  pub source : SnapshotSource
  pub captured_at : Timestamp

-- `TaskSnapshot::is_baseline`: a `Link` snapshot counts only if it ended up `Synced`.
unfoldable pub is_baseline : TaskSnapshot → Bool
unfolding Source.is_baseline
is_baseline s = if s.source == link then s.sync_state == synced else Source.is_baseline s.source
