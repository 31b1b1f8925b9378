-- ===== src/Task/State.antt =====
-- crates/domain-task/src/task.rs: the `Task` aggregate, its two constructors and its snapshots.
use repo_link.Prelude.{Bool, true, false, Option, none, some, List, [], if◌then◌else◌}
use repo_link.Prelude.Text.{Text, trim, is_empty}
use repo_link.Core.{TaskId, WorkspaceId, RepoId, Timestamp, Result, ok, err, validation}
use repo_link.Task.Enums.{Lifecycle, open_, completed, SyncState, local_only, synced, Priority, p3}
use repo_link.Task.IssueType.{IssueType}
use repo_link.Task.Snapshot.Source.{SnapshotSource, pull}
use repo_link.Task.Snapshot.{RemoteRef, TaskRelation, TaskComment, TaskSnapshot}

pub record Task : Type 0 where
  pub id : TaskId
  pub workspace_id : WorkspaceId
  pub repo_id : Option RepoId
  pub filing_repo_id : Option RepoId
  pub title : Text
  pub body : Text
  pub lifecycle : Lifecycle
  pub sync : SyncState
  pub priority : Priority
  pub issue_type : Option IssueType
  pub issue_type_pending : Bool
  pub assignees : List Text
  pub remote : Option RemoteRef
  pub relations : List TaskRelation
  pub comments : List TaskComment
  pub project_item_id : Option Text
  pub project_status_option_id : Option Text
  pub synced_at : Option Timestamp
  pub hash : Text
  pub created_at : Timestamp
  pub updated_at : Timestamp
  pub synced_baseline : Option TaskSnapshot

-- `Task::touch`, at the clock's reading `now`.
abbrev pub touch : Timestamp → Task → Task
touch now t = record t { updated_at = now }

-- `Task::snapshot_view`, captured at the clock's reading `at`.
unfoldable pub snapshot_view : Timestamp → SnapshotSource → Task → TaskSnapshot
snapshot_view at source t = record {
  task_id = t.id;
  version = 0;
  title = t.title;
  body = t.body;
  lifecycle = t.lifecycle;
  sync_state = t.sync;
  priority = t.priority;
  issue_type = t.issue_type;
  issue_type_recorded = true;
  assignees = t.assignees;
  remote = t.remote;
  repo_id = t.repo_id;
  repo_id_recorded = true;
  filing_repo_id = t.filing_repo_id;
  source = source;
  captured_at = at;
}

-- `title.trim().is_empty()`
abbrev pub is_blank : Text → Bool
is_blank s = is_empty (trim s)

-- `Task::new_draft`, with the fresh identifier `id`.
unfoldable pub new_draft : TaskId → Timestamp → WorkspaceId → Option RepoId → Text → Result Task
new_draft id now workspace_id repo_id title =
    if is_blank title
    then err validation
    else ok (record {
      id = id;
      workspace_id = workspace_id;
      repo_id = repo_id;
      filing_repo_id = none;
      title = title;
      body = [];
      lifecycle = open_;
      sync = local_only;
      priority = p3;
      issue_type = none;
      issue_type_pending = false;
      assignees = [];
      remote = none;
      relations = [];
      comments = [];
      project_item_id = none;
      project_status_option_id = none;
      synced_at = none;
      hash = [];
      created_at = now;
      updated_at = now;
      synced_baseline = none;
    })

-- The task that `Task::import_mirror` builds before it captures the baseline.
unfoldable pub imported :
    TaskId
    → Timestamp
    → WorkspaceId
    → Option RepoId
    → RemoteRef
    → Text
    → Text
    → List Text
    → Bool
    → Task
imported id now workspace_id repo_id remote title body assignees closed = record {
  id = id;
  workspace_id = workspace_id;
  repo_id = repo_id;
  filing_repo_id = repo_id;
  title = title;
  body = body;
  lifecycle = if closed then completed else open_;
  sync = synced;
  priority = p3;
  issue_type = none;
  issue_type_pending = false;
  assignees = assignees;
  remote = some remote;
  relations = [];
  comments = [];
  project_item_id = none;
  project_status_option_id = none;
  synced_at = none;
  hash = [];
  created_at = now;
  updated_at = now;
  synced_baseline = none;
}

-- `Task::import_mirror`; `at` is the clock's second reading, for the baseline.
unfoldable pub import_mirror :
    TaskId
    → Timestamp
    → Timestamp
    → WorkspaceId
    → Option RepoId
    → RemoteRef
    → Text
    → Text
    → List Text
    → Bool
    → Result Task
unfolding imported snapshot_view
import_mirror id now at workspace_id repo_id remote title body assignees closed =
    let t = imported id now workspace_id repo_id remote title body assignees closed in
    if is_blank title
    then err validation
    else ok (record t { synced_baseline = some (snapshot_view at pull t) })
