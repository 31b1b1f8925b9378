-- ===== src/Poller.antt =====
-- crates/application-sync/src/poller.rs: one pass of the poller over the boards. The log lines are
-- left out, and a statement on the local tables does not fail.
pub mod Maps
pub mod Pass
pub mod Watermarks
pub mod Kept
pub mod Agrees
use repo_link.Prelude.{
  ℕ, zero, suc, ◌+◌, ◌-◌, Bool, true, false, not, ◌&&◌, ◌||◌, Option, none, some, List, [], ◌∷◌,
  ltb, if◌then◌else◌, ◌==◌, nat_eq, list_eq, option_eq, is_none, find, any, retain, map, contains,
  length,
}
use repo_link.Prelude.Text.{Text}
use repo_link.Core.{TaskId, WorkspaceId, Timestamp}
use repo_link.Task.Enums.{SyncState, synced, dirty_remote, sync_state_eq, Priority, priority_eq}
use repo_link.Task.Snapshot.{TaskSnapshot}
use repo_link.Task.State.{Task}
use repo_link.Workspace.{Workspace, WorkspaceStatus, active, workspace_status_eq}
use repo_link.Project.Board.{Project, resolved_priority_option_id_for, priority_for_option_id}
use repo_link.Project.Board.FieldIds.{status_field_id, priority_field_id}
use repo_link.Sync.Outbox.{
  OutboxMutation, set_project_priority, OutboxStatus, pending, outbox_status_eq,
}
use repo_link.OutboxRepo.{Table}
use repo_link.TaskRepo.{
  TaskStore, get, hydrate, load_latest_baseline, cache_synced_at, cache_project_status,
  apply_polled_priority, mark_remote_dirty,
}
use repo_link.Outbound.{inbound_mirrors_baseline}
use repo_link.Outbound.Enqueue.{and_then}
use repo_link.Poller.Maps.{entry, put}

-- `ports::RemoteProjectItem`, with its map of single-select values.
pub record RemoteProjectItem : Type 0 where
  pub item_node_id : Text
  pub issue_node_id : Option Text
  pub canonical_repo : Option Text
  pub number : Option ℕ
  pub title : Text
  pub body : Text
  pub closed : Bool
  pub status_option_id : Option Text
  pub single_select_options : List (Text × Text)
  pub updated_at : Timestamp

pub record PollPage : Type 0 where
  pub items : List RemoteProjectItem
  pub truncated : Bool

pub record PollReport : Type 0 where
  pub projects_polled : ℕ
  pub items_seen : ℕ
  pub items_matched : ℕ
  pub items_unmatched : ℕ
  pub partial_projects : ℕ
  pub tasks_refreshed : ℕ
  pub content_drift_marked : ℕ

-- What a pass works on beside the report: an indexed task and the store, while an item is reconciled.
pub record Seen : Type 0 where
  pub tasks : TaskStore
  pub task : Task
  pub report : PollReport

unfoldable pub is_drifted : RemoteProjectItem → Option TaskSnapshot → Bool
unfolding inbound_mirrors_baseline
is_drifted item none = false
is_drifted item (some b) =
    not (inbound_mirrors_baseline item.title item.body b.assignees item.closed b)

-- Whether the loaded task is clean and its content has diverged from the baseline.
unfoldable pub drift_found : RemoteProjectItem → Option Task → Bool
unfolding is_drifted
drift_found item none = false
drift_found item (some full) = full.sync == synced && is_drifted item full.synced_baseline

unfoldable pub mark_drift : Bool → Seen → Seen
unfolding mark_remote_dirty
mark_drift false s = s
mark_drift true s = record {
  tasks = mark_remote_dirty s.task.id s.tasks;
  task = record (s.task) { sync = dirty_remote };
  report = record (s.report) { content_drift_marked = s.report.content_drift_marked + 1 };
}

unfoldable pub check_content : RemoteProjectItem → Seen → Seen
unfolding drift_found get mark_drift
check_content item s = mark_drift (drift_found item (get s.task.id s.tasks)) s

unfoldable pub is_priority : OutboxMutation → Bool
is_priority (set_project_priority board item field option_id) = true
is_priority _ = false

unfoldable pub has_pending_priority_push : Table → TaskId → Bool
unfolding is_priority
has_pending_priority_push outbox id =
    any (λ e. e.task_id == id && e.status == pending && is_priority e.mutation) outbox

-- The priority to take from the board, once the item has an option for it.
unfoldable pub from_option : Table → Project → Text → Task → Option Priority
unfolding resolved_priority_option_id_for priority_for_option_id has_pending_priority_push
from_option outbox p option_id t =
    if resolved_priority_option_id_for p t.priority == some option_id
    then none
    else and_then (priority_for_option_id p option_id)
        (λ priority. if has_pending_priority_push outbox t.id then none else some priority)

unfoldable pub polled_priority : Table → Project → RemoteProjectItem → Task → Option Priority
unfolding priority_field_id entry from_option
polled_priority outbox p item t = and_then (priority_field_id p) (λ field_id.
    and_then (entry field_id item.single_select_options)
      (λ option_id. from_option outbox p option_id t))

unfoldable pub take_priority : Option Priority → Seen → Seen
unfolding apply_polled_priority
take_priority none s = s
take_priority (some priority) s = record s {
  tasks = apply_polled_priority s.task.id priority s.tasks;
  task = record (s.task) { priority = priority };
}

unfoldable pub reconcile_priority : Table → Project → RemoteProjectItem → Seen → Seen
unfolding polled_priority take_priority
reconcile_priority outbox p item s = take_priority (polled_priority outbox p item s.task) s

unfoldable pub cache_status : RemoteProjectItem → Seen → Seen
unfolding cache_project_status
cache_status item s =
    if s.task.project_status_option_id == item.status_option_id then s else record s {
      tasks = cache_project_status s.task.id item.status_option_id s.tasks;
      task = record (s.task) { project_status_option_id = item.status_option_id };
    }

-- `reconcile_item`, once the item's task is found.
unfoldable pub reconcile_task : Table → Project → RemoteProjectItem → Seen → Seen
unfolding check_content reconcile_priority cache_status
reconcile_task outbox p item s =
    cache_status item (reconcile_priority outbox p item (check_content item s))
