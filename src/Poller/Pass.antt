-- ===== src/Poller/Pass.antt =====
-- crates/application-sync/src/poller.rs: `poll_once` with its index of stale tasks, its watermarks
-- and its stamps. The provider is given by its answers, `none` for an error.
use repo_link.Prelude.{
  ℕ, ◌+◌, ◌-◌, Bool, true, false, not, ◌&&◌, ◌||◌, Option, none, some, List, [], ◌∷◌, ltb,
  if◌then◌else◌, ◌==◌, nat_eq, list_eq, is_none, find, map, contains, length,
}
use repo_link.Prelude.Text.{Text}
use repo_link.Core.{TaskId, WorkspaceId, Timestamp}
use repo_link.Task.State.{Task}
use repo_link.Workspace.{Workspace, active, workspace_status_eq}
use repo_link.Project.Board.{Project}
use repo_link.Project.Board.FieldIds.{status_field_id}
use repo_link.OutboxRepo.{Table}
use repo_link.TaskRepo.{TaskStore, cache_synced_at}
use repo_link.TaskRepo.Listing.{take, read_row, selected}
use repo_link.Outbound.Enqueue.{and_then}
use repo_link.Poller.{RemoteProjectItem, PollPage, PollReport, reconcile_task}
use repo_link.Poller.Maps.{entry, put}

-- `POLL_QUERY` and `POLL_LIMIT`
abbrev pub poll_query : Text
poll_query = []

abbrev pub poll_limit : ℕ
poll_limit = 200

-- What a pass reads and does not write: the boards, the workspaces, the outbox, the provider, and
-- its readings of the clock, at its start and at each stamp.
pub record Env : Type 0 where
  pub projects : List Project
  pub workspaces : List Workspace
  pub outbox : Table
  pub poll_project_items : Text → Text → Text → Option PollPage
  pub started : Timestamp
  pub clock : TaskId → Timestamp

pub record PollState : Type 0 where
  pub tasks : TaskStore
  pub watermarks : List (Text × Timestamp)
  pub index : List (Text × Task)
  pub completed : List Text
  pub report : PollReport

-- `synced_at IS NULL OR synced_at < ?`
unfoldable pub is_stale : Timestamp → Option Timestamp → Bool
is_stale now none = true
is_stale now (some at) = ltb at now

-- `workspaces.status = 'active' AND workspaces.project_id IS NOT NULL`, for the task's workspace
unfoldable pub is_pollable : List Workspace → Task → Bool
is_pollable workspaces t = elim (find (λ w. w.id == t.workspace_id) workspaces) [
  | none ↦ false
  | some w ↦ w.status == active && not (is_none w.project_id)
]

-- `ORDER BY tasks.synced_at ASC, tasks.id ASC`, where NULL comes first.
unfoldable pub comes_first : Task → Task → Bool
comes_first t r = elim t.synced_at [
  | none ↦ elim r.synced_at [ none ↦ ltb t.id r.id | some b ↦ true ]
  | some a ↦ elim r.synced_at [ none ↦ false | some b ↦ ltb a b || (a == b && ltb t.id r.id) ]
]

-- `TaskRepository::list` under the filter of the stale scan.
unfoldable pub list_stale : Env → TaskStore → List Task
unfolding is_stale is_pollable comes_first selected take read_row
list_stale env s = map (read_row s) (
    take poll_limit (
      selected
        (λ t.
          not (is_none t.project_item_id)
          && is_pollable env.workspaces t
          && is_stale env.started t.synced_at)
        comes_first s))

unfoldable pub indexed : List Task → List (Text × Task) → List (Text × Task)
unfolding put
indexed [] m = m
indexed (t ∷ ts) m =
    indexed ts (elim t.project_item_id [ none ↦ m | some item_id ↦ put item_id t m ])

unfoldable pub index_stale_candidates : Env → TaskStore → List (Text × Task)
unfolding list_stale indexed
index_stale_candidates env s = indexed (list_stale env s) []

-- `unwrap_or_else(Timestamp::epoch)`; the epoch is the instant 0.
abbrev pub or_epoch : Option Timestamp → Timestamp
or_epoch none = 0
or_epoch (some at) = at

unfoldable pub watermark : Text → List (Text × Timestamp) → Timestamp
unfolding entry
watermark id ws = or_epoch (entry id ws)

unfoldable pub matched : Table → Project → RemoteProjectItem → PollState → Option Task → PollState
unfolding reconcile_task put
matched outbox p item s none = record s {
  report = record (s.report) { items_unmatched = s.report.items_unmatched + 1 };
}
matched outbox p item s (some t) =
    let seen = reconcile_task outbox p item (record {
      tasks = s.tasks;
      task = t;
      report = record (s.report) { items_matched = s.report.items_matched + 1 };
    }) in
    record s {
      tasks = seen.tasks;
      index = put item.item_node_id seen.task s.index;
      report = seen.report;
    }

unfoldable pub reconcile_item : Table → Project → RemoteProjectItem → PollState → PollState
unfolding entry matched
reconcile_item outbox p item s = matched outbox p item s (entry item.item_node_id s.index)

-- An item that is not newer than the watermark is skipped.
unfoldable pub reconcile_if : Table → Project → RemoteProjectItem → Bool → PollState → PollState
unfolding reconcile_item
reconcile_if outbox p item false s = s
reconcile_if outbox p item true s = reconcile_item outbox p item s

-- The items of a page, in order.
unfoldable pub reconcile_items :
    Table → Project → Timestamp → List RemoteProjectItem → PollState → PollState
unfolding reconcile_if
reconcile_items outbox p since [] s = s
reconcile_items outbox p since (item ∷ items) s =
    reconcile_items outbox p since items (reconcile_if outbox p item (ltb since item.updated_at) s)

-- `max_seen` after the items.
unfoldable pub max_seen : Timestamp → List RemoteProjectItem → Timestamp
max_seen m [] = m
max_seen m (item ∷ items) = max_seen (if ltb m item.updated_at then item.updated_at else m) items

-- `since.max(max_seen.minus_one_second())`
unfoldable pub advanced : Timestamp → Timestamp → Timestamp
advanced since newest = if ltb since (newest - 1000000000) then newest - 1000000000 else since

-- The end of a page: a truncated one leaves the watermark and stamps nothing.
unfoldable pub page_end : Project → Bool → Timestamp → Timestamp → PollState → PollState
unfolding put advanced
page_end p true since newest s = record s {
  report = record (s.report) { partial_projects = s.report.partial_projects + 1 };
}
page_end p false since newest s = record s {
  completed = p.id ∷ s.completed;
  watermarks =
      if ltb since newest then put p.id (advanced since newest) s.watermarks else s.watermarks;
}

unfoldable pub polled : Env → Project → Option PollPage → PollState → PollState
unfolding watermark reconcile_items max_seen page_end
polled env p none s = s
polled env p (some page) s =
    let since = watermark p.id s.watermarks in
    page_end p page.truncated since (max_seen since page.items) (
      reconcile_items env.outbox p since page.items (record s {
        report = record (s.report) { items_seen = s.report.items_seen + length page.items };
      }))

-- A board without a status field is skipped.
unfoldable pub poll_field : Env → Project → PollState → Option Text → PollState
unfolding polled
poll_field env p s none = s
poll_field env p s (some field_id) =
    polled env p (env.poll_project_items p.id field_id poll_query)
      (record s { report = record (s.report) { projects_polled = s.report.projects_polled + 1 } })

unfoldable pub poll_project : Env → Project → PollState → PollState
unfolding status_field_id poll_field
poll_project env p s = poll_field env p s (status_field_id p)

unfoldable pub poll_projects : Env → List Project → PollState → PollState
unfolding poll_project
poll_projects env [] s = s
poll_projects env (p ∷ ps) s = poll_projects env ps (poll_project env p s)

-- `list_by_workspace(…).next()`
unfoldable pub project_of : Env → WorkspaceId → Option Text
project_of env id = and_then (find (λ w. w.id == id) env.workspaces) (λ w.
    and_then w.project_id
      (λ project_id. and_then (find (λ p. p.id == project_id) env.projects) (λ p. some p.id)))

unfoldable pub is_observed : List Text → Option Text → Bool
unfolding contains
is_observed completed none = false
is_observed completed (some id) = contains completed id

unfoldable pub stamp : Env → Task → PollState → PollState
unfolding cache_synced_at
stamp env t s = record s {
  tasks = cache_synced_at t.id (env.clock t.id) s.tasks;
  report = record (s.report) { tasks_refreshed = s.report.tasks_refreshed + 1 };
}

unfoldable pub stamp_if : Env → Task → Bool → PollState → PollState
unfolding stamp
stamp_if env t false s = s
stamp_if env t true s = stamp env t s

-- The stamps of the tasks of the index whose board was completely observed.
unfoldable pub stamp_all : Env → List (Text × Task) → PollState → PollState
unfolding project_of is_observed stamp_if
stamp_all env [] s = s
stamp_all env ((k, t) ∷ index) s =
    stamp_all env index (stamp_if env t (is_observed s.completed (project_of env t.workspace_id)) s)

abbrev pub no_report : PollReport
no_report = record {
  projects_polled = 0;
  items_seen = 0;
  items_matched = 0;
  items_unmatched = 0;
  partial_projects = 0;
  tasks_refreshed = 0;
  content_drift_marked = 0;
}

abbrev pub started : Env → TaskStore → List (Text × Timestamp) → PollState
started env tasks watermarks = record {
  tasks = tasks;
  watermarks = watermarks;
  index = index_stale_candidates env tasks;
  completed = [];
  report = no_report;
}

abbrev pub finish : Env → PollState → PollState
finish env s = stamp_all env s.index s

-- `poll_once`, over the store and the watermarks.
unfoldable pub poll_once : Env → TaskStore → List (Text × Timestamp) → PollState
unfolding index_stale_candidates poll_projects stamp_all
poll_once env tasks watermarks =
    finish env (poll_projects env env.projects (started env tasks watermarks))
