-- ===== src/Poller/Kept/Passes.antt =====
-- What a pass may change of the stored tasks: crates/application-sync/src/poller.rs.
use repo_link.Prelude.{
  ◌+◌, Bool, true, false, Option, none, some, List, [], ◌∷◌, ◌≡◌, refl, sym, arith, subst, ltb,
  if◌then◌else◌, ◌==◌, nat_eq, list_eq, option_eq, Bool-cases, inl, inr, length,
}
use repo_link.Prelude.Text.{Text}
use repo_link.Core.{Timestamp}
use repo_link.Task.Enums.{synced, dirty_remote, sync_state_eq, Priority}
use repo_link.Task.State.{Task}
use repo_link.Project.Board.{Project}
use repo_link.Project.Board.FieldIds.{status_field_id}
use repo_link.OutboxRepo.{Table}
use repo_link.TaskRepo.{
  TaskStore, get, cache_synced_at, cache_project_status, apply_polled_priority, mark_remote_dirty,
}
use repo_link.Poller.{
  RemoteProjectItem, PollPage, Seen, drift_found, mark_drift, check_content, polled_priority,
  take_priority, reconcile_priority, cache_status, reconcile_task,
}
use repo_link.Poller.Maps.{entry}
use repo_link.Poller.Pass.{
  Env, PollState, watermark, matched, reconcile_item, reconcile_if, stamp_if, poll_query,
  reconcile_items, max_seen, page_end, polled, poll_field, poll_project, poll_projects, is_observed,
  project_of, stamp, stamp_all, started, poll_once,
}
use repo_link.Poller.Kept.{
  IsObserved, IsObserved-refl, Kept, Kept-refl, Kept-trans, update_row-Kept,
}

marked_row :
    (t : Task) (b : Bool)
    → (t.sync == synced) ≡ b
    → IsObserved t (if b then record t { sync = dirty_remote } else t)
marked_row t true e = record { columns = refl; moved = inr (ground arith, refl) }
marked_row t false e = IsObserved-refl t

drift-Kept : (b : Bool) (s : Seen) → Kept s.tasks (mark_drift b s).tasks
unfolding mark_drift mark_remote_dirty
drift-Kept false s = Kept-refl s.tasks
drift-Kept true s =
    update_row-Kept s.task.id
      (λ t. if t.sync == synced then record t { sync = dirty_remote } else t)
      (λ t. marked_row t (t.sync == synced) refl) s.tasks

priority-Kept : (o : Option Priority) (s : Seen) → Kept s.tasks (take_priority o s).tasks
unfolding take_priority apply_polled_priority
priority-Kept none s = Kept-refl s.tasks
priority-Kept (some p) s =
    update_row-Kept s.task.id (λ t. record t { priority = p })
      (λ t. record { columns = refl; moved = inl refl }) s.tasks

status-Kept : (item : RemoteProjectItem) (s : Seen) → Kept s.tasks (cache_status item s).tasks
unfolding cache_status cache_project_status
status-Kept item s = elim (Bool-cases (s.task.project_status_option_id == item.status_option_id)) [
  | inl y ↦ rw (y) (Kept-refl s.tasks)
  | inr n ↦ rw (n) (
      update_row-Kept s.task.id (λ t. record t { project_status_option_id = item.status_option_id })
        (λ t. record { columns = refl; moved = inl refl }) s.tasks)
]

task-Kept :
    (o : Table) (p : Project) (item : RemoteProjectItem) (s : Seen)
    → Kept s.tasks (reconcile_task o p item s).tasks
unfolding reconcile_task reconcile_priority check_content
task-Kept o p item s =
    let a = check_content item s in
    let b = reconcile_priority o p item a in
    Kept-trans s.tasks b.tasks (cache_status item b).tasks
      (Kept-trans s.tasks a.tasks b.tasks (drift-Kept (drift_found item (get s.task.id s.tasks)) s)
        (priority-Kept (polled_priority o p item a.task) a))
      (status-Kept item b)

matched-Kept :
    (o : Table) (p : Project) (item : RemoteProjectItem) (s : PollState) (t : Option Task)
    → Kept s.tasks (matched o p item s t).tasks
unfolding matched
matched-Kept o p item s none = Kept-refl s.tasks
matched-Kept o p item s (some t) = task-Kept o p item (record {
  tasks = s.tasks;
  task = t;
  report = record (s.report) { items_matched = s.report.items_matched + 1 };
})

if-Kept :
    (o : Table) (p : Project) (item : RemoteProjectItem) (b : Bool) (s : PollState)
    → Kept s.tasks (reconcile_if o p item b s).tasks
unfolding reconcile_if reconcile_item
if-Kept o p item false s = Kept-refl s.tasks
if-Kept o p item true s = matched-Kept o p item s (entry item.item_node_id s.index)

items-Kept :
    (o : Table) (p : Project) (since : Timestamp) (items : List RemoteProjectItem) (s : PollState)
    → Kept s.tasks (reconcile_items o p since items s).tasks
unfolding reconcile_items
items-Kept o p since [] s = Kept-refl s.tasks
items-Kept o p since (item ∷ items) s =
    let s' = reconcile_if o p item (ltb since item.updated_at) s in
    Kept-trans s.tasks s'.tasks (reconcile_items o p since items s').tasks
      (if-Kept o p item (ltb since item.updated_at) s) (items-Kept o p since items s')

page_end_tasks :
    (p : Project) (truncated : Bool) (since newest : Timestamp) (s : PollState)
    → (page_end p truncated since newest s).tasks ≡ s.tasks
unfolding page_end
page_end_tasks p true since newest s = refl
page_end_tasks p false since newest s = refl

polled-Kept :
    (env : Env) (p : Project) (page : Option PollPage) (s : PollState)
    → Kept s.tasks (polled env p page s).tasks
unfolding polled
polled-Kept env p none s = Kept-refl s.tasks
polled-Kept env p (some page) s =
    let since = watermark p.id s.watermarks in
    let s' = record s {
      report = record (s.report) { items_seen = s.report.items_seen + length page.items };
    } in
    let t = reconcile_items env.outbox p since page.items s' in
    subst (λ r. Kept s.tasks r)
      (sym (page_end_tasks p page.truncated since (max_seen since page.items) t))
      (items-Kept env.outbox p since page.items s')

field-Kept :
    (env : Env) (p : Project) (s : PollState) (field_id : Option Text)
    → Kept s.tasks (poll_field env p s field_id).tasks
unfolding poll_field
field-Kept env p s none = Kept-refl s.tasks
field-Kept env p s (some field_id) =
    polled-Kept env p (env.poll_project_items p.id field_id poll_query)
      (record s { report = record (s.report) { projects_polled = s.report.projects_polled + 1 } })

projects-Kept :
    (env : Env) (ps : List Project) (s : PollState) → Kept s.tasks (poll_projects env ps s).tasks
unfolding poll_projects poll_project
projects-Kept env [] s = Kept-refl s.tasks
projects-Kept env (p ∷ ps) s =
    let s' = poll_project env p s in
    Kept-trans s.tasks s'.tasks (poll_projects env ps s').tasks
      (field-Kept env p s (status_field_id p)) (projects-Kept env ps s')

stamp-Kept :
    (env : Env) (t : Task) (b : Bool) (s : PollState) → Kept s.tasks (stamp_if env t b s).tasks
unfolding stamp_if stamp cache_synced_at
stamp-Kept env t false s = Kept-refl s.tasks
stamp-Kept env t true s =
    update_row-Kept t.id (λ r. record r { synced_at = some (env.clock t.id) })
      (λ r. record { columns = refl; moved = inl refl }) s.tasks

stamps-Kept :
    (env : Env) (index : List (Text × Task)) (s : PollState)
    → Kept s.tasks (stamp_all env index s).tasks
unfolding stamp_all
stamps-Kept env [] s = Kept-refl s.tasks
stamps-Kept env ((k, t) ∷ index) s =
    let b = is_observed s.completed (project_of env t.workspace_id) in
    let s' = stamp_if env t b s in
    Kept-trans s.tasks s'.tasks (stamp_all env index s').tasks (stamp-Kept env t b s)
      (stamps-Kept env index s')

-- A pass writes no snapshot, makes and deletes no task, and changes of a row only the cached status,
-- the priority and the stamp, and the sync state from `Synced` to `DirtyRemote`.
pub poll_once-Kept :
    (env : Env) (tasks : TaskStore) (watermarks : List (Text × Timestamp))
    → Kept tasks (poll_once env tasks watermarks).tasks
unfolding poll_once
poll_once-Kept env tasks watermarks =
    let s = poll_projects env env.projects (started env tasks watermarks) in
    Kept-trans tasks s.tasks (stamp_all env s.index s).tasks
      (projects-Kept env env.projects (started env tasks watermarks)) (stamps-Kept env s.index s)
