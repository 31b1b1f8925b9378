-- ===== src/Task/Edits.antt =====
-- crates/domain-task/src/task.rs: the edits of a task's content, lifecycle, relations and repos.
pub mod Content
pub mod Lifecycles
pub mod Relations
pub mod Repos
use repo_link.Prelude.{
  ℕ, Bool, true, false, not, ◌&&◌, Option, none, some, List, [], ◌∷◌, ◌++◌, map, if◌then◌else◌,
  ◌==◌, any, retain, length, is_none, nat_eq, list_eq, option_eq,
}
use repo_link.Prelude.Text.{Text}
use repo_link.Core.{TaskId, RepoId, Timestamp, Result, ok, err, transition, validation}
use repo_link.Task.Enums.{
  Lifecycle, reopened, completed, not_planned, lifecycle_eq, is_open, Priority, priority_eq,
  RelationKind, blocked_by, relation_kind_eq, local_only, sync_state_eq,
}
use repo_link.Task.IssueType.{IssueType, issue_type_eq}
use repo_link.Task.Snapshot.{TaskRelation}
use repo_link.Task.State.{Task, touch, is_blank}
use repo_link.Task.Mirror.{reconcile_dirty_against_baseline}
use repo_link.Task.Sync.{Outcome, done}

-- `Task::set_lifecycle`
unfoldable pub set_lifecycle : Timestamp → Lifecycle → Task → Task
unfolding reconcile_dirty_against_baseline
set_lifecycle now l t =
    if t.lifecycle == l
    then t
    else reconcile_dirty_against_baseline (touch now (record t { lifecycle = l }))

-- `Task::start`
unfoldable pub start : Task → Outcome
unfolding is_open
start t = if is_open t.lifecycle then done t else (t, err transition)

-- `Task::complete`, `Task::archive` and `Task::reopen`
unfoldable pub complete : Timestamp → Task → Outcome
unfolding set_lifecycle
complete now t = done (set_lifecycle now completed t)

unfoldable pub archive : Timestamp → Task → Outcome
unfolding set_lifecycle
archive now t = done (set_lifecycle now not_planned t)

unfoldable pub reopen : Timestamp → Task → Outcome
unfolding set_lifecycle
reopen now t = done (set_lifecycle now reopened t)

-- `r.kind == kind && r.other == other`
abbrev pub is_edge : RelationKind → TaskId → TaskRelation → Bool
is_edge kind other r = r.kind == kind && r.other == other

-- `Task::add_relation`
unfoldable pub add_relation : Timestamp → RelationKind → TaskId → Task → Task
add_relation now kind other t =
    if not (any (is_edge kind other) t.relations)
    then touch now
        (record t { relations = t.relations ++ (record { kind = kind; other = other } ∷ []) })
    else t

-- `Task::remove_relation`: whether an edge was removed.
unfoldable pub remove_relation : Timestamp → RelationKind → TaskId → Task → Task × Bool
remove_relation now kind other t =
    let kept = retain (λ r. not (is_edge kind other r)) t.relations in
    let removed = not (length kept == length t.relations) in
    let t' = record t { relations = kept } in (if removed then touch now t' else t', removed)

-- `Task::clear_relations`: the edges that stood there.
unfoldable pub clear_relations : Timestamp → Task → Task × List TaskRelation
clear_relations now t = elim t.relations [
  | [] ↦ (t, [])
  | r ∷ rs ↦ (touch now (record t { relations = [] }), t.relations)
]

-- `Task::set_priority`
unfoldable pub set_priority : Timestamp → Priority → Task → Task
set_priority now p t = if not (t.priority == p) then touch now (record t { priority = p }) else t

-- `Task::set_issue_type` and `Task::set_issue_type_default`
unfoldable pub set_issue_type : Timestamp → Option IssueType → Task → Task
set_issue_type now i t =
    if not (t.issue_type == i)
    then touch now (record t { issue_type = i; issue_type_pending = true })
    else t

unfoldable pub set_issue_type_default : Timestamp → IssueType → Task → Task
set_issue_type_default now i t =
    if not (t.issue_type == some i) then touch now (record t { issue_type = some i }) else t

-- `Task::set_project_status_option_id`: whether the cached value changed.
unfoldable pub set_project_status_option_id : Option Text → Task → Task × Bool
set_project_status_option_id o t =
    if t.project_status_option_id == o
    then (t, false)
    else (record t { project_status_option_id = o }, true)

-- `Task::set_repo_id`
unfoldable pub set_repo_id : Timestamp → Option RepoId → Task → Outcome
set_repo_id now r t =
    if t.repo_id == r
    then done t
    else if not (is_none t.remote) && is_none t.filing_repo_id
    then (t, err validation)
    else done (touch now (record t { repo_id = r }))

-- `Task::set_filing_repo_id`
unfoldable pub set_filing_repo_id : Timestamp → Option RepoId → Task → Outcome
set_filing_repo_id now r t =
    if t.filing_repo_id == r
    then done t
    else if not (is_none t.filing_repo_id)
    then (t, err validation)
    else done (touch now (record t { filing_repo_id = r }))

-- `Task::force_set_filing_repo_id`
unfoldable pub force_set_filing_repo_id : Timestamp → Option RepoId → Task → Task
force_set_filing_repo_id now r t =
    if t.filing_repo_id == r then t else touch now (record t { filing_repo_id = r })

-- `Task::set_body`
unfoldable pub set_body : Timestamp → Text → Task → Task
unfolding reconcile_dirty_against_baseline
set_body now s t = reconcile_dirty_against_baseline (touch now (record t { body = s }))

-- `Task::set_title`
unfoldable pub set_title : Timestamp → Text → Task → Outcome
unfolding reconcile_dirty_against_baseline
set_title now s t =
    if is_blank s
    then (t, err validation)
    else done (reconcile_dirty_against_baseline (touch now (record t { title = s })))

-- `Task::set_assignees`
unfoldable pub set_assignees : Timestamp → List Text → Task → Task
unfolding reconcile_dirty_against_baseline
set_assignees now a t = reconcile_dirty_against_baseline (touch now (record t { assignees = a }))

-- `Task::blocked_by` and `Task::is_blocked`
abbrev pub is_blocker : TaskRelation → Bool
is_blocker r = r.kind == RelationKind.blocked_by

unfoldable pub blockers : Task → List TaskId
blockers t = map (λ r. r.other) (retain is_blocker t.relations)

unfoldable pub is_blocked : Task → Bool
is_blocked t = any is_blocker t.relations

-- `Task::is_mirror`, `Task::is_issue_backed` and `Task::is_remote_backed`
unfoldable pub is_mirror : Task → Bool
is_mirror t = not (t.sync == local_only)

unfoldable pub is_remote_backed : Task → Bool
is_remote_backed t = not (is_none t.remote)
