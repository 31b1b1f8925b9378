-- ===== src/Task/Machine.antt =====
-- crates/domain-task/src/task.rs: the mutating methods of `Task` as the events of one machine.
pub mod Invariant
pub mod Graph
use repo_link.Prelude.{ℕ, Bool, Option, none, some, List, [], ◌∷◌}
use repo_link.Prelude.Text.{Text}
use repo_link.Core.{TaskId, RepoId, Timestamp, Result, ok, err}
use repo_link.Task.Enums.{Lifecycle, Priority, RelationKind}
use repo_link.Task.IssueType.{IssueType}
use repo_link.Task.Snapshot.Source.{SnapshotSource}
use repo_link.Task.Snapshot.{RemoteRef, TaskSnapshot}
use repo_link.Task.State.{Task}
use repo_link.Task.Mirror.{MirrorPatch, reconcile_dirty_against_baseline}
use repo_link.Task.Sync.{
  Outcome, done, set_synced_baseline, stage_for_sync, promote_to_remote, confirm_synced,
  confirm_synced_fields, adopt_aligned_state, link_to_remote,
}
use repo_link.Task.Sync
use repo_link.Task.Edits

-- A call of a public method, with its arguments. The clock's readings come with the step.
pub data Event : Type 0 where
  stage start complete archive reopen clear_relations : Event
  mark_dirty_local mark_dirty_remote mark_conflicted reconcile : Event
  promote : RemoteRef → Event
  confirm adopt : SnapshotSource → Event
  confirm_fields : SnapshotSource → MirrorPatch → Event
  rebaseline : TaskSnapshot → Event
  link : RepoId → RemoteRef → Bool → Event
  add_relation remove_relation : RelationKind → TaskId → Event
  set_priority : Priority → Event
  set_issue_type : Option IssueType → Event
  set_issue_type_default : IssueType → Event
  set_project_status_option_id : Option Text → Event
  set_repo_id set_filing_repo_id force_set_filing_repo_id : Option RepoId → Event
  set_body set_title : Text → Event
  set_assignees : List Text → Event

unfoldable pub step : Timestamp → Timestamp → Event → Task → Outcome
step now at Event.stage t = stage_for_sync now t
step now at Event.start t = Edits.start t
step now at Event.complete t = Edits.complete now t
step now at Event.archive t = Edits.archive now t
step now at Event.reopen t = Edits.reopen now t
step now at Event.clear_relations t = done (Edits.clear_relations now t).0
step now at Event.mark_dirty_local t = Sync.mark_dirty_local now t
step now at Event.mark_dirty_remote t = Sync.mark_dirty_remote now t
step now at Event.mark_conflicted t = Sync.mark_conflicted now t
step now at Event.reconcile t = done (reconcile_dirty_against_baseline t)
step now at (Event.promote remote) t = promote_to_remote now at remote t
step now at (Event.confirm source) t = confirm_synced now at source t
step now at (Event.adopt source) t = adopt_aligned_state now at source t
step now at (Event.confirm_fields source p) t = confirm_synced_fields now source p t
step now at (Event.rebaseline b) t = done (set_synced_baseline b t)
step now at (Event.link repo remote force) t = link_to_remote now repo remote force t
step now at (Event.add_relation kind other) t = done (Edits.add_relation now kind other t)
step now at (Event.remove_relation kind other) t = done (Edits.remove_relation now kind other t).0
step now at (Event.set_priority p) t = done (Edits.set_priority now p t)
step now at (Event.set_issue_type i) t = done (Edits.set_issue_type now i t)
step now at (Event.set_issue_type_default i) t = done (Edits.set_issue_type_default now i t)
step now at (Event.set_project_status_option_id o) t =
    done (Edits.set_project_status_option_id o t).0
step now at (Event.set_repo_id r) t = Edits.set_repo_id now r t
step now at (Event.set_filing_repo_id r) t = Edits.set_filing_repo_id now r t
step now at (Event.force_set_filing_repo_id r) t = done (Edits.force_set_filing_repo_id now r t)
step now at (Event.set_body s) t = done (Edits.set_body now s t)
step now at (Event.set_title s) t = Edits.set_title now s t
step now at (Event.set_assignees a) t = done (Edits.set_assignees now a t)

-- A history of calls; a call that fails leaves its error behind and the history goes on.
unfoldable pub run : List (Timestamp × Timestamp × Event) → Task → Task
run [] t = t
run ((now, at, e) ∷ es) t = run es (step now at e t).0
