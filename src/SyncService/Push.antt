-- ===== src/SyncService/Push.antt =====
-- crates/application-sync/src/service.rs: `push_inner`.
pub mod Settled
use repo_link.Prelude.{
  ℕ, zero, suc, Bool, true, false, not, ◌&&◌, ◌||◌, Option, none, some, List, [], ◌∷◌,
  if◌then◌else◌, ◌==◌, is_none, any, retain,
}
use repo_link.Prelude.Text.{Text}
use repo_link.Core.{TaskId, Timestamp, transition}
use repo_link.Task.Enums.{SyncState, dirty_local, staged, conflict, sync_state_eq}
use repo_link.Task.Snapshot.{RemoteRef, TaskComment}
use repo_link.Task.Snapshot.Source.{push}
use repo_link.Task.State.{Task}
use repo_link.Task.Mirror.{MirrorPatch, diff_against_baseline, full_mirror_patch}
use repo_link.Task.Sync.{confirm_synced_fields}
use repo_link.Sync.Policy.{SyncDecision, noop, push_local}
use repo_link.Outbound.{RemoteTaskUpdate, build_update_from_patch}
use repo_link.TaskService.{Directory}
use repo_link.SyncService.{
  unreachable, no_remote, domain, Step, ◌>>=◌, pure, fail, need, write, get_task, save_task, moved,
  Remote, Readings, mark_comment_pushed, filing_canonical_for, Summary,
}

unfoldable pub is_snapshot_dirty : Bool → SyncState → Bool
is_snapshot_dirty force sync = sync == dirty_local || sync == staged || (force && sync == conflict)

-- The fields that are sent: all of them for a forced push out of a conflict.
unfoldable pub push_patch : Bool → Task → MirrorPatch
unfolding full_mirror_patch diff_against_baseline
push_patch force t =
    if force && t.sync == conflict then full_mirror_patch t else diff_against_baseline t

abbrev pub send : Remote → Option RemoteTaskUpdate → Step (Unit {0})
send remote none = pure tt
send remote (some u) = need unreachable (remote.update_remote u) >>= (λ snap. pure tt)

-- The snapshot's axis: the task after it.
unfoldable pub push_snapshot : Remote → Readings → Text → Text → MirrorPatch → Task → Step Task
unfolding build_update_from_patch confirm_synced_fields save_task
push_snapshot remote clock canonical remote_id patch t =
    send remote (build_update_from_patch patch canonical remote_id) >>= (λ _.
      moved (confirm_synced_fields clock.touched push patch t)
      >>= (λ confirmed. save_task clock.stored push confirmed >>= (λ _. pure confirmed)))

abbrev pub push_if : Bool → Step Task → Task → Step Task
push_if true pushed t = pushed
push_if false pushed t = pure t

-- One pending comment, by its row, with the rest of the loop; one without a row is skipped.
unfoldable pub push_comment :
    Remote
    → Readings
    → ℕ
    → TaskId
    → Text
    → Text
    → Text
    → Step (Unit {0})
    → Option Text
    → Step (Unit {0})
unfolding mark_comment_pushed
push_comment remote clock k id canonical remote_id body rest none = rest
push_comment remote clock k id canonical remote_id body rest (some local_id) =
    need unreachable (remote.create_comment canonical remote_id body)
    >>= (λ pushed. write (mark_comment_pushed clock.fresh k id local_id pushed) >>= (λ _. rest))

-- The loop over the pending comments.
unfoldable pub push_comments :
    Remote → Readings → ℕ → TaskId → Text → Text → List TaskComment → Step (Unit {0})
unfolding push_comment
push_comments remote clock k id canonical remote_id [] = pure tt
push_comments remote clock k id canonical remote_id (c ∷ cs) =
    push_comment remote clock k id canonical remote_id c.body
      (push_comments remote clock (suc k) id canonical remote_id cs) c.local_id

abbrev pub is_pending : TaskComment → Bool
is_pending c = is_none c.remote_id

-- A push that has nothing to send is refused.
abbrev pub guarded : Bool → Bool → Step Summary → Step Summary
guarded dirty pending then_push =
    if not dirty && not pending then fail (domain transition) else then_push

abbrev pub summary_of : Task → Task → Bool → Summary
summary_of task after dirty = record {
  previous = task.sync;
  task = after;
  decision = if dirty then push_local else noop;
  superseded = [];
}

-- What a push does once the task, its repo and its issue are there.
unfoldable pub push_resolved :
    Remote → Readings → Bool → TaskId → Text → RemoteRef → Task → Step Summary
unfolding is_snapshot_dirty push_patch push_snapshot push_comments
push_resolved remote clock force id canonical r task =
    let dirty = is_snapshot_dirty force task.sync in
    let pushed = push_snapshot remote clock canonical r.remote_id (push_patch force task) task in
    guarded dirty (any is_pending task.comments) (
      push_if dirty pushed task >>= (λ after.
        push_comments remote clock 0 id canonical r.remote_id (retain is_pending after.comments)
        >>= (λ _. pure (summary_of task after dirty))))

-- `push_inner`
unfoldable pub push_inner : Remote → Directory → Readings → Bool → TaskId → Step Summary
unfolding get_task filing_canonical_for push_resolved
push_inner remote dir clock force id = get_task id >>= (λ task.
    filing_canonical_for dir task >>= (λ canonical.
      need no_remote task.remote >>= (λ r. push_resolved remote clock force id canonical r task)))
