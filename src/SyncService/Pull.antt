-- ===== src/SyncService/Pull.antt =====
-- crates/application-sync/src/service.rs: `pull_inner`, up to the relations, and `refresh`.
pub mod Aligned
pub mod Errors
use repo_link.Prelude.{
  Bool, true, false, not, ◌&&◌, ◌||◌, Option, none, some, List, [], ◌∷◌, if◌then◌else◌, ◌==◌,
  is_none,
}
use repo_link.Prelude.Text.{Text}
use repo_link.Core.{TaskId, Timestamp}
use repo_link.Task.Enums.{SyncState, dirty_local, conflict, sync_state_eq}
use repo_link.Task.Snapshot.{RemoteRef, TaskSnapshot}
use repo_link.Task.Snapshot.Source.{pull, pre_pull}
use repo_link.Task.State.{Task}
use repo_link.Task.Sync.{adopt_aligned_state}
use repo_link.Sync.Policy.{SyncDecision, noop, push_local, pull_remote, decide}
use repo_link.TaskRepo.{cache_synced_at, cache_remote_node_id, with_node_id}
use repo_link.Outbound.{
  RemoteTaskSnapshot, inbound_mirrors_baseline, superseded_inbound_fields,
  copy_inbound_mirror_from_snap,
}
use repo_link.TaskService.{Directory}
use repo_link.SyncService.{
  unreachable, no_remote, Step, ◌>>=◌, pure, need, write, get_task, save_task, moved, Remote,
  Readings, replace_comments, filing_canonical_for, ensure_not_archived, Summary,
}

-- `remote_mirrors_baseline`, and that a task without a baseline counts as changed.
unfoldable pub remote_changed : RemoteTaskSnapshot → Option TaskSnapshot → Bool
unfolding inbound_mirrors_baseline
remote_changed snap none = true
remote_changed snap (some b) =
    not (inbound_mirrors_baseline snap.title snap.body snap.assignees snap.closed b)

-- The decision, which `--force` turns on a `DirtyLocal` task.
unfoldable pub accept_remote : Bool → SyncState → SyncDecision → SyncDecision
accept_remote true dirty_local push_local = pull_remote
accept_remote _ _ d = d

unfoldable pub pull_decision : Bool → RemoteTaskSnapshot → Task → SyncDecision
unfolding accept_remote decide remote_changed
pull_decision force snap t =
    accept_remote force t.sync (decide t.sync (remote_changed snap t.synced_baseline))

-- `node_id_backfill`, and the task with it.
unfoldable pub node_id_backfill : RemoteRef → RemoteTaskSnapshot → Option Text
node_id_backfill r snap = if is_none r.node_id then snap.node_id else none

unfoldable pub with_backfill : Option Text → Task → Task
unfolding with_node_id
with_backfill none t = t
with_backfill (some node_id) t = with_node_id node_id t

-- The fields that the note names.
unfoldable pub noted : SyncDecision → Task → RemoteTaskSnapshot → List Text
unfolding superseded_inbound_fields
noted pull_remote t snap =
    if t.sync == dirty_local || t.sync == conflict
    then superseded_inbound_fields t snap.title snap.body snap.assignees snap.closed
    else []
noted _ t snap = []

-- The `match` on the decision: the task after it.
unfoldable pub reconcile : Readings → RemoteTaskSnapshot → Task → SyncDecision → Step Task
unfolding save_task copy_inbound_mirror_from_snap adopt_aligned_state
reconcile clock snap t noop = pure t
reconcile clock snap t push_local = pure t
reconcile clock snap t pull_remote =
    let copied = copy_inbound_mirror_from_snap snap.title snap.body snap.assignees snap.closed t in
    save_task clock.pre_pulled pre_pull t >>= (λ _.
      moved (adopt_aligned_state clock.touched clock.captured pull copied)
      >>= (λ adopted. save_task clock.stored pull adopted >>= (λ _. pure adopted)))

abbrev pub backfill : TaskId → Option Text → Step (Unit {0})
backfill id none = pure tt
backfill id (some node_id) = write (cache_remote_node_id id node_id)

-- The end of a pull: the comments and the node.
unfoldable pub mirror_comments :
    Remote → Readings → TaskId → Text → Text → Option Text → Summary → Step Summary
unfolding replace_comments cache_remote_node_id
mirror_comments remote clock id canonical number node_id out =
    need unreachable (remote.fetch_comments canonical number) >>= (λ comments.
      write (replace_comments clock.fresh id comments)
      >>= (λ _. backfill id node_id >>= (λ _. pure out)))

-- What a pull does once the remote has answered.
unfoldable pub pull_observed :
    Remote → Readings → Bool → TaskId → Text → RemoteRef → Task → RemoteTaskSnapshot → Step Summary
unfolding cache_synced_at node_id_backfill with_backfill pull_decision noted reconcile
    mirror_comments
pull_observed remote clock force id canonical r task snap =
    let node_id = node_id_backfill r snap in
    let t = with_backfill node_id task in
    let decision = pull_decision force snap t in
    write (cache_synced_at id clock.fetched) >>= (λ _. reconcile clock snap t decision >>= (λ after.
      mirror_comments remote clock id canonical r.remote_id node_id (record {
        previous = task.sync;
        task = after;
        decision = decision;
        superseded = noted decision t snap;
      })))

-- `pull_inner`
unfoldable pub pull_inner : Remote → Directory → Readings → Bool → TaskId → Step Summary
unfolding get_task ensure_not_archived filing_canonical_for pull_observed
pull_inner remote dir clock force id = get_task id >>= (λ task. ensure_not_archived task >>= (λ _.
    filing_canonical_for dir task >>= (λ canonical. need no_remote task.remote >>= (λ r.
      need unreachable (remote.fetch_remote canonical r.remote_id)
      >>= (λ snap. pull_observed remote clock force id canonical r task snap)))))

-- `RefreshOutcome`
pub data RefreshOutcome : Type 0 where
  stamped not_issue_backed : RefreshOutcome

unfoldable pub stamp :
    Remote → Directory → Timestamp → Task → Option RemoteRef → Step RefreshOutcome
unfolding filing_canonical_for cache_synced_at
stamp remote dir now t none = pure not_issue_backed
stamp remote dir now t (some r) = filing_canonical_for dir t >>= (λ canonical.
    need unreachable (remote.fetch_remote canonical r.remote_id)
    >>= (λ snap. write (cache_synced_at t.id now) >>= (λ _. pure stamped)))

unfoldable pub refresh : Remote → Directory → Timestamp → TaskId → Step RefreshOutcome
unfolding get_task stamp
refresh remote dir now id = get_task id >>= (λ t. stamp remote dir now t t.remote)
