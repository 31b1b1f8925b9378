-- ===== src/Task/Sync.antt =====
-- crates/domain-task/src/task.rs: the sync transitions. A `&mut self` method returns the task
-- after the call and its `Result`; `now` and `at` are its readings of the clock, in order.
pub mod Confirm
use repo_link.Prelude.{
  Bool, true, false, not, ◌||◌, Option, none, some, if◌then◌else◌, ◌==◌, is_none, unwrap_or,
}
use repo_link.Core.{RepoId, Timestamp, Result, ok, err, transition, validation}
use repo_link.Task.Enums.{
  SyncState, local_only, staged, synced, dirty_local, dirty_remote, conflict, sync_state_eq,
}
use repo_link.Task.Snapshot.Source.{
  SnapshotSource, promote, push, pull, conflict_resolve, is_baseline,
}
use repo_link.Task.Snapshot.{RemoteRef, TaskSnapshot}
use repo_link.Task.State.{Task, touch, snapshot_view}
use repo_link.Task.Mirror.{MirrorPatch, reconcile_dirty_against_baseline}

abbrev pub Outcome : Type 0
Outcome = Task × Result (Unit {0})

abbrev pub done : Task → Outcome
done t = (t, ok tt)

-- `Task::set_synced_baseline`
unfoldable pub set_synced_baseline : TaskSnapshot → Task → Task
set_synced_baseline b t = reconcile_dirty_against_baseline (record t { synced_baseline = some b })

-- The states that a transition admits.
unfoldable pub can_stage : SyncState → Bool
can_stage local_only = true
can_stage dirty_local = true
can_stage _ = false

unfoldable pub can_confirm : SyncState → Bool
can_confirm staged = true
can_confirm dirty_local = true
can_confirm dirty_remote = true
can_confirm _ = false

unfoldable pub can_adopt : SyncState → Bool
can_adopt synced = true
can_adopt conflict = true
can_adopt dirty_local = true
can_adopt dirty_remote = true
can_adopt _ = false

unfoldable pub can_conflict : SyncState → Bool
can_conflict dirty_local = true
can_conflict dirty_remote = true
can_conflict synced = true
can_conflict _ = false

-- `Task::stage_for_sync`
unfoldable pub stage_for_sync : Timestamp → Task → Outcome
unfolding can_stage
stage_for_sync now t =
    if can_stage t.sync then done (touch now (record t { sync = staged })) else (t, err transition)

-- What the aligning transitions end in: `Synced`, touched, with the current content as baseline.
unfoldable pub align : Timestamp → Timestamp → SnapshotSource → Task → Task
unfolding snapshot_view
align now at source t =
    let t' = touch now (record t { sync = synced }) in
    record t' { synced_baseline = some (snapshot_view at source t') }

-- `Task::promote_to_remote`
unfoldable pub promote_to_remote : Timestamp → Timestamp → RemoteRef → Task → Outcome
promote_to_remote now at remote t =
    if not (t.sync == staged)
    then (t, err transition)
    else done (align now at promote (record t { remote = some remote }))

-- `Task::confirm_synced`
unfoldable pub confirm_synced : Timestamp → Timestamp → SnapshotSource → Task → Outcome
unfolding can_confirm is_baseline
confirm_synced now at source t =
    if not (is_baseline source)
    then (t, err validation)
    else if can_confirm t.sync
    then done (align now at source t)
    else (t, err transition)

-- The sources that `Task::confirm_synced_fields` accepts.
unfoldable pub is_patch_source : SnapshotSource → Bool
is_patch_source promote = true
is_patch_source push = true
is_patch_source pull = true
is_patch_source conflict_resolve = true
is_patch_source _ = false

-- The guard on the sync state of `Task::confirm_synced_fields`.
unfoldable pub admits_fields : SyncState → SnapshotSource → MirrorPatch → Result (Unit {0})
admits_fields staged source p = ok tt
admits_fields dirty_local source p = ok tt
admits_fields dirty_remote source p = ok tt
admits_fields conflict push p =
    if is_none p.title || is_none p.body || is_none p.status || is_none p.assignees
    then err validation
    else ok tt
admits_fields conflict _ p = err transition
admits_fields _ source p = err transition

-- The baseline after the transmitted fields are merged in.
unfoldable pub merge : SnapshotSource → MirrorPatch → TaskSnapshot → TaskSnapshot
merge source p prior = record prior {
  source = source;
  title = unwrap_or p.title prior.title;
  body = unwrap_or p.body prior.body;
  lifecycle = unwrap_or p.status prior.lifecycle;
  assignees = unwrap_or p.assignees prior.assignees;
}

-- The body of `Task::confirm_synced_fields` behind its guards.
unfoldable pub confirm_fields :
    Timestamp → SnapshotSource → MirrorPatch → Option TaskSnapshot → Task → Outcome
confirm_fields now source p none t = (t, err transition)
confirm_fields now source p (some prior) t =
    let t' = record t { synced_baseline = some (merge source p prior); sync = synced } in
    done (reconcile_dirty_against_baseline (touch now t'))

-- `Task::confirm_synced_fields`
unfoldable pub confirm_synced_fields : Timestamp → SnapshotSource → MirrorPatch → Task → Outcome
unfolding is_patch_source admits_fields
confirm_synced_fields now source p t =
    if not (is_patch_source source)
    then (t, err validation)
    else elim (admits_fields t.sync source p) [
      | err e ↦ (t, err e)
      | ok _ ↦ confirm_fields now source p t.synced_baseline t
    ]

-- The sources that `Task::adopt_aligned_state` accepts.
unfoldable pub is_adopt_source : SnapshotSource → Bool
is_adopt_source push = true
is_adopt_source pull = true
is_adopt_source conflict_resolve = true
is_adopt_source _ = false

-- `Task::adopt_aligned_state`
unfoldable pub adopt_aligned_state : Timestamp → Timestamp → SnapshotSource → Task → Outcome
unfolding is_adopt_source can_adopt
adopt_aligned_state now at source t =
    if not (is_adopt_source source)
    then (t, err validation)
    else if can_adopt t.sync
    then done (align now at source t)
    else (t, err transition)

-- `Task::mark_dirty_local`
unfoldable pub mark_dirty_local : Timestamp → Task → Outcome
mark_dirty_local now t =
    if t.sync == synced
    then done (touch now (record t { sync = dirty_local }))
    else (t, err transition)

-- `Task::mark_dirty_remote`
unfoldable pub mark_dirty_remote : Timestamp → Task → Outcome
mark_dirty_remote now t =
    if t.sync == synced
    then done (touch now (record t { sync = dirty_remote }))
    else (t, err transition)

-- `Task::mark_conflicted`
unfoldable pub mark_conflicted : Timestamp → Task → Outcome
unfolding can_conflict
mark_conflicted now t =
    if can_conflict t.sync
    then done (touch now (record t { sync = conflict }))
    else (t, err transition)

-- `Task::link_to_remote`
unfoldable pub link_to_remote : Timestamp → RepoId → RemoteRef → Bool → Task → Outcome
link_to_remote now repo_id remote force_conflict t =
    let t' = record t {
      repo_id = some repo_id;
      remote = some remote;
      sync = if force_conflict then conflict else t.sync;
    } in
    done (touch now t')
