-- ===== src/Task/Sync/Confirm.antt =====
-- Per-field confirmation of a push: `Task::confirm_synced_fields` of
-- crates/domain-task/src/task.rs.
use repo_link.Prelude.{
  Bool, true, false, not, ◌&&◌, some, ◌≡◌, arith, is_none, unwrap_or, ◌==◌, if◌then◌else◌, ◌↔◌,
  list_eq, nat_eq,
}
use repo_link.Core.{Timestamp, ok}
use repo_link.Task.Enums.{synced, dirty_local, conflict, lifecycle_eq}
use repo_link.Task.Snapshot.Source.{SnapshotSource, push}
use repo_link.Task.Snapshot.{TaskSnapshot}
use repo_link.Task.State.{Task}
use repo_link.Task.Mirror.{
  MirrorPatch, is_dirty, reconcile_dirty_against_baseline, diff_against_baseline, full_mirror_patch,
  assignees_equal,
}
use repo_link.Task.Mirror.Assignees.{assignees_equal_refl}
use repo_link.Task.Sync.{is_patch_source, merge, confirm_fields, confirm_synced_fields, can_confirm}

-- Whether each mirrored field of the task is what was transmitted or, untransmitted, what the
-- baseline held.
abbrev pub all_confirmed : MirrorPatch → Task → TaskSnapshot → Bool
all_confirmed p t b =
    t.title == unwrap_or p.title b.title
    && t.body == unwrap_or p.body b.body
    && t.lifecycle == unwrap_or p.status b.lifecycle
    && assignees_equal t.assignees (unwrap_or p.assignees b.assignees)

pub is_dirty-merge :
    (source : SnapshotSource) (p : MirrorPatch) (t : Task) (b : TaskSnapshot)
    → is_dirty t (merge source p b) ≡ not (all_confirmed p t b)
unfolding is_dirty merge
is_dirty-merge source p t b = ground arith

-- A confirmation that succeeds merges the transmitted fields, and only those, into the baseline.
-- The task is `Synced` after it if each mirrored field is confirmed by the patch or by the old
-- baseline, and `DirtyLocal` if any is not. So a field that was not transmitted, or that was
-- edited while the push was in flight, keeps the task dirty.
pub confirm_merges :
    (now : Timestamp) (source : SnapshotSource) (p : MirrorPatch) (t : Task) (b : TaskSnapshot)
    → t.synced_baseline ≡ some b
    → (confirm_synced_fields now source p t).1 ≡ ok tt
    → let t' = (confirm_synced_fields now source p t).0 in
      (t'.synced_baseline ≡ some (merge source p b))
      × (t'.sync ≡ (if all_confirmed p t b then synced else dirty_local))
unfolding confirm_synced_fields confirm_fields reconcile_dirty_against_baseline is_dirty merge
confirm_merges now source p t b e h = ground arith

-- A push of the whole diff, from a state that a push may confirm, is accepted and ends `Synced`.
pub confirm-diff :
    (now : Timestamp) (source : SnapshotSource) (t : Task) (b : TaskSnapshot)
    → t.synced_baseline ≡ some b
    → can_confirm t.sync ≡ true
    → is_patch_source source ≡ true
    → let (t', r) = confirm_synced_fields now source (diff_against_baseline t) t in
      (r ≡ ok tt) × (t'.sync ≡ synced)
unfolding confirm_synced_fields confirm_fields reconcile_dirty_against_baseline is_dirty merge
    diff_against_baseline can_confirm
confirm-diff now source t b e c k = ground (arith, assignees_equal_refl t.assignees)

-- From `Conflict` a confirmation is accepted exactly when it is a push of all four fields over a
-- baseline.
pub confirm_conflict_iff :
    (now : Timestamp) (source : SnapshotSource) (p : MirrorPatch) (t : Task)
    → t.sync ≡ conflict
    → ((confirm_synced_fields now source p t).1 ≡ ok tt) ↔ (
        (source ≡ push)
        × (is_none p.title ≡ false)
        × (is_none p.body ≡ false)
        × (is_none p.status ≡ false)
        × (is_none p.assignees ≡ false)
        × (is_none t.synced_baseline ≡ false))
unfolding confirm_synced_fields confirm_fields
confirm_conflict_iff now source p t c = (λ h. ground arith, λ h. ground arith)

-- The forced local-wins push, which sends every field, resolves a conflict: it ends `Synced`, and
-- the baseline holds the local content.
pub confirm-full_conflict :
    (now : Timestamp) (t : Task) (b : TaskSnapshot)
    → t.sync ≡ conflict
    → t.synced_baseline ≡ some b
    → let (t', r) = confirm_synced_fields now push (full_mirror_patch t) t in
      (r ≡ ok tt)
      × (t'.sync ≡ synced)
      × (t'.synced_baseline
          ≡ some (record b {
            source = push;
            title = t.title;
            body = t.body;
            lifecycle = t.lifecycle;
            assignees = t.assignees;
          }))
unfolding confirm_synced_fields confirm_fields reconcile_dirty_against_baseline is_dirty merge
    full_mirror_patch
confirm-full_conflict now t b c e = ground (arith, assignees_equal_refl t.assignees)
