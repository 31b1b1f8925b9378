-- ===== src/Task/Mirror/Laws.antt =====
-- Dirty detection against the diff: crates/domain-task/src/task.rs.
use repo_link.Prelude.{Bool, true, false, not, none, some, ◌≡◌, arith, ◌⊎◌, ◌≢◌}
use repo_link.Task.Enums.{synced, dirty_local, dirty_remote, conflict, staged, local_only}
use repo_link.Task.Snapshot.{TaskSnapshot}
use repo_link.Task.State.{Task}
use repo_link.Task.Mirror.{
  is_dirty, reconcile_dirty_against_baseline, diff_against_baseline, is_empty,
}

-- Whether the content is not known to match the remote: no baseline, or a mirrored field differs.
unfoldable pub is_unconfirmed : Task → Bool
is_unconfirmed t = elim t.synced_baseline [ none ↦ true | some b ↦ is_dirty t b ]

-- The sync state after detection, by the table of the source's documentation.
reconcile-table :
    (t : Task) (b : TaskSnapshot)
    → t.synced_baseline ≡ some b
    → let s = (reconcile_dirty_against_baseline t).sync in
      (t.sync ≡ synced → is_dirty t b ≡ true → s ≡ dirty_local)
      × (t.sync ≡ synced → is_dirty t b ≡ false → s ≡ synced)
      × (t.sync ≡ dirty_local → is_dirty t b ≡ false → s ≡ synced)
      × (t.sync ≡ dirty_local → is_dirty t b ≡ true → s ≡ dirty_local)
      × (t.sync ≡ dirty_remote → is_dirty t b ≡ true → s ≡ conflict)
      × (t.sync ≡ dirty_remote → is_dirty t b ≡ false → s ≡ dirty_remote)
      × ((t.sync ≡ conflict) ⊎ ((t.sync ≡ staged) ⊎ (t.sync ≡ local_only)) → s ≡ t.sync)
unfolding reconcile_dirty_against_baseline
reconcile-table t b h = ground arith

pub reconcile-idempotent :
    (t : Task)
    → reconcile_dirty_against_baseline (reconcile_dirty_against_baseline t)
      ≡ reconcile_dirty_against_baseline t
unfolding reconcile_dirty_against_baseline is_dirty
reconcile-idempotent t = ground arith

-- After detection a `Synced` task with a baseline has nothing unconfirmed.
pub reconcile-synced :
    (t : Task)
    → (t.synced_baseline ≡ none → t.sync ≢ synced)
    → (reconcile_dirty_against_baseline t).sync ≡ synced
    → is_unconfirmed (reconcile_dirty_against_baseline t) ≡ false
unfolding reconcile_dirty_against_baseline is_unconfirmed is_dirty
reconcile-synced t h e = ground arith

-- Over a baseline, the patch to push is empty exactly when no mirrored field differs.
pub diff-is_empty :
    (t : Task) (b : TaskSnapshot)
    → t.synced_baseline ≡ some b
    → is_empty (diff_against_baseline t) ≡ not (is_dirty t b)
unfolding diff_against_baseline is_empty is_dirty
diff-is_empty t b h = ground arith
