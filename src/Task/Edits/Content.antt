-- ===== src/Task/Edits/Content.antt =====
-- Edits of the mirrored fields and dirty detection: crates/domain-task/src/task.rs.
use repo_link.Prelude.{false, some, List, ◌≡◌, ◌≢◌, arith, list_eq, nat_eq, Option-cases, inl, inr}
use mathlib.Core.List.{Perm}
use repo_link.Prelude.Text.{Text}
use repo_link.Core.{Timestamp}
use repo_link.Task.Enums.{
  Lifecycle, lifecycle_eq, synced, dirty_local, dirty_remote, conflict, local_only, staged,
}
use repo_link.Task.Snapshot.{TaskSnapshot}
use repo_link.Task.State.{Task, is_blank}
use repo_link.Task.Mirror.{is_dirty, reconcile_dirty_against_baseline}
use repo_link.Task.Mirror.Assignees.{assignees_equal_trans, assignees_equal-perm}
use repo_link.Task.Mirror.Laws.{is_unconfirmed}
use repo_link.Task.Edits.{set_body, set_title, set_assignees, set_lifecycle}

-- An edit of a clean `Synced` task dirties it exactly when the new value is another one.
set_body-dirties :
    (now : Timestamp) (s : Text) (t : Task)
    → t.sync ≡ synced
    → is_unconfirmed t ≡ false
    → ((set_body now s t).sync ≡ dirty_local → s ≢ t.body)
      × (s ≢ t.body → (set_body now s t).sync ≡ dirty_local)
unfolding set_body is_unconfirmed reconcile_dirty_against_baseline is_dirty
set_body-dirties now s t e c = (λ h. ground arith, λ h. ground arith)

-- Taking back an edit of the body, the title or the lifecycle of a clean `Synced` task makes it
-- `Synced` again.
edit-revert :
    (n m : Timestamp) (s : Text) (l : Lifecycle) (t : Task)
    → t.sync ≡ synced
    → is_unconfirmed t ≡ false
    → is_blank t.title ≡ false
    → ((set_body m t.body (set_body n s t)).sync ≡ synced)
      × ((set_title m t.title (set_title n s t).0).0.sync ≡ synced)
      × ((set_lifecycle m t.lifecycle (set_lifecycle n l t)).sync ≡ synced)
unfolding set_body set_title set_lifecycle is_unconfirmed reconcile_dirty_against_baseline is_dirty
edit-revert n m s l t e c k = (ground arith, ground arith, ground arith)

-- Reordering the assignees of a clean `Synced` task does not dirty it.
set_assignees-perm :
    (now : Timestamp) (a : List Text) (t : Task)
    → t.sync ≡ synced
    → is_unconfirmed t ≡ false
    → Perm a t.assignees
    → (set_assignees now a t).sync ≡ synced
unfolding set_assignees is_unconfirmed reconcile_dirty_against_baseline is_dirty
set_assignees-perm now a t e c p = elim (Option-cases t.synced_baseline) [
  | inl n ↦ ground arith
  | inr (b, h) ↦
      ground (
        arith,
        assignees_equal-perm a t.assignees p,
        assignees_equal_trans a t.assignees b.assignees,
      )
]

-- An edit of a task whose remote has moved makes a conflict exactly when it differs from the
-- baseline, and no edit of the body leaves `LocalOnly`, `Staged` or `Conflict`.
pub set_body-elsewhere :
    (now : Timestamp) (s : Text) (t : Task) (b : TaskSnapshot)
    → t.synced_baseline ≡ some b
    → (t.sync ≡ dirty_remote → s ≢ b.body → (set_body now s t).sync ≡ conflict)
      × (t.sync ≡ local_only → (set_body now s t).sync ≡ local_only)
      × (t.sync ≡ staged → (set_body now s t).sync ≡ staged)
      × (t.sync ≡ conflict → (set_body now s t).sync ≡ conflict)
unfolding set_body reconcile_dirty_against_baseline is_dirty
set_body-elsewhere now s t b h = ground arith
