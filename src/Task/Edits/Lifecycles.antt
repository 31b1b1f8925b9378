-- ===== src/Task/Edits/Lifecycles.antt =====
-- The lifecycle axis: crates/domain-task/src/enums.rs and task.rs.
use repo_link.Prelude.{true, false, some, ◌≡◌, ◌≢◌, arith, is_none, list_eq, nat_eq}
use repo_link.Prelude.Text.{codes}
use repo_link.Core.{Timestamp, ok}
use repo_link.Task.Enums.{Lifecycle, lifecycle_eq, is_open, state_reason}
use repo_link.Task.State.{Task}
use repo_link.Task.Mirror.{reconcile_dirty_against_baseline}
use repo_link.Task.Edits.{set_lifecycle, start, reopen}
use repo_link.Task.Sync.{done}

-- GitHub's two fields determine the lifecycle: no two lifecycles share the open bit and the reason.
pub is_open-state_reason_injective :
    (l m : Lifecycle) → is_open l ≡ is_open m → state_reason l ≡ state_reason m → l ≡ m
unfolding is_open state_reason
is_open-state_reason_injective l m p q = ground arith

-- A closed lifecycle has a reason, and an open one is never `not_planned`.
pub closed-state_reason :
    (l : Lifecycle)
    → (is_open l ≡ false → is_none (state_reason l) ≡ false)
      × (is_open l ≡ true → state_reason l ≢ some (codes "not_planned"))
unfolding is_open state_reason
closed-state_reason l = ground arith

-- The verbs reach their lifecycle from every other, keep the rest of the content, and a second
-- call of the same verb changes nothing, not even `updated_at`.
pub set_lifecycle-again :
    (n m : Timestamp) (l : Lifecycle) (t : Task)
    → ((set_lifecycle n l t).lifecycle ≡ l)
      × ((set_lifecycle n l t).title ≡ t.title)
      × ((set_lifecycle n l t).body ≡ t.body)
      × ((set_lifecycle n l t).assignees ≡ t.assignees)
      × (set_lifecycle m l (set_lifecycle n l t) ≡ set_lifecycle n l t)
unfolding set_lifecycle reconcile_dirty_against_baseline
set_lifecycle-again n m l t = ground arith

-- `start` succeeds exactly on an open task and never changes it; a closed task is opened by
-- `reopen`, after which it succeeds.
pub start-reopen :
    (now : Timestamp) (t : Task)
    → ((start t).0 ≡ t)
      × ((start t).1 ≡ ok tt → is_open t.lifecycle ≡ true)
      × (is_open t.lifecycle ≡ true → (start t).1 ≡ ok tt)
      × (start (reopen now t).0 ≡ done (reopen now t).0)
unfolding start reopen reconcile_dirty_against_baseline
start-reopen now t = ground arith
