-- ===== src/Sync/Policy.antt =====
-- crates/domain-sync/src/policy.rs: what to do for one task.
use repo_link.Prelude.{Bool, true, false, ◌≡◌, ◌↔◌, ◌⊎◌, ◌≢◌, arith}
use repo_link.Core.{Timestamp, ok}
use repo_link.Task.Enums.{
  SyncState, local_only, staged, synced, dirty_local, dirty_remote, conflict,
}
use repo_link.Task.Snapshot.Source.{push, pull}
use repo_link.Task.State.{Task}
use repo_link.Task.Sync.{adopt_aligned_state, confirm_synced, align}

pub data SyncDecision : Type 0 where
  noop push_local pull_remote : SyncDecision

pub data ConflictKind : Type 0 where
  local_edited_remote_edited remote_deleted_local_edited local_deleted_remote_edited : ConflictKind
  assignee_mismatch project_status_mismatch relation_mismatch target_remapped : ConflictKind

unfoldable pub decide : SyncState → Bool → SyncDecision
decide local_only _ = noop
decide staged _ = push_local
decide dirty_local true = pull_remote
decide dirty_local false = push_local
decide synced true = pull_remote
decide synced false = noop
decide dirty_remote _ = pull_remote
decide conflict _ = pull_remote

-- GitHub is authoritative: once a task is past `Staged`, a moved remote is always pulled, and a
-- local edit is pushed only if the remote has not moved.
pub decide-authority :
    (s : SyncState) (remote_dirty : Bool)
    → (decide s true ≡ pull_remote ↔ ((s ≢ local_only) × (s ≢ staged)))
      × (decide s remote_dirty ≡ push_local
          ↔ ((s ≡ staged) ⊎ ((s ≡ dirty_local) × (remote_dirty ≡ false))))
unfolding decide
decide-authority s d =
    ((λ h. ground arith, λ h. ground arith), (λ h. ground arith, λ h. ground arith))

-- Each decision is one that the task's state machine admits. A push can be confirmed and a pull
-- adopted; both end `Synced`, and then, with the remote unmoved, there is nothing more to do.
decide-admitted :
    (now at : Timestamp) (t : Task) (remote_dirty : Bool)
    → (decide t.sync remote_dirty ≡ push_local
        → let (t', r) = confirm_synced now at push t in
          (r ≡ ok tt) × (t'.sync ≡ synced) × (decide t'.sync false ≡ noop))
      × (decide t.sync remote_dirty ≡ pull_remote
          → let (t', r) = adopt_aligned_state now at pull t in
            (r ≡ ok tt) × (t'.sync ≡ synced) × (decide t'.sync false ≡ noop))
unfolding decide confirm_synced adopt_aligned_state align
decide-admitted now at t d = ground arith
