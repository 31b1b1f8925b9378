-- ===== src/Task/Machine/Graph.antt =====
-- What one call may change: crates/domain-task/src/task.rs.
use repo_link.Prelude.{Bool, true, false, none, some, List, [], ◌∷◌, ◌≡◌, ◌≢◌, arith, is_none}
use repo_link.Core.{RepoId, Timestamp, err, DomainError}
use repo_link.Task.Enums.{
  SyncState, local_only, staged, synced, dirty_local, dirty_remote, conflict,
}
use repo_link.Task.State.{Task}
use repo_link.Task.Mirror.{reconcile_dirty_against_baseline}
use repo_link.Task.Sync
use repo_link.Task.Edits
use repo_link.Task.Machine.{Event, step, run}

methods : Unit {0}
unfolding step Sync.set_synced_baseline Sync.stage_for_sync Sync.promote_to_remote
    Sync.confirm_synced Sync.confirm_synced_fields Sync.confirm_fields Sync.adopt_aligned_state
    Sync.mark_dirty_local Sync.mark_dirty_remote Sync.mark_conflicted Sync.link_to_remote Sync.align
    Edits.start Edits.complete Edits.archive Edits.reopen Edits.add_relation Edits.remove_relation
    Edits.clear_relations Edits.set_priority Edits.set_issue_type Edits.set_issue_type_default
    Edits.set_project_status_option_id Edits.set_repo_id Edits.set_filing_repo_id
    Edits.force_set_filing_repo_id Edits.set_body Edits.set_title Edits.set_assignees
    reconcile_dirty_against_baseline
methods = tt

-- A call that fails leaves the task as it was.
pub step_error_unchanged :
    (now at : Timestamp) (e : Event) (t : Task) {x : DomainError}
    → (step now at e t).1 ≡ err x
    → (step now at e t).0 ≡ t
unfolding methods
step_error_unchanged now at Event.stage t h = ground arith
step_error_unchanged now at e t h = ground arith

-- The moves of the sync state that a call can make.
infix 40 ◌⟶◌
pub data ◌⟶◌ : SyncState → SyncState → Type 0 where
  stay : {s : SyncState} → s ⟶ s
  stage_new : local_only ⟶ staged
  restage : dirty_local ⟶ staged
  align : {s : SyncState} → s ≢ local_only → s ⟶ synced
  edit : {s : SyncState} → s ≢ local_only → s ⟶ dirty_local
  drift : synced ⟶ dirty_remote
  diverge : {s : SyncState} → s ⟶ conflict

ruleset moves = (stay, stage_new, restage, align, edit, drift, diverge)

-- The sync state moves along an edge of the graph above, or stays, at every call, also one that
-- fails.
pub step-⟶ : (now at : Timestamp) (e : Event) (t : Task) → t.sync ⟶ (step now at e t).0.sync
unfolding methods
step-⟶ now at Event.stage t = grind (arith, moves)
step-⟶ now at e t = grind (arith, moves)

-- Once a task has left `LocalOnly`, no call brings it back.
run-not_local_only :
    (es : List (Timestamp × Timestamp × Event)) (t : Task)
    → t.sync ≢ local_only
    → (run es t).sync ≢ local_only
unfolding run
run-not_local_only [] t h = h
run-not_local_only ((now, at, e) ∷ es) t h =
    run-not_local_only es (step now at e t).0 (stays (step-⟶ now at e t) h)
  where
    stays : {s u : SyncState} → s ⟶ u → s ≢ local_only → u ≢ local_only
    stays stay k = k
    stays stage_new k = λ e. cc
    stays restage k = λ e. cc
    stays (align _) k = λ e. cc
    stays (edit _) k = λ e. cc
    stays drift k = λ e. cc
    stays diverge k = λ e. cc

-- The calls that may move a recorded filing repo, or the repo of a task that has none recorded.
abbrev pub is_forced : Event → Bool
is_forced (Event.force_set_filing_repo_id r) = true
is_forced _ = false

abbrev pub is_link : Event → Bool
is_link (Event.link repo remote force) = true
is_link _ = false

-- A call that is not forced keeps a filing repo that is recorded. A task that is remote-backed and
-- has none recorded keeps its repo too, unless the call links it anew.
step_home_pinned :
    (now at : Timestamp) (e : Event) (t : Task)
    → is_forced e ≡ false
    → ((r : RepoId) → t.filing_repo_id ≡ some r → (step now at e t).0.filing_repo_id ≡ some r)
      × (is_none t.remote ≡ false
          → t.filing_repo_id ≡ none
          → is_link e ≡ false
          → (step now at e t).0.repo_id ≡ t.repo_id)
unfolding methods
step_home_pinned now at (Event.force_set_filing_repo_id r) t f = cc
step_home_pinned now at e t f = ground arith
