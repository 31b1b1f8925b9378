-- ===== src/Task/Machine/Invariant.antt =====
-- What holds of a task after every history of calls: crates/domain-task/src/task.rs.
use repo_link.Prelude.{Bool, false, Option, none, some, List, [], ◌∷◌, ◌≡◌, refl, arith, is_none}
use repo_link.Prelude.Text.{Text}
use repo_link.Core.{TaskId, RepoId, WorkspaceId, Timestamp, ok}
use repo_link.Task.Enums.{synced, dirty_local, dirty_remote}
use repo_link.Task.Snapshot.Source.{SnapshotSource, promote}
use repo_link.Task.Snapshot.{RemoteRef, TaskSnapshot}
use repo_link.Task.State.{Task, is_blank, new_draft, import_mirror}
use repo_link.Task.Mirror.{MirrorPatch, is_dirty, reconcile_dirty_against_baseline}
use repo_link.Task.Mirror.Assignees.{assignees_equal_refl}
use repo_link.Task.Mirror.Laws.{is_unconfirmed}
use repo_link.Task.Sync
use repo_link.Task.Edits
use repo_link.Task.Machine.{Event, step, run}

pub record Inv (t : Task) : Type 0 where
  -- A `Synced` task has a baseline, and no mirrored field differs from it.
  pub clean : t.sync ≡ synced → is_unconfirmed t ≡ false
  -- A dirty task has a baseline to compare with.
  pub local_based : t.sync ≡ dirty_local → is_none t.synced_baseline ≡ false
  pub remote_based : t.sync ≡ dirty_remote → is_none t.synced_baseline ≡ false
  -- The title is not blank.
  pub titled : is_blank t.title ≡ false

align-Inv :
    (now at : Timestamp) (source : SnapshotSource) (t : Task)
    → is_blank t.title ≡ false
    → Inv (Sync.align now at source t)
unfolding Sync.align is_unconfirmed is_dirty
align-Inv now at source t h = ground (arith, assignees_equal_refl t.assignees)

reconcile-Inv :
    (t : Task)
    → is_none t.synced_baseline ≡ false
    → is_blank t.title ≡ false
    → Inv (reconcile_dirty_against_baseline t)
unfolding reconcile_dirty_against_baseline is_unconfirmed is_dirty
reconcile-Inv t h k = ground arith

confirm_fields-Inv :
    (now : Timestamp) (source : SnapshotSource) (p : MirrorPatch) (o : Option TaskSnapshot)
    (t : Task)
    → Inv t
    → Inv (Sync.confirm_fields now source p o t).0
unfolding Sync.confirm_fields
confirm_fields-Inv now source p none t h = h
confirm_fields-Inv now source p (some b) t h =
    reconcile-Inv
      (record t { synced_baseline = some (Sync.merge source p b); sync = synced; updated_at = now })
      refl h.titled

confirm_synced_fields-Inv :
    (now : Timestamp) (source : SnapshotSource) (p : MirrorPatch) (t : Task)
    → Inv t
    → Inv (Sync.confirm_synced_fields now source p t).0
unfolding Sync.confirm_synced_fields
confirm_synced_fields-Inv now source p t h =
    ground (arith, confirm_fields-Inv now source p t.synced_baseline t h)

-- Every call keeps the invariant, also one that fails.
pub step-Inv : (now at : Timestamp) (e : Event) (t : Task) → Inv t → Inv (step now at e t).0
unfolding step Sync.set_synced_baseline Sync.stage_for_sync Sync.promote_to_remote
    Sync.confirm_synced Sync.adopt_aligned_state Sync.mark_dirty_local Sync.mark_dirty_remote
    Sync.mark_conflicted Sync.link_to_remote Edits.start Edits.complete Edits.archive Edits.reopen
    Edits.add_relation Edits.remove_relation Edits.clear_relations Edits.set_priority
    Edits.set_issue_type Edits.set_issue_type_default Edits.set_project_status_option_id
    Edits.set_repo_id Edits.set_filing_repo_id Edits.force_set_filing_repo_id Edits.set_body
    Edits.set_title Edits.set_assignees is_unconfirmed is_dirty reconcile_dirty_against_baseline
step-Inv now at (Event.promote remote) t h =
    ground (arith, align-Inv now at promote (record t { remote = some remote }) h.titled)
step-Inv now at (Event.confirm source) t h = ground (arith, align-Inv now at source t h.titled)
step-Inv now at (Event.adopt source) t h = ground (arith, align-Inv now at source t h.titled)
step-Inv now at (Event.rebaseline b) t h =
    ground (arith, reconcile-Inv (record t { synced_baseline = some b }) refl h.titled)
step-Inv now at (Event.confirm_fields source p) t h = confirm_synced_fields-Inv now source p t h
step-Inv now at e t h = ground arith

pub run-Inv : (es : List (Timestamp × Timestamp × Event)) (t : Task) → Inv t → Inv (run es t)
unfolding run
run-Inv [] t h = h
run-Inv ((now, at, e) ∷ es) t h = run-Inv es (step now at e t).0 (step-Inv now at e t h)

-- The two ways in which a task comes to be.
pub data Born (t : Task) : Type 0 where
  drafted :
      (id : TaskId) (now : Timestamp) (workspace_id : WorkspaceId) (repo_id : Option RepoId)
      (title : Text)
      → new_draft id now workspace_id repo_id title ≡ ok t
      → Born t
  mirrored :
      (id : TaskId) (now at : Timestamp) (workspace_id : WorkspaceId) (repo_id : Option RepoId)
      (remote : RemoteRef) (title body : Text) (assignees : List Text) (closed : Bool)
      → import_mirror id now at workspace_id repo_id remote title body assignees closed ≡ ok t
      → Born t

import-Inv :
    (id : TaskId) (now at : Timestamp) (workspace_id : WorkspaceId) (repo_id : Option RepoId)
    (remote : RemoteRef) (title body : Text) (assignees : List Text) (closed : Bool) (t : Task)
    → import_mirror id now at workspace_id repo_id remote title body assignees closed ≡ ok t
    → Inv t
unfolding import_mirror is_unconfirmed is_dirty
import-Inv id now at workspace_id repo_id remote title body assignees closed t e =
    ground (arith, assignees_equal_refl assignees)

Born-Inv : {t : Task} → Born t → Inv t
unfolding new_draft
Born-Inv (drafted id now workspace_id repo_id title e) = ground arith
Born-Inv {t} (mirrored id now at workspace_id repo_id remote title body assignees closed e) =
    import-Inv id now at workspace_id repo_id remote title body assignees closed t e

-- Whatever calls a task has seen since it was drafted or imported, failed ones included, it
-- satisfies the invariant: if it says `Synced`, it has a baseline and none of its mirrored fields
-- differs from it; if it is dirty, it has a baseline; and its title is not blank.
pub run-born_Inv : (es : List (Timestamp × Timestamp × Event)) (t : Task) → Born t → Inv (run es t)
run-born_Inv es t h = run-Inv es t (Born-Inv h)
