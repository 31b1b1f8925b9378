-- ===== src/Drainer/Apply.antt =====
-- crates/application-sync/src/drainer.rs: `apply` with its write-backs and follow-ups. The log
-- lines are left out.
pub mod Arms
pub mod Frames
pub mod Calls
pub mod Replay
pub mod Idempotent
pub mod Outcomes
pub mod Pushes
pub mod Filed
use repo_link.Prelude.{
  ℕ, zero, suc, ◌+◌, Bool, true, false, not, ◌&&◌, ◌||◌, Option, none, some, List, [], ◌∷◌,
  if◌then◌else◌, ◌==◌, nat_eq, list_eq, option_eq, is_none, ltb,
}
use repo_link.Prelude.Text.{Text, codes, is_empty}
use repo_link.Core.{TaskId, Result, ok, err}
use repo_link.Task.Enums.{is_open}
use repo_link.Task.IssueType.{IssueType, from}
use repo_link.Task.Snapshot.{RemoteRef}
use repo_link.Task.Snapshot.Source.{SnapshotSource, push, local_edit}
use repo_link.Task.State.{Task}
use repo_link.Task.Mirror.{MirrorPatch, diff_against_baseline}
use repo_link.Task.Sync.{can_confirm, confirm_synced_fields}
use repo_link.Workspace.{Workspace}
use repo_link.Project.Board.{Project}
use repo_link.Project.Board.FieldIds.{status_field_id}
use repo_link.Sync.Policy.{assignee_mismatch, project_status_mismatch, target_remapped}
use repo_link.Sync.Outbox.{OutboxEntry, OutboxMutation, set_project_status}
use repo_link.Repo.Naming.{strip_prefix}
use repo_link.Outbound.{
  RemoteTaskUpdate, RemoteTaskSnapshot, board_option_for_lifecycle, build_update_from_patch,
}
use repo_link.Outbound.Enqueue.{
  and_then, node_of, set_project_priority_mutation, set_project_type_mutation,
}
use repo_link.Outbound.Plan.{parse_github_owner, resolve_type_projection}
use repo_link.Drainer.{ApplyDisposition, stamped, retry, conflicting}
use repo_link.Drainer.Effects.{
  Response, answered, refused, Remote, Call, Env, World, Outcome, done, failed, Act, pure, fail,
  ◌>>=◌, ask, need, get_task, save_task, enqueue_new, find_workspace, find_project,
}

-- `snap.assignees == sent || (sent.is_empty() && snap.assignees.is_empty())`, if any were sent.
unfoldable pub are_confirmed : Option (List Text) → List Text → Bool
are_confirmed none got = true
are_confirmed (some sent) got = got == sent || (sent == [] && got == [])

-- The end of the arm of `UpdateRemote`: confirm the patch and save.
unfoldable pub confirm_outcome : Env → Task → Task → Result (Unit {0}) → Act ApplyDisposition
unfolding save_task
confirm_outcome env t t' (err e) = fail (env.not_confirmed t.id)
confirm_outcome env t t' (ok _) = save_task env push t' >>= (λ _. pure stamped)

unfoldable pub confirm_and_save : Env → Task → MirrorPatch → Act ApplyDisposition
unfolding confirm_synced_fields confirm_outcome
confirm_and_save env t patch =
    let after = confirm_synced_fields env.now push patch t in confirm_outcome env t after.0 after.1

unfoldable pub push_patch :
    Env → Task → MirrorPatch → Option RemoteTaskUpdate → Act ApplyDisposition
unfolding confirm_and_save are_confirmed
push_patch env t patch none = confirm_and_save env t patch
push_patch env t patch (some u) = ask (Call.update_remote u) (env.remote.update_remote u) (λ snap.
    if are_confirmed u.assignees snap.assignees
    then confirm_and_save env t patch
    else pure (conflicting assignee_mismatch))

unfoldable pub apply_update_remote : Env → TaskId → Text → Text → Act ApplyDisposition
unfolding get_task push_patch can_confirm diff_against_baseline build_update_from_patch
apply_update_remote env id canonical_repo remote_id = get_task env id >>= (λ t.
    if can_confirm t.sync
    then push_patch env t (diff_against_baseline t)
        (build_update_from_patch (diff_against_baseline t) canonical_repo remote_id)
    else pure stamped)

unfoldable pub write_back_project_item : Env → TaskId → Text → Act (Unit {0})
unfolding get_task save_task
write_back_project_item env id item_id = get_task env id >>= (λ t.
    if t.project_item_id == some item_id
    then pure tt
    else save_task env local_edit (record t { project_item_id = some item_id }))

unfoldable pub board_of : Env → Option Text → Act (Option Project)
unfolding find_project
board_of env none = pure none
board_of env (some id) = need (env.no_project id) (find_project env id) >>= (λ p. pure (some p))

-- The current board of a task's workspace, `none` for a workspace without one.
unfoldable pub current_project : Env → Task → Act (Option Project)
unfolding find_workspace board_of
current_project env t =
    need (env.no_workspace t.workspace_id) (find_workspace env t.workspace_id)
    >>= (λ w. board_of env w.project_id)

abbrev pub targets : Text → Option Project → Bool
targets project_node_id none = false
targets project_node_id (some p) = p.id == project_node_id

unfoldable pub workspace_still_targets_project : Env → TaskId → Text → Act Bool
unfolding get_task current_project
workspace_still_targets_project env id project_node_id =
    get_task env id >>= (λ t. current_project env t >>= (λ p. pure (targets project_node_id p)))

-- One follow-up, if there is one to make; the next index of an entry.
unfoldable pub enqueue_optional : Env → ℕ → TaskId → Option OutboxMutation → Act ℕ
unfolding enqueue_new
enqueue_optional env k id none = pure k
enqueue_optional env k id (some m) = enqueue_new env k id m >>= (λ _. pure (suc k))

-- The status follow-up for the item that was just attached.
unfoldable pub status_follow_up : Project → Task → Text → Option OutboxMutation
unfolding status_field_id board_option_for_lifecycle is_open
status_follow_up p t item_id = and_then (status_field_id p) (λ field.
    and_then (board_option_for_lifecycle p (is_open t.lifecycle))
      (λ option_id. some (set_project_status p.id item_id field option_id)))

unfoldable pub follow_up : Env → TaskId → Task → Text → Text → Option Project → Act (Unit {0})
unfolding enqueue_optional status_follow_up set_project_priority_mutation set_project_type_mutation
follow_up env id t project_node_id item_id none = pure tt
follow_up env id t project_node_id item_id (some p) =
    if not (p.id == project_node_id)
    then pure tt
    else enqueue_optional env 0 id (status_follow_up p t item_id) >>= (λ i.
      enqueue_optional env i id (set_project_priority_mutation p t)
      >>= (λ j. enqueue_optional env j id (set_project_type_mutation p t) >>= (λ _. pure tt)))

unfoldable pub enqueue_status_follow_up : Env → TaskId → Text → Text → Act (Unit {0})
unfolding get_task current_project follow_up
enqueue_status_follow_up env id project_node_id item_id =
    get_task env id
    >>= (λ t. current_project env t >>= (λ p. follow_up env id t project_node_id item_id p))

unfoldable pub apply_add_item : Env → TaskId → Text → Text → Act ApplyDisposition
unfolding workspace_still_targets_project write_back_project_item enqueue_status_follow_up
apply_add_item env id project_node_id issue_node_id =
    ask (Call.add_item project_node_id issue_node_id)
      (env.remote.add_item project_node_id issue_node_id)
      (λ item_id.
        if is_empty item_id
        then pure (conflicting target_remapped)
        else workspace_still_targets_project env id project_node_id >>= (λ still.
          if still
          then write_back_project_item env id item_id >>= (λ _.
            enqueue_status_follow_up env id project_node_id item_id >>= (λ _. pure stamped))
          else pure stamped))
