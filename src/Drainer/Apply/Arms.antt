-- ===== src/Drainer/Apply/Arms.antt =====
-- crates/application-sync/src/drainer.rs: the arms of `apply` on drafts, fields and relations, and
-- `apply` itself.
use repo_link.Prelude.{
  ℕ, Bool, true, false, ◌||◌, Option, none, some, if◌then◌else◌, ◌==◌, nat_eq, list_eq, is_none,
}
use repo_link.Prelude.Text.{Text, codes, is_empty}
use repo_link.Core.{TaskId}
use repo_link.Task.IssueType.{IssueType, from}
use repo_link.Task.Snapshot.{RemoteRef}
use repo_link.Task.Snapshot.Source.{local_edit}
use repo_link.Task.State.{Task}
use repo_link.Project.Board.{Project}
use repo_link.Sync.Policy.{project_status_mismatch, target_remapped}
use repo_link.Sync.Outbox.{
  OutboxEntry, OutboxMutation, update_remote, add_item, create_draft_issue, update_draft_issue,
  convert_draft_to_issue, set_project_status, set_project_priority, set_project_type,
  set_issue_type, add_sub_issue, remove_sub_issue, add_blocked_by, remove_blocked_by,
}
use repo_link.Repo.Naming.{strip_prefix}
use repo_link.TaskRepo.{clear_issue_type_pending}
use repo_link.Outbound.Enqueue.{and_then, node_of}
use repo_link.Outbound.Plan.{parse_github_owner, resolve_type_projection}
use repo_link.Drainer.{ApplyDisposition, stamped, retry, conflicting}
use repo_link.Drainer.Effects.{
  Response, Call, Env, Act, pure, fail, ◌>>=◌, ask, get_task, save_task, enqueue_new,
  find_workspace, find_project,
}
use repo_link.Drainer.Apply.{
  apply_update_remote, apply_add_item, write_back_project_item, enqueue_status_follow_up,
}

-- What is done with an item that was minted, before the rest `k`.
unfoldable pub draft_minted :
    Env → TaskId → (Text → Act ApplyDisposition) → Text → Act ApplyDisposition
unfolding write_back_project_item
draft_minted env id k minted =
    if is_empty minted
    then pure (conflicting target_remapped)
    else write_back_project_item env id minted >>= (λ _. k minted)

-- The item of a draft: the one that is there, else the one that the remote mints.
unfoldable pub draft_item :
    Env
    → TaskId
    → Text
    → Text
    → Text
    → Option Text
    → (Text → Act ApplyDisposition)
    → Act ApplyDisposition
unfolding draft_minted
draft_item env id project_node_id title body (some existing) k = k existing
draft_item env id project_node_id title body none k =
    ask (Call.create_draft_issue project_node_id title body)
      (env.remote.create_draft_issue project_node_id title body) (draft_minted env id k)

unfoldable pub apply_create_draft : Env → TaskId → Text → Text → Text → Act ApplyDisposition
unfolding get_task draft_item enqueue_status_follow_up
apply_create_draft env id project_node_id title body = get_task env id >>= (λ t.
    draft_item env id project_node_id title body t.project_item_id
      (λ item_id. enqueue_status_follow_up env id project_node_id item_id >>= (λ _. pure stamped)))

unfoldable pub apply_update_draft : Env → TaskId → Text → Act ApplyDisposition
unfolding get_task
apply_update_draft env id item_node_id = get_task env id >>= (λ t.
    ask (Call.update_draft_issue item_node_id t.title t.body)
      (env.remote.update_draft_issue item_node_id t.title t.body) (λ _. pure stamped))

-- The board of a task, where a workspace or a board that is not there is none.
unfoldable pub resolve_project_tolerant : Env → Task → Option Project
unfolding find_workspace find_project
resolve_project_tolerant env t =
    and_then (find_workspace env t.workspace_id)
      (λ w. and_then w.project_id (λ id. find_project env id))

unfoldable pub enqueue_type : Env → TaskId → Option OutboxMutation → Act (Unit {0})
unfolding enqueue_new
enqueue_type env id none = pure tt
enqueue_type env id (some m) = enqueue_new env 0 id m

unfoldable pub enqueue_issue_type_follow_up : Env → TaskId → Text → Act (Unit {0})
unfolding get_task resolve_project_tolerant parse_github_owner resolve_type_projection enqueue_type
enqueue_issue_type_follow_up env id filing_canonical = get_task env id >>= (λ t.
    if is_none t.issue_type
    then pure tt
    else enqueue_type env id (
        resolve_type_projection (resolve_project_tolerant env t) env.registries
          (parse_github_owner filing_canonical) t))

abbrev pub provider_of : Option RemoteRef → Text
provider_of none = codes "github"
provider_of (some r) = r.provider

-- `issue_number.to_string()` is a parameter: the number's decimal digits.
module _ (to_string : ℕ → Text) where
  unfoldable pub write_back_converted_issue : Env → TaskId → Text → ℕ → Act (Unit {0})
  unfolding get_task save_task
  write_back_converted_issue env id issue_node_id issue_number = get_task env id >>= (λ t.
      save_task env local_edit (record t {
        remote = some (record {
          provider = provider_of t.remote;
          remote_id = to_string issue_number;
          node_id = some issue_node_id;
        });
      }))

  -- `!issue_node_id.starts_with("I_") || issue_number == 0`
  unfoldable pub is_junk : Text → ℕ → Bool
  unfolding strip_prefix
  is_junk issue_node_id issue_number =
      is_none (strip_prefix (codes "I_") issue_node_id) || issue_number == 0

  -- What is done with an issue that the remote gave, before the rest `k`.
  unfoldable pub converted : Env → TaskId → Act ApplyDisposition → Text × ℕ → Act ApplyDisposition
  unfolding is_junk write_back_converted_issue
  converted env id k issue =
      if is_junk issue.0 issue.1
      then pure (conflicting target_remapped)
      else write_back_converted_issue env id issue.0 issue.1 >>= (λ _. k)

  -- The convert, unless the task has an issue already.
  unfoldable pub convert_first :
      Env → TaskId → Text → Text → Option Text → Act ApplyDisposition → Act ApplyDisposition
  unfolding converted
  convert_first env id item_node_id repo_node_id (some node) k = k
  convert_first env id item_node_id repo_node_id none k =
      ask (Call.convert_draft_to_issue item_node_id repo_node_id)
        (env.remote.convert_draft_to_issue item_node_id repo_node_id) (converted env id k)

  unfoldable pub apply_convert : Env → TaskId → Text → Text → Act ApplyDisposition
  unfolding get_task node_of convert_first enqueue_issue_type_follow_up
  apply_convert env id item_node_id repo_node_id = get_task env id >>= (λ t.
      convert_first env id item_node_id repo_node_id (node_of t)
        (enqueue_issue_type_follow_up env id repo_node_id >>= (λ _. pure stamped)))

-- What the status arm makes of the option that was read back.
unfoldable pub read_back : Text → Option Text → ApplyDisposition
read_back option_id none =
    retry (codes "backend failure: set_project_status read back no applied option")
read_back option_id (some applied) =
    if applied == option_id then stamped else conflicting project_status_mismatch

unfoldable pub apply_set_status : Env → Text → Text → Text → Text → Act ApplyDisposition
unfolding read_back
apply_set_status env project_node_id item_node_id field_id option_id =
    ask (Call.set_single_select_option project_node_id item_node_id field_id (some option_id))
      (env.remote.set_single_select_option project_node_id item_node_id field_id (some option_id))
      (λ applied. pure (read_back option_id applied))

-- `clear_issue_type_pending(…).await?`, for what the statement fails with, if it fails.
unfoldable pub clear_pending : Option Text → TaskId → Option IssueType → Act ApplyDisposition
unfolding clear_issue_type_pending
clear_pending (some message) id expected w = fail message w
clear_pending none id expected w =
    pure stamped (record w { tasks = (clear_issue_type_pending id expected w.tasks).0 })

-- The pending intent is cleared, if the entry recorded the type that it carries.
unfoldable pub clear_recorded : Env → TaskId → Option Text → Bool → Act ApplyDisposition
unfolding clear_pending from
clear_recorded env id name false = pure stamped
clear_recorded env id name true =
    clear_pending (env.not_cleared id) id (and_then name (λ n. some (from n)))

unfoldable pub apply_field :
    Env → Text → Text → Text → Option Text → Act ApplyDisposition → Act ApplyDisposition
apply_field env project_node_id item_node_id field_id option_id k =
    ask (Call.set_single_select_option project_node_id item_node_id field_id option_id)
      (env.remote.set_single_select_option project_node_id item_node_id field_id option_id) (λ _. k)

unfoldable pub apply_set_issue_type :
    Env → TaskId → Text → Option Text → Option Text → Bool → Act ApplyDisposition
unfolding clear_recorded
apply_set_issue_type env id node type_id name recorded =
    ask (Call.set_issue_type node type_id) (env.remote.set_issue_type node type_id)
      (λ _. clear_recorded env id name recorded)

-- `stamped_or_retry`
unfoldable pub stamped_or_retry : OutboxMutation → Response (Unit {0}) → Act ApplyDisposition
stamped_or_retry m r = ask (Call.edge m) r (λ _. pure stamped)

-- The `match` of `apply`, for the task of the entry.
unfoldable pub apply_mutation : (ℕ → Text) → Env → TaskId → OutboxMutation → Act ApplyDisposition
unfolding apply_update_remote apply_add_item apply_create_draft apply_update_draft apply_convert
    apply_set_status apply_field clear_recorded apply_set_issue_type stamped_or_retry
apply_mutation to_string env id (update_remote canonical_repo remote_id _ _ _) =
    apply_update_remote env id canonical_repo remote_id
apply_mutation to_string env id (add_item board issue) = apply_add_item env id board issue
apply_mutation to_string env id (create_draft_issue board title body) =
    apply_create_draft env id board title body
apply_mutation to_string env id (update_draft_issue item _ _) = apply_update_draft env id item
apply_mutation to_string env id (convert_draft_to_issue item repo) =
    apply_convert to_string env id item repo
apply_mutation to_string env id (set_project_status board item field option_id) =
    apply_set_status env board item field option_id
apply_mutation to_string env id (set_project_priority board item field option_id) =
    apply_field env board item field (some option_id) (pure stamped)
apply_mutation to_string env id (set_project_type board item field option_id name recorded) =
    apply_field env board item field option_id (clear_recorded env id name recorded)
apply_mutation to_string env id (set_issue_type node type_id name recorded) =
    apply_set_issue_type env id node type_id name recorded
apply_mutation to_string env id (add_sub_issue a b c d) =
    stamped_or_retry (add_sub_issue a b c d) (env.remote.add_sub_issue a b c d)
apply_mutation to_string env id (remove_sub_issue a b c d) =
    stamped_or_retry (remove_sub_issue a b c d) (env.remote.remove_sub_issue a b c d)
apply_mutation to_string env id (add_blocked_by a b c d) =
    stamped_or_retry (add_blocked_by a b c d) (env.remote.add_blocked_by a b c d)
apply_mutation to_string env id (remove_blocked_by a b c d) =
    stamped_or_retry (remove_blocked_by a b c d) (env.remote.remove_blocked_by a b c d)

unfoldable pub apply : (ℕ → Text) → Env → OutboxEntry → Act ApplyDisposition
unfolding apply_mutation
apply to_string env entry = apply_mutation to_string env entry.task_id entry.mutation
