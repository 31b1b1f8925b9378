-- ===== src/Drainer/Apply/Calls.antt =====
-- Which questions a call of `apply` puts to the remote: crates/application-sync/src/drainer.rs.
use repo_link.Prelude.{
  ℕ, Bool, true, false, Option, none, some, [], ◌∷◌, ◌++◌, ◌≡◌, refl, ◌∙◌, ap, ◌⊎◌, inl, inr,
  if◌then◌else◌, ◌==◌, nat_eq, list_eq, option_eq,
}
use repo_link.Prelude.Text.{Text, is_empty}
use repo_link.Core.{TaskId, Result, ok, err}
use repo_link.Task.IssueType.{IssueType}
use repo_link.Task.Mirror.{MirrorPatch}
use repo_link.Task.Snapshot.Source.{SnapshotSource, push, local_edit}
use repo_link.Task.State.{Task}
use repo_link.Task.Sync.{can_confirm, confirm_synced_fields}
use repo_link.Sync.Policy.{assignee_mismatch, target_remapped}
use repo_link.Sync.Outbox.{
  OutboxEntry, OutboxMutation, update_remote, add_item, create_draft_issue, update_draft_issue,
  convert_draft_to_issue, set_project_status, set_project_priority, set_project_type,
  set_issue_type, add_sub_issue, remove_sub_issue, add_blocked_by, remove_blocked_by,
}
use repo_link.TaskRepo.{TaskStore, save}
use repo_link.Outbound.{RemoteTaskUpdate}
use repo_link.Outbound.Enqueue.{node_of}
use repo_link.Drainer.{ApplyDisposition, stamped, conflicting}
use repo_link.Drainer.Effects.{
  Response, answered, refused, Call, Env, World, Outcome, done, failed, Act, pure, proceed, ◌>>=◌,
  ask, saving, save_task,
}
use repo_link.Drainer.Apply.{
  are_confirmed, confirm_outcome, confirm_and_save, push_patch, apply_update_remote,
  write_back_project_item, enqueue_status_follow_up, apply_add_item,
}
use repo_link.Drainer.Apply.Arms.{
  draft_minted, converted, draft_item, apply_create_draft, apply_update_draft,
  enqueue_issue_type_follow_up, convert_first, is_junk, write_back_converted_issue, apply_convert,
  read_back, apply_set_status, clear_pending, clear_recorded, apply_field, apply_set_issue_type,
  stamped_or_retry, apply, apply_mutation, provider_of,
}
use repo_link.Drainer.Apply.Frames.{
  Keeps, bind-Keeps, pure-Keeps, fail-Keeps, if-Keeps, get_task-Keeps,
  workspace_still_targets_project-Keeps, enqueue_status_follow_up-Keeps,
  enqueue_issue_type_follow_up-Keeps,
}

abbrev pub IsQuiet {ℓ} : {A : Type ℓ} → Act A → Type 0
IsQuiet m = Keeps (λ w. w.calls) m

-- At most one question is asked.
pub record AsksOnce {ℓ} {A : Type ℓ} (m : Act A) : Type 0 where
  pub asked :
      (w : World) → ((m w).0.calls ≡ w.calls) ⊎ ((c : Call) × ((m w).0.calls ≡ w.calls ++ c ∷ []))

quiet-AsksOnce {ℓ} : {A : Type ℓ} {m : Act A} → IsQuiet m → AsksOnce m
quiet-AsksOnce q = record { asked = λ w. inl (q.same w) }

proceed-AsksOnce {ℓ κ} :
    {A : Type ℓ} {B : Type κ} (r : World × Outcome A) (k : A → Act B) (w : World)
    → r.0.calls ≡ w.calls
    → ((a : A) → AsksOnce (k a))
    → ((proceed r k).0.calls ≡ w.calls) ⊎ ((c : Call) × ((proceed r k).0.calls ≡ w.calls ++ c ∷ []))
proceed-AsksOnce (u, done a) k w e h = elim ((h a).asked u) [
  | inl q ↦ inl (q ∙ e)
  | inr (c, q) ↦ inr (c, q ∙ ap (λ cs. cs ++ c ∷ []) e)
]
proceed-AsksOnce (u, failed message) k w e h = inl e

bind-AsksOnce {ℓ κ} :
    {A : Type ℓ} {B : Type κ} {m : Act A} {k : A → Act B}
    → IsQuiet m
    → ((a : A) → AsksOnce (k a))
    → AsksOnce (m >>= k)
unfolding ◌>>=◌
bind-AsksOnce {m = m} {k = k} q h = record { asked = λ w. proceed-AsksOnce (m w) k w (q.same w) h }

ask-AsksOnce {ℓ} :
    {A : Type ℓ} (call : Call) (r : Response A) {k : A → Act ApplyDisposition}
    → ((a : A) → IsQuiet (k a))
    → AsksOnce (ask call r k)
ask-AsksOnce call (answered a) h = record { asked = λ w. inr (call, (h a).same _) }
ask-AsksOnce call (refused message) h = record { asked = λ w. inr (call, refl) }

if-AsksOnce {ℓ} :
    {A : Type ℓ} (b : Bool) {m n : Act A} → AsksOnce m → AsksOnce n → AsksOnce (if b then m else n)
if-AsksOnce true g h = g
if-AsksOnce false g h = h

saving-IsQuiet : (message : Text) (o : Option TaskStore) → IsQuiet (saving message o)
saving-IsQuiet message none = record { same = λ w. refl }
saving-IsQuiet message (some s) = record { same = λ w. refl }

save_task-IsQuiet :
    (env : Env) (source : SnapshotSource) (t : Task) → IsQuiet (save_task env source t)
unfolding save_task
save_task-IsQuiet env source t = record {
  same = λ w. (saving-IsQuiet (env.not_saved t.id) (save env.saved_at source t w.tasks)).same w;
}

write_back_project_item-IsQuiet :
    (env : Env) (id : TaskId) (item_id : Text) → IsQuiet (write_back_project_item env id item_id)
unfolding write_back_project_item
write_back_project_item-IsQuiet env id item_id = bind-Keeps _ (get_task-Keeps _ env id) (λ t.
    if-Keeps _ (t.project_item_id == some item_id) (pure-Keeps _ tt)
      (save_task-IsQuiet env local_edit (record t { project_item_id = some item_id })))

status_follow_up-IsQuiet :
    (env : Env) (id : TaskId) (board item_id : Text)
    → IsQuiet (enqueue_status_follow_up env id board item_id)
status_follow_up-IsQuiet = enqueue_status_follow_up-Keeps (λ w. w.calls) (λ w rows. refl)

type_follow_up-IsQuiet :
    (env : Env) (id : TaskId) (canonical : Text)
    → IsQuiet (enqueue_issue_type_follow_up env id canonical)
type_follow_up-IsQuiet = enqueue_issue_type_follow_up-Keeps (λ w. w.calls) (λ w rows. refl)

confirm_outcome-IsQuiet :
    (env : Env) (t : Task) (u : Task) (r : Result (Unit {0})) → IsQuiet (confirm_outcome env t u r)
unfolding confirm_outcome
confirm_outcome-IsQuiet env t u (err e) = fail-Keeps _ (env.not_confirmed t.id)
confirm_outcome-IsQuiet env t u (ok v) =
    bind-Keeps _ (save_task-IsQuiet env push u) (λ v. pure-Keeps _ stamped)

confirm_and_save-IsQuiet :
    (env : Env) (t : Task) (p : MirrorPatch) → IsQuiet (confirm_and_save env t p)
unfolding confirm_and_save
confirm_and_save-IsQuiet env t p =
    confirm_outcome-IsQuiet env t (confirm_synced_fields env.now push p t).0
      (confirm_synced_fields env.now push p t).1

push_patch-AsksOnce :
    (env : Env) (t : Task) (p : MirrorPatch) (u : Option RemoteTaskUpdate)
    → AsksOnce (push_patch env t p u)
unfolding push_patch
push_patch-AsksOnce env t p none = quiet-AsksOnce (confirm_and_save-IsQuiet env t p)
push_patch-AsksOnce env t p (some u) = ask-AsksOnce _ _ (λ snap.
    if-Keeps _ (are_confirmed u.assignees snap.assignees) (confirm_and_save-IsQuiet env t p)
      (pure-Keeps _ (conflicting assignee_mismatch)))

apply_update_remote-AsksOnce :
    (env : Env) (id : TaskId) (canonical number : Text)
    → AsksOnce (apply_update_remote env id canonical number)
unfolding apply_update_remote
apply_update_remote-AsksOnce env id canonical number = bind-AsksOnce (get_task-Keeps _ env id) (λ t.
    if-AsksOnce (can_confirm t.sync) (push_patch-AsksOnce env t _ _)
      (quiet-AsksOnce (pure-Keeps _ stamped)))

apply_add_item-AsksOnce :
    (env : Env) (id : TaskId) (board issue : Text) → AsksOnce (apply_add_item env id board issue)
unfolding apply_add_item
apply_add_item-AsksOnce env id board issue = ask-AsksOnce _ _ (λ item_id.
    if-Keeps _ (is_empty item_id) (pure-Keeps _ (conflicting target_remapped)) (
      bind-Keeps _ (workspace_still_targets_project-Keeps _ env id board) (λ still.
        if-Keeps _ still
          (bind-Keeps _ (write_back_project_item-IsQuiet env id item_id) (λ u.
            bind-Keeps _ (status_follow_up-IsQuiet env id board item_id)
              (λ v. pure-Keeps _ stamped)))
          (pure-Keeps _ stamped))))

pub draft_rest-IsQuiet :
    (env : Env) (id : TaskId) (board item_id : Text)
    → IsQuiet (enqueue_status_follow_up env id board item_id >>= (λ _. pure stamped))
draft_rest-IsQuiet env id board item_id =
    bind-Keeps _ (status_follow_up-IsQuiet env id board item_id) (λ v. pure-Keeps _ stamped)

draft_item-AsksOnce :
    (env : Env) (id : TaskId) (board title body : Text) (o : Option Text)
    {k : Text → Act ApplyDisposition}
    → ((item_id : Text) → IsQuiet (k item_id))
    → AsksOnce (draft_item env id board title body o k)
unfolding draft_item draft_minted
draft_item-AsksOnce env id board title body (some existing) q = quiet-AsksOnce (q existing)
draft_item-AsksOnce env id board title body none q = ask-AsksOnce _ _ (λ minted.
    if-Keeps _ (is_empty minted) (pure-Keeps _ (conflicting target_remapped))
      (bind-Keeps _ (write_back_project_item-IsQuiet env id minted) (λ u. q minted)))

converted-IsQuiet :
    (to_string : ℕ → Text) (env : Env) (id : TaskId) (node : Text) (n : ℕ)
    → IsQuiet (write_back_converted_issue to_string env id node n)
unfolding write_back_converted_issue
converted-IsQuiet to_string env id node n = bind-Keeps _ (get_task-Keeps _ env id) (λ t.
    save_task-IsQuiet env local_edit (record t {
      remote = some (record {
        provider = provider_of t.remote;
        remote_id = to_string n;
        node_id = some node;
      });
    }))

-- The convert, if it is to be asked for at all.
convert_first-AsksOnce :
    (to_string : ℕ → Text) (env : Env) (id : TaskId) (item repo : Text) (o : Option Text)
    {k : Act ApplyDisposition}
    → IsQuiet k
    → AsksOnce (convert_first to_string env id item repo o k)
unfolding convert_first converted
convert_first-AsksOnce to_string env id item repo (some node) q = quiet-AsksOnce q
convert_first-AsksOnce to_string env id item repo none q =
    ask-AsksOnce (Call.convert_draft_to_issue item repo)
      (env.remote.convert_draft_to_issue item repo)
      (λ issue.
        if-Keeps _ (is_junk to_string issue.0 issue.1) (pure-Keeps _ (conflicting target_remapped))
          (bind-Keeps _ (converted-IsQuiet to_string env id issue.0 issue.1) (λ u. q)))

pub convert_rest-IsQuiet :
    (env : Env) (id : TaskId) (repo : Text)
    → IsQuiet (enqueue_issue_type_follow_up env id repo >>= (λ _. pure stamped))
convert_rest-IsQuiet env id repo =
    bind-Keeps _ (type_follow_up-IsQuiet env id repo) (λ u. pure-Keeps _ stamped)

clear_pending-IsQuiet :
    (failure : Option Text) (id : TaskId) (expected : Option IssueType)
    → IsQuiet (clear_pending failure id expected)
unfolding clear_pending
clear_pending-IsQuiet none id expected = record { same = λ w. refl }
clear_pending-IsQuiet (some message) id expected = record { same = λ w. refl }

clear_recorded-IsQuiet :
    (env : Env) (id : TaskId) (name : Option Text) (recorded : Bool)
    → IsQuiet (clear_recorded env id name recorded)
unfolding clear_recorded
clear_recorded-IsQuiet env id name true = clear_pending-IsQuiet (env.not_cleared id) id _
clear_recorded-IsQuiet env id name false = record { same = λ w. refl }

mutation-AsksOnce :
    (to_string : ℕ → Text) (env : Env) (id : TaskId) (m : OutboxMutation)
    → AsksOnce (apply_mutation to_string env id m)
unfolding apply_mutation apply_create_draft apply_update_draft apply_convert apply_set_status
    apply_field apply_set_issue_type stamped_or_retry
mutation-AsksOnce to_string env id (update_remote canonical number _ _ _) =
    apply_update_remote-AsksOnce env id canonical number
mutation-AsksOnce to_string env id (add_item board issue) =
    apply_add_item-AsksOnce env id board issue
mutation-AsksOnce to_string env id (create_draft_issue board title body) =
    bind-AsksOnce (get_task-Keeps _ env id) (λ t.
      draft_item-AsksOnce env id board title body t.project_item_id
        (draft_rest-IsQuiet env id board))
mutation-AsksOnce to_string env id (update_draft_issue item _ _) =
    bind-AsksOnce (get_task-Keeps _ env id) (λ t. ask-AsksOnce _ _ (λ u. pure-Keeps _ stamped))
mutation-AsksOnce to_string env id (convert_draft_to_issue item repo) =
    bind-AsksOnce (get_task-Keeps _ env id) (λ t.
      convert_first-AsksOnce to_string env id item repo (node_of t)
        (convert_rest-IsQuiet env id repo))
mutation-AsksOnce to_string env id (set_project_status board item field option_id) =
    ask-AsksOnce _ _ (λ got. pure-Keeps _ (read_back option_id got))
mutation-AsksOnce to_string env id (set_project_priority board item field option_id) =
    ask-AsksOnce _ _ (λ u. pure-Keeps _ stamped)
mutation-AsksOnce to_string env id (set_project_type board item field option_id name recorded) =
    ask-AsksOnce _ _ (λ u. clear_recorded-IsQuiet env id name recorded)
mutation-AsksOnce to_string env id (set_issue_type node type_id name recorded) =
    ask-AsksOnce _ _ (λ u. clear_recorded-IsQuiet env id name recorded)
mutation-AsksOnce to_string env id (add_sub_issue a b c d) =
    ask-AsksOnce _ _ (λ u. pure-Keeps _ stamped)
mutation-AsksOnce to_string env id (remove_sub_issue a b c d) =
    ask-AsksOnce _ _ (λ u. pure-Keeps _ stamped)
mutation-AsksOnce to_string env id (add_blocked_by a b c d) =
    ask-AsksOnce _ _ (λ u. pure-Keeps _ stamped)
mutation-AsksOnce to_string env id (remove_blocked_by a b c d) =
    ask-AsksOnce _ _ (λ u. pure-Keeps _ stamped)

-- Whatever the remote answers, one application of an entry puts at most one question to it.
pub apply-AsksOnce :
    (to_string : ℕ → Text) (env : Env) (entry : OutboxEntry) → AsksOnce (apply to_string env entry)
unfolding apply
apply-AsksOnce to_string env entry = mutation-AsksOnce to_string env entry.task_id entry.mutation
