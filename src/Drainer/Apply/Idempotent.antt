-- ===== src/Drainer/Apply/Idempotent.antt =====
-- A replay of an entry that was applied mints nothing twice: crates/application-sync/src/drainer.rs.
use repo_link.Prelude.{
  ℕ, Option, none, some, ◌≡◌, refl, sym, subst, arith, nat_eq, list_eq, option_eq,
}
use repo_link.Prelude.Text.{Text, is_empty}
use repo_link.Core.{TaskId}
use repo_link.Task.State.{Task}
use repo_link.Sync.Policy.{target_remapped}
use repo_link.Sync.Outbox.{OutboxEntry, create_draft_issue, convert_draft_to_issue}
use repo_link.TaskRepo.{TaskStore, get}
use repo_link.Outbound.Enqueue.{node_of}
use repo_link.Drainer.{ApplyDisposition, stamped, conflicting}
use repo_link.Drainer.Effects.{Call, Env, World, Act, pure, ◌>>=◌, get_task}
use repo_link.Drainer.Apply.{write_back_project_item, enqueue_status_follow_up}
use repo_link.Drainer.Apply.Arms.{
  draft_minted, converted, draft_item, apply_create_draft, enqueue_issue_type_follow_up,
  convert_first, is_junk, write_back_converted_issue, apply_convert, apply, apply_mutation,
}
use repo_link.Drainer.Apply.Frames.{
  Keeps, bind-Keeps, pure-Keeps, enqueue_status_follow_up-Keeps, enqueue_issue_type_follow_up-Keeps,
}
use repo_link.Drainer.Apply.Calls.{draft_rest-IsQuiet, convert_rest-IsQuiet}
use repo_link.Drainer.Apply.Replay.{
  Runs, bind_done, get_task_done, ask_stamped, if_stamped, Runs-tasks, HasItem, HasIssue,
  write_back-HasItem, converted-HasIssue,
}

abbrev pub tasks_of : World → TaskStore
tasks_of w = w.tasks

pub draft_rest-tasks :
    (env : Env) (id : TaskId) (board item_id : Text)
    → Keeps tasks_of (enqueue_status_follow_up env id board item_id >>= (λ _. pure stamped))
draft_rest-tasks env id board item_id =
    bind-Keeps _ (enqueue_status_follow_up-Keeps tasks_of (λ w rows. refl) env id board item_id)
      (λ u. pure-Keeps _ stamped)

convert_rest-tasks :
    (env : Env) (id : TaskId) (repo : Text)
    → Keeps tasks_of (enqueue_issue_type_follow_up env id repo >>= (λ _. pure stamped))
convert_rest-tasks env id repo =
    bind-Keeps _ (enqueue_issue_type_follow_up-Keeps tasks_of (λ w rows. refl) env id repo)
      (λ u. pure-Keeps _ stamped)

not_stamped : ¬ (conflicting target_remapped ≡ stamped)
not_stamped e = ground arith

minted-HasItem :
    (env : Env) (id : TaskId) (minted : Text) (k : Text → Act ApplyDisposition) (w w' : World)
    → Keeps tasks_of (k minted)
    → Runs (draft_minted env id k minted) w w' stamped
    → HasItem id w'.tasks
unfolding draft_minted
minted-HasItem env id minted k w w' q h =
    let write = write_back_project_item env id minted in
    let run =
      if_stamped (is_empty minted) (conflicting target_remapped) (write >>= (λ _. k minted)) w w'
        not_stamped h in
    let (y, u, wrote, rest) = bind_done write (λ _. k minted) w w' stamped run in
    subst (HasItem id) (sym (Runs-tasks q rest)) (write_back-HasItem env id minted w y u wrote)

draft_item-HasItem :
    (env : Env) (id : TaskId) (board title body : Text) (o : Option Text) (t : Task)
    (k : Text → Act ApplyDisposition) (w w' : World)
    → ((item : Text) → Keeps tasks_of (k item))
    → get id w.tasks ≡ some t
    → t.project_item_id ≡ o
    → Runs (draft_item env id board title body o k) w w' stamped
    → HasItem id w'.tasks
unfolding draft_item
draft_item-HasItem env id board title body (some existing) t k w w' q read i h =
    subst (HasItem id) (sym (Runs-tasks (q existing) h)) (t, existing, read, i)
draft_item-HasItem env id board title body none t k w w' q read i h =
    let (x, minted, same, run) =
      ask_stamped (Call.create_draft_issue board title body)
        (env.remote.create_draft_issue board title body) (draft_minted env id k) w w' h in
    minted-HasItem env id minted k x w' (q minted) run

-- A draft that was created leaves the task with an item.
draft_leaves_item :
    (env : Env) (id : TaskId) (board title body : Text) (w w' : World)
    → Runs (apply_create_draft env id board title body) w w' stamped
    → HasItem id w'.tasks
unfolding apply_create_draft
draft_leaves_item env id board title body w w' h =
    let (v, t, got, rest) = bind_done (get_task env id) _ w w' stamped h in
    let (same, read) = get_task_done env id w v t got in
    draft_item-HasItem env id board title body t.project_item_id t _ v w'
      (draft_rest-tasks env id board) (subst (λ (x : World). get id x.tasks ≡ some t) same read)
      refl rest

-- And then another application asks the remote for nothing.
draft_with_item :
    (env : Env) (id : TaskId) (board title body : Text) (w : World)
    → HasItem id w.tasks
    → (apply_create_draft env id board title body w).0.calls ≡ w.calls
unfolding apply_create_draft ◌>>=◌ get_task draft_item
draft_with_item env id board title body w (t, item, read, i) =
    rw (read, i) ((draft_rest-IsQuiet env id board item).same w)

issued-HasIssue :
    (to_string : ℕ → Text) (env : Env) (id : TaskId) (issue : Text × ℕ) (k : Act ApplyDisposition)
    (w w' : World)
    → Keeps tasks_of k
    → Runs (converted to_string env id k issue) w w' stamped
    → HasIssue id w'.tasks
unfolding converted
issued-HasIssue to_string env id issue k w w' q h =
    let write = write_back_converted_issue to_string env id issue.0 issue.1 in
    let run =
      if_stamped (is_junk to_string issue.0 issue.1) (conflicting target_remapped)
        (write >>= (λ _. k)) w w' not_stamped h in
    let (y, u, wrote, rest) = bind_done write (λ _. k) w w' stamped run in
    subst (HasIssue id) (sym (Runs-tasks q rest))
      (converted-HasIssue to_string env id issue.0 issue.1 w y u wrote)

convert_first-HasIssue :
    (to_string : ℕ → Text) (env : Env) (id : TaskId) (item repo : Text) (o : Option Text) (t : Task)
    (k : Act ApplyDisposition) (w w' : World)
    → Keeps tasks_of k
    → get id w.tasks ≡ some t
    → node_of t ≡ o
    → Runs (convert_first to_string env id item repo o k) w w' stamped
    → HasIssue id w'.tasks
unfolding convert_first
convert_first-HasIssue to_string env id item repo (some node) t k w w' q read i h =
    subst (HasIssue id) (sym (Runs-tasks q h)) (t, node, read, i)
convert_first-HasIssue to_string env id item repo none t k w w' q read i h =
    let (x, issue, same, run) =
      ask_stamped (Call.convert_draft_to_issue item repo)
        (env.remote.convert_draft_to_issue item repo) (converted to_string env id k) w w' h in
    issued-HasIssue to_string env id issue k x w' q run

convert_leaves_issue :
    (to_string : ℕ → Text) (env : Env) (id : TaskId) (item repo : Text) (w w' : World)
    → Runs (apply_convert to_string env id item repo) w w' stamped
    → HasIssue id w'.tasks
unfolding apply_convert
convert_leaves_issue to_string env id item repo w w' h =
    let (v, t, got, rest) = bind_done (get_task env id) _ w w' stamped h in
    let (same, read) = get_task_done env id w v t got in
    convert_first-HasIssue to_string env id item repo (node_of t) t _ v w'
      (convert_rest-tasks env id repo) (subst (λ (x : World). get id x.tasks ≡ some t) same read)
      refl rest

convert_with_issue :
    (to_string : ℕ → Text) (env : Env) (id : TaskId) (item repo : Text) (w : World)
    → HasIssue id w.tasks
    → (apply_convert to_string env id item repo w).0.calls ≡ w.calls
unfolding apply_convert ◌>>=◌ get_task convert_first
convert_with_issue to_string env id item repo w (t, node, read, i) =
    rw (read, i) ((convert_rest-IsQuiet env id repo).same w)

-- After a `CreateDraftIssue` that was stamped, a replay of it over the tasks that it left, with
-- whatever boards and remote, asks the remote for nothing: no second draft is minted.
pub draft_replayed :
    (to_string : ℕ → Text) (env env' : Env) (entry : OutboxEntry) (board title body : Text)
    (w w' v : World)
    → entry.mutation ≡ create_draft_issue board title body
    → Runs (apply to_string env entry) w w' stamped
    → v.tasks ≡ w'.tasks
    → (apply to_string env' entry v).0.calls ≡ v.calls
unfolding apply apply_mutation
draft_replayed to_string env env' entry board title body w w' v e h s =
    let item = draft_leaves_item env entry.task_id board title body w w' (rw (e) at h) in
    rw (e) (
      draft_with_item env' entry.task_id board title body v
        (subst (HasItem entry.task_id) (sym s) item))

-- After a `ConvertDraftToIssue` that was stamped, a replay of it over the tasks that it left, with
-- whatever boards and remote, asks the remote for nothing: no second convert is asked for.
pub convert_replayed :
    (to_string : ℕ → Text) (env env' : Env) (entry : OutboxEntry) (item repo : Text)
    (w w' v : World)
    → entry.mutation ≡ convert_draft_to_issue item repo
    → Runs (apply to_string env entry) w w' stamped
    → v.tasks ≡ w'.tasks
    → (apply to_string env' entry v).0.calls ≡ v.calls
unfolding apply apply_mutation
convert_replayed to_string env env' entry item repo w w' v e h s =
    let issue = convert_leaves_issue to_string env entry.task_id item repo w w' (rw (e) at h) in
    rw (e) (
      convert_with_issue to_string env' entry.task_id item repo v
        (subst (HasIssue entry.task_id) (sym s) issue))
