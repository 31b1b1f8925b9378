-- ===== src/Drainer/Effects.antt =====
-- The stores and the remote that `apply` of crates/application-sync/src/drainer.rs works on. The
-- providers of the remote are given by what they answer; each question is recorded.
use repo_link.Prelude.{ℕ, Option, none, some, List, [], ◌∷◌, ◌++◌, ◌==◌, nat_eq, list_eq, find}
use repo_link.Prelude.Text.{Text}
use repo_link.Core.{TaskId, WorkspaceId, OutboxEntryId, Timestamp}
use repo_link.Task.Snapshot.Source.{SnapshotSource}
use repo_link.Task.State.{Task}
use repo_link.Workspace.{Workspace}
use repo_link.Project.Board.{Project}
use repo_link.Project.Board.FieldIds.{OrgIssueTypeRegistry}
use repo_link.Sync.Outbox.{OutboxMutation, new}
use repo_link.OutboxRepo.{Table, enqueue}
use repo_link.TaskRepo.{TaskStore, get, save}
use repo_link.Outbound.{RemoteTaskUpdate, RemoteTaskSnapshot}
use repo_link.Drainer.{ApplyDisposition, retry}

-- `PortResult` of a provider; a refusal is the error's message.
pub data Response {ℓ} (A : Type ℓ) : Type ℓ where
  answered : A → Response A
  refused : (message : Text) → Response A

-- `RemoteTaskProvider` and `RemoteProjectProvider`, as far as the drainer calls them.
pub record Remote : Type 0 where
  pub update_remote : RemoteTaskUpdate → Response RemoteTaskSnapshot
  pub add_item : Text → Text → Response Text
  pub create_draft_issue : Text → Text → Text → Response Text
  pub update_draft_issue : Text → Text → Text → Response (Unit {0})
  pub convert_draft_to_issue : Text → Text → Response (Text × ℕ)
  pub set_single_select_option : Text → Text → Text → Option Text → Response (Option Text)
  pub set_issue_type : Text → Option Text → Response (Unit {0})
  pub add_sub_issue : Text → Text → Text → Text → Response (Unit {0})
  pub remove_sub_issue : Text → Text → Text → Text → Response (Unit {0})
  pub add_blocked_by : Text → Text → Text → Text → Response (Unit {0})
  pub remove_blocked_by : Text → Text → Text → Text → Response (Unit {0})

-- A question that was put to the remote.
pub data Call : Type 0 where
  update_remote : RemoteTaskUpdate → Call
  add_item : (project_node_id issue_node_id : Text) → Call
  create_draft_issue : (project_node_id title body : Text) → Call
  update_draft_issue : (item_node_id title body : Text) → Call
  convert_draft_to_issue : (item_node_id repo_node_id : Text) → Call
  set_single_select_option :
      (project_node_id item_node_id field_id : Text) (option_id : Option Text) → Call
  set_issue_type : (issue_node_id : Text) (issue_type_id : Option Text) → Call
  edge : OutboxMutation → Call

-- What a call of `apply` reads and does not write: the boards, the registries, the remote, its
-- readings of the clock, the identifiers and instants of the entries that it makes, in order, and
-- the messages of the errors that its own stores raise; `not_cleared` is that of the statement that
-- clears a pending projection, where it fails.
pub record Env : Type 0 where
  pub remote : Remote
  pub workspaces : List Workspace
  pub projects : List Project
  pub registries : List OrgIssueTypeRegistry
  pub now : Timestamp
  pub saved_at : Timestamp
  pub fresh : ℕ → OutboxEntryId × Timestamp
  pub no_task : TaskId → Text
  pub no_workspace : WorkspaceId → Text
  pub no_project : Text → Text
  pub not_saved : TaskId → Text
  pub not_confirmed : TaskId → Text
  pub not_cleared : TaskId → Option Text

pub record World : Type 0 where
  pub outbox : Table
  pub tasks : TaskStore
  pub calls : List Call

pub data Outcome {ℓ} (A : Type ℓ) : Type ℓ where
  done : A → Outcome A
  failed : (message : Text) → Outcome A

-- A step that may fail; what it wrote before it failed stays written.
abbrev pub Act {ℓ} : Type ℓ → Type ℓ
Act A = World → World × Outcome A

abbrev pub pure {ℓ} : {A : Type ℓ} → A → Act A
pure a w = (w, done a)

abbrev pub fail {ℓ} : {A : Type ℓ} → Text → Act A
fail message w = (w, failed message)

-- What follows an outcome.
abbrev pub proceed {ℓ κ} :
    {A : Type ℓ} {B : Type κ} → World × Outcome A → (A → Act B) → World × Outcome B
proceed (w, done a) k = k a w
proceed (w, failed message) k = (w, failed message)

infixl 4 ◌>>=◌
unfoldable pub ◌>>=◌ {ℓ κ} : {A : Type ℓ} {B : Type κ} → Act A → (A → Act B) → Act B
◌>>=◌ m k w = proceed (m w) k

abbrev pub ask {ℓ} :
    {A : Type ℓ} → Call → Response A → (A → Act ApplyDisposition) → Act ApplyDisposition
ask call (answered a) k w = k a (record w { calls = w.calls ++ call ∷ [] })
ask call (refused message) k w = (record w { calls = w.calls ++ call ∷ [] }, done (retry message))

-- An option that must be there.
abbrev pub need {ℓ} : {A : Type ℓ} → Text → Option A → Act A
need message none = fail message
need message (some a) = pure a

unfoldable pub get_task : Env → TaskId → Act Task
unfolding get
get_task env id w = need (env.no_task id) (get id w.tasks) w

abbrev pub saving : Text → Option TaskStore → Act (Unit {0})
saving message none w = (w, failed message)
saving message (some s) w = (record w { tasks = s }, done tt)

unfoldable pub save_task : Env → SnapshotSource → Task → Act (Unit {0})
unfolding save
save_task env source t w = saving (env.not_saved t.id) (save env.saved_at source t w.tasks) w

-- `outbox.enqueue(&OutboxEntry::new(task_id, mutation))`, the entry with index `k` of the call.
unfoldable pub enqueue_new : Env → ℕ → TaskId → OutboxMutation → Act (Unit {0})
unfolding enqueue new
enqueue_new env k task_id mutation w =
    let entry = new (env.fresh k).0 (env.fresh k).1 task_id mutation in
    (record w { outbox = enqueue entry w.outbox }, done tt)

unfoldable pub find_workspace : Env → WorkspaceId → Option Workspace
find_workspace env id = find (λ w. w.id == id) env.workspaces

unfoldable pub find_project : Env → Text → Option Project
find_project env id = find (λ p. p.id == id) env.projects
