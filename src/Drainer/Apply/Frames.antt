-- ===== src/Drainer/Apply/Frames.antt =====
-- What the steps of `apply` leave alone: crates/application-sync/src/drainer.rs.
use repo_link.Prelude.{
  suc, ◌==◌, list_eq, nat_eq, ℕ, Bool, true, false, not, Option, none, some, ◌≡◌, refl, ◌∙◌,
  if◌then◌else◌, is_none,
}
use repo_link.Prelude.Text.{Text}
use repo_link.Core.{TaskId}
use repo_link.Task.State.{Task}
use repo_link.Project.Board.{Project}
use repo_link.Sync.Outbox.{OutboxMutation}
use repo_link.OutboxRepo.{Table}
use repo_link.TaskRepo.{get}
use repo_link.Drainer.Effects.{
  Env, World, Outcome, done, failed, Act, pure, fail, proceed, ◌>>=◌, need, get_task, enqueue_new,
  find_workspace, find_project,
}
use repo_link.Outbound.Enqueue.{set_project_priority_mutation, set_project_type_mutation}
use repo_link.Drainer.Apply.{
  board_of, targets, current_project, workspace_still_targets_project, enqueue_optional,
  status_follow_up, follow_up, enqueue_status_follow_up,
}
use repo_link.Drainer.Apply.Arms.{enqueue_type, enqueue_issue_type_follow_up}

-- A step keeps a part of the world, whatever its outcome.
pub record Keeps {ℓ κ} {X : Type ℓ} {A : Type κ} (f : World → X) (m : Act A) : Type ℓ where
  pub same : (w : World) → f (m w).0 ≡ f w

module _ {ℓ} {X : Type ℓ} (f : World → X) where
  proceed-Keeps {κ μ} :
      {A : Type κ} {B : Type μ} (r : World × Outcome A) (k : A → Act B)
      → ((a : A) → Keeps f (k a))
      → f (proceed r k).0 ≡ f r.0
  proceed-Keeps (w, done a) k h = (h a).same w
  proceed-Keeps (w, failed message) k h = refl

  pub bind-Keeps {κ μ} :
      {A : Type κ} {B : Type μ} {m : Act A} {k : A → Act B}
      → Keeps f m
      → ((a : A) → Keeps f (k a))
      → Keeps f (m >>= k)
  unfolding ◌>>=◌
  bind-Keeps {m = m} {k = k} g h = record { same = λ w. proceed-Keeps (m w) k h ∙ g.same w }

  pub pure-Keeps {κ} : {A : Type κ} (a : A) → Keeps f (pure a)
  pure-Keeps a = record { same = λ w. refl }

  pub fail-Keeps {κ} : {A : Type κ} (message : Text) → Keeps f (fail {A = A} message)
  fail-Keeps message = record { same = λ w. refl }

  pub need-Keeps {κ} : {A : Type κ} (message : Text) (o : Option A) → Keeps f (need message o)
  need-Keeps message none = fail-Keeps message
  need-Keeps message (some a) = pure-Keeps a

  pub if-Keeps {κ} :
      {A : Type κ} (b : Bool) {m n : Act A} → Keeps f m → Keeps f n → Keeps f (if b then m else n)
  if-Keeps true g h = g
  if-Keeps false g h = h

  pub get_task-Keeps : (env : Env) (id : TaskId) → Keeps f (get_task env id)
  unfolding get_task
  get_task-Keeps env id = record {
    same = λ w. (need-Keeps (env.no_task id) (get id w.tasks)).same w;
  }

  board-Keeps : (env : Env) (o : Option Text) → Keeps f (board_of env o)
  unfolding board_of
  board-Keeps env none = pure-Keeps none
  board-Keeps env (some id) =
      bind-Keeps (need-Keeps (env.no_project id) (find_project env id)) (λ p. pure-Keeps (some p))

  pub current_project-Keeps : (env : Env) (t : Task) → Keeps f (current_project env t)
  unfolding current_project
  current_project-Keeps env t =
      bind-Keeps (need-Keeps _ (find_workspace env t.workspace_id))
        (λ w. board-Keeps env w.project_id)

  pub workspace_still_targets_project-Keeps :
      (env : Env) (id : TaskId) (project_node_id : Text)
      → Keeps f (workspace_still_targets_project env id project_node_id)
  unfolding workspace_still_targets_project
  workspace_still_targets_project-Keeps env id project_node_id =
      bind-Keeps (get_task-Keeps env id) (λ t.
        bind-Keeps (current_project-Keeps env t) (λ p. pure-Keeps (targets project_node_id p)))

  -- A part of the world that is not the outbox.
  module _ (blind : (w : World) (rows : Table) → f (record w { outbox = rows }) ≡ f w) where
    pub enqueue_new-Keeps :
        (env : Env) (k : ℕ) (id : TaskId) (m : OutboxMutation) → Keeps f (enqueue_new env k id m)
    unfolding enqueue_new
    enqueue_new-Keeps env k id m = record { same = λ w. blind w _ }

    enqueue_optional-Keeps :
        (env : Env) (k : ℕ) (id : TaskId) (m : Option OutboxMutation)
        → Keeps f (enqueue_optional env k id m)
    unfolding enqueue_optional
    enqueue_optional-Keeps env k id none = pure-Keeps k
    enqueue_optional-Keeps env k id (some m) =
        bind-Keeps (enqueue_new-Keeps env k id m) (λ u. pure-Keeps (suc k))

    follow_up-Keeps :
        (env : Env) (id : TaskId) (t : Task) (board item_id : Text) (p : Option Project)
        → Keeps f (follow_up env id t board item_id p)
    unfolding follow_up
    follow_up-Keeps env id t board item_id none = pure-Keeps tt
    follow_up-Keeps env id t board item_id (some p) =
        if-Keeps (not (p.id == board)) (pure-Keeps tt) (
          bind-Keeps (enqueue_optional-Keeps env 0 id (status_follow_up p t item_id)) (λ i.
            bind-Keeps (enqueue_optional-Keeps env i id (set_project_priority_mutation p t)) (λ j.
              bind-Keeps (enqueue_optional-Keeps env j id (set_project_type_mutation p t))
                (λ u. pure-Keeps tt))))

    pub enqueue_status_follow_up-Keeps :
        (env : Env) (id : TaskId) (board item_id : Text)
        → Keeps f (enqueue_status_follow_up env id board item_id)
    unfolding enqueue_status_follow_up
    enqueue_status_follow_up-Keeps env id board item_id = bind-Keeps (get_task-Keeps env id) (λ t.
        bind-Keeps (current_project-Keeps env t) (λ p. follow_up-Keeps env id t board item_id p))

    type_follow_up-Keeps :
        (env : Env) (id : TaskId) (m : Option OutboxMutation) → Keeps f (enqueue_type env id m)
    unfolding enqueue_type
    type_follow_up-Keeps env id none = pure-Keeps tt
    type_follow_up-Keeps env id (some m) = enqueue_new-Keeps env 0 id m

    pub enqueue_issue_type_follow_up-Keeps :
        (env : Env) (id : TaskId) (canonical : Text)
        → Keeps f (enqueue_issue_type_follow_up env id canonical)
    unfolding enqueue_issue_type_follow_up
    enqueue_issue_type_follow_up-Keeps env id canonical =
        bind-Keeps (get_task-Keeps env id)
          (λ t. if-Keeps (is_none t.issue_type) (pure-Keeps tt) (type_follow_up-Keeps env id _))
