-- ===== src/Drainer/Apply/Replay.antt =====
-- What a run of a write-back leaves in the stored task: crates/application-sync/src/drainer.rs.
use repo_link.Prelude.{
  ℕ, Bool, true, false, Option, none, some, ◌≡◌, refl, sym, ◌∙◌, subst, ap, arith, if◌then◌else◌,
  ◌==◌, nat_eq, list_eq, option_eq, find, Bool-cases, inl, inr,
}
use repo_link.Prelude.Text.{Text}
use repo_link.Core.{TaskId}
use repo_link.Task.Snapshot.Source.{local_edit}
use repo_link.Task.State.{Task}
use repo_link.TaskRepo.{TaskStore, get, save, hydrate}
use repo_link.TaskRepo.Saved.{written, get_saved, get-id, baseline_after}
use repo_link.Outbound.Enqueue.{and_then, node_of}
use repo_link.Drainer.{ApplyDisposition, stamped}
use repo_link.Drainer.Effects.{
  Response, answered, refused, Call, Env, World, Outcome, done, failed, Act, pure, proceed, ◌>>=◌,
  ask, need, saving, get_task, save_task,
}
use repo_link.Drainer.Apply.{write_back_project_item}
use repo_link.Drainer.Apply.Arms.{write_back_converted_issue, provider_of}
use repo_link.Drainer.Apply.Frames.{Keeps}

-- A run that succeeds: the world after it and its value.
abbrev pub Runs {ℓ} : {A : Type ℓ} → Act A → World → World → A → Type ℓ
Runs m w w' a = m w ≡ (w', done a)

proceed-done {ℓ κ} :
    {A : Type ℓ} {B : Type κ} (r : World × Outcome A) (k : A → Act B) (w' : World) (b : B)
    → proceed r k ≡ (w', done b)
    → (u : World) × (a : A) × (r ≡ (u, done a)) × Runs (k a) u w' b
proceed-done (u, done a) k w' b h = (u, a, refl, h)
proceed-done (u, failed message) k w' b h = absurd (ground arith)

pub bind_done {ℓ κ} :
    {A : Type ℓ} {B : Type κ} (m : Act A) (k : A → Act B) (w w' : World) (b : B)
    → Runs (m >>= k) w w' b
    → (u : World) × (a : A) × Runs m w u a × Runs (k a) u w' b
unfolding ◌>>=◌
bind_done m k w w' b h = proceed-done (m w) k w' b h

pub need_done {ℓ} :
    {A : Type ℓ} (message : Text) (o : Option A) (w w' : World) (a : A)
    → Runs (need message o) w w' a
    → (w ≡ w') × (o ≡ some a)
need_done message none w w' a h = absurd (ground arith)
need_done message (some b) w w' a h = ground arith

pub get_task_done :
    (env : Env) (id : TaskId) (w w' : World) (t : Task)
    → Runs (get_task env id) w w' t
    → (w ≡ w') × (get id w.tasks ≡ some t)
unfolding get_task
get_task_done env id w w' t h = need_done (env.no_task id) (get id w.tasks) w w' t h

pub saving_done :
    (message : Text) (o : Option TaskStore) (w w' : World) (u : Unit {0})
    → Runs (saving message o) w w' u
    → o ≡ some w'.tasks
saving_done message none w w' u h = absurd (ground arith)
saving_done message (some s) w w' u h = ground arith

pub ask_stamped {ℓ} :
    {A : Type ℓ} (call : Call) (r : Response A) (k : A → Act ApplyDisposition) (w w' : World)
    → Runs (ask call r k) w w' stamped
    → (u : World) × (a : A) × (u.tasks ≡ w.tasks) × Runs (k a) u w' stamped
ask_stamped call (answered a) k w w' h = (_, a, refl, h)
ask_stamped call (refused message) k w w' h = absurd (ground arith)

pub if_stamped :
    (b : Bool) (d : ApplyDisposition) (m : Act ApplyDisposition) (w w' : World)
    → ¬ (d ≡ stamped)
    → Runs (if b then pure d else m) w w' stamped
    → Runs m w w' stamped
if_stamped true d m w w' n h = absurd (ground arith)
if_stamped false d m w w' n h = h

pub pure_done {ℓ} : {A : Type ℓ} (a : A) (w w' : World) (b : A) → Runs (pure a) w w' b → w ≡ w'
pure_done a w w' b h = ap (λ (r : World × Outcome _). r.0) h

-- What a run that keeps the tasks leaves of them.
pub Runs-tasks {ℓ} :
    {A : Type ℓ} {m : Act A} {w w' : World} {a : A}
    → Keeps (λ (v : World). v.tasks) m
    → Runs m w w' a
    → w'.tasks ≡ w.tasks
Runs-tasks k h = sym (ap (λ (r : World × _). r.0.tasks) h) ∙ k.same _

-- The stored task has an item on the board, or an issue.
abbrev pub HasItem : TaskId → TaskStore → Type 0
HasItem id s = (t : Task) × (item : Text) × (get id s ≡ some t) × (t.project_item_id ≡ some item)

abbrev pub HasIssue : TaskId → TaskStore → Type 0
HasIssue id s = (t : Task) × (node : Text) × (get id s ≡ some t) × (node_of t ≡ some node)

-- The stored task has this item on the board.
abbrev pub HoldsItem : TaskId → Text → TaskStore → Type 0
HoldsItem id item s = (t : Task) × (get id s ≡ some t) × (t.project_item_id ≡ some item)

written-item : (t : Task) (o : Option Task) → (written t o).project_item_id ≡ t.project_item_id
unfolding written repo_link.TaskRepo.replaced
written-item t none = refl
written-item t (some r) = refl

written-remote : (t : Task) (o : Option Task) → (written t o).remote ≡ t.remote
unfolding written repo_link.TaskRepo.replaced
written-remote t none = refl
written-remote t (some r) = refl

saved-HoldsItem :
    (env : Env) (t : Task) (item : Text) (w w' : World) (u : Unit {0})
    → t.project_item_id ≡ some item
    → Runs (save_task env local_edit t) w w' u
    → HoldsItem t.id item w'.tasks
unfolding save_task hydrate
saved-HoldsItem env t item w w' u i h =
    let e = saving_done (env.not_saved t.id) _ w w' u h in
    (
      hydrate (written t (find (λ r. r.id == t.id) w.tasks.rows))
          (baseline_after env.saved_at local_edit t w.tasks),
      get_saved env.saved_at local_edit t w.tasks w'.tasks e,
      written-item t (find (λ r. r.id == t.id) w.tasks.rows) ∙ i,
    )

saved-HasIssue :
    (env : Env) (t : Task) (node : Text) (w w' : World) (u : Unit {0})
    → node_of t ≡ some node
    → Runs (save_task env local_edit t) w w' u
    → HasIssue t.id w'.tasks
unfolding save_task hydrate node_of
saved-HasIssue env t node w w' u i h =
    let e = saving_done (env.not_saved t.id) _ w w' u h in
    (
      hydrate (written t (find (λ r. r.id == t.id) w.tasks.rows))
          (baseline_after env.saved_at local_edit t w.tasks),
      node,
      get_saved env.saved_at local_edit t w.tasks w'.tasks e,
      ap (λ o. and_then o (λ r. r.node_id))
            (written-remote t (find (λ r. r.id == t.id) w.tasks.rows))
          ∙ i,
    )

pub write_back-HoldsItem :
    (env : Env) (id : TaskId) (item : Text) (w w' : World) (u : Unit {0})
    → Runs (write_back_project_item env id item) w w' u
    → HoldsItem id item w'.tasks
unfolding write_back_project_item
write_back-HoldsItem env id item w w' u h =
    let (v, t, got, rest) = bind_done (get_task env id) _ w w' u h in
    let (same, read) = get_task_done env id w v t got in
    elim (Bool-cases (t.project_item_id == some item)) [
      | inl y ↦
          let kept : v ≡ w' = pure_done tt v w' u (rw (y) at rest) in
          (t, subst (λ (x : World). get id x.tasks ≡ some t) (same ∙ kept) read, ground arith)
      | inr n ↦
          let saved =
            saved-HoldsItem env (record t { project_item_id = some item }) item v w' u refl
              (rw (n) at rest) in
          subst (λ i. HoldsItem i item w'.tasks) (get-id id w.tasks t read) saved
    ]

pub write_back-HasItem :
    (env : Env) (id : TaskId) (item : Text) (w w' : World) (u : Unit {0})
    → Runs (write_back_project_item env id item) w w' u
    → HasItem id w'.tasks
write_back-HasItem env id item w w' u h =
    let (t, read, i) = write_back-HoldsItem env id item w w' u h in (t, item, read, i)

pub converted-HasIssue :
    (to_string : ℕ → Text) (env : Env) (id : TaskId) (node : Text) (n : ℕ) (w w' : World)
    (u : Unit {0})
    → Runs (write_back_converted_issue to_string env id node n) w w' u
    → HasIssue id w'.tasks
unfolding write_back_converted_issue node_of
converted-HasIssue to_string env id node n w w' u h =
    let (v, t, got, rest) = bind_done (get_task env id) _ w w' u h in
    let (same, read) = get_task_done env id w v t got in
    subst (λ i. HasIssue i w'.tasks) (get-id id w.tasks t read)
      (saved-HasIssue env
        (record t {
          remote = some (record {
            provider = provider_of t.remote;
            remote_id = to_string n;
            node_id = some node;
          });
        })
        node v w' u refl rest)
