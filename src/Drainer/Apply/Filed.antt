-- ===== src/Drainer/Apply/Filed.antt =====
-- What an applied `AddItem` leaves: crates/application-sync/src/drainer.rs.
use repo_link.Prelude.{
  Bool, true, false, Option, none, some, [], ◌∷◌, ◌++◌, ◌≡◌, ◌⊎◌, refl, sym, ◌∙◌, subst, ap, arith,
  nat_eq, list_eq, ◌==◌, Bool-cases, inl, inr, if◌then◌else◌,
}
use repo_link.Prelude.Text.{Text, is_empty}
use repo_link.Core.{TaskId}
use repo_link.Task.State.{Task}
use repo_link.Workspace.{Workspace}
use repo_link.Project.Board.{Project}
use repo_link.TaskRepo.{get}
use repo_link.Drainer.{ApplyDisposition, stamped}
use repo_link.Drainer.Effects.{
  Response, answered, refused, done, Call, Env, World, Act, pure, ◌>>=◌, ask, need, get_task,
  find_workspace, find_project,
}
use repo_link.Drainer.Apply.{
  apply_add_item, write_back_project_item, enqueue_status_follow_up, targets, board_of,
  current_project, workspace_still_targets_project,
}
use repo_link.Drainer.Apply.Idempotent.{draft_rest-tasks}
use repo_link.Drainer.Apply.Replay.{
  Runs, bind_done, need_done, pure_done, get_task_done, Runs-tasks, HoldsItem, write_back-HoldsItem,
}

-- The workspace of a task has this board.
abbrev HasBoard : Env → Task → Text → Type 0
HasBoard env t board =
    (s : Workspace) × (id : Text) × (p : Project) × (find_workspace env t.workspace_id ≡ some s)
    × (s.project_id ≡ some id)
    × (find_project env id ≡ some p)
    × (p.id ≡ board)

board_of_done :
    (env : Env) (o : Option Text) (w w' : World) (p : Option Project)
    → Runs (board_of env o) w w' p
    → (w ≡ w')
      × ((p ≡ none × o ≡ none)
          ⊎ ((id : Text) × (q : Project) × (o ≡ some id)
              × (find_project env id ≡ some q)
              × (p ≡ some q)))
unfolding board_of
board_of_done env none w w' p h = (pure_done none w w' p h, inl (ground arith, refl))
board_of_done env (some id) w w' p h =
    let (v, q, e, rest) = bind_done (need (env.no_project id) (find_project env id)) _ w w' p h in
    let (same, found) = need_done (env.no_project id) (find_project env id) w v q e in
    (same ∙ pure_done (some q) v w' p rest, inr (id, q, refl, found, ground arith))

-- Whether the workspace of the task that is read has the board, or has not.
abbrev Targets : Bool → Env → Task → Text → Type 0
Targets true env t board = HasBoard env t board
Targets false env t board = ¬ HasBoard env t board

targets_board :
    (env : Env) (t : Task) (board : Text) (s : Workspace) (p : Option Project)
    → find_workspace env t.workspace_id ≡ some s
    → (p ≡ none × s.project_id ≡ none)
      ⊎ ((id : Text) × (q : Project) × (s.project_id ≡ some id)
          × (find_project env id ≡ some q)
          × (p ≡ some q))
    → Targets (targets board p) env t board
targets_board env t board s p f (inl (n, e)) =
    subst (λ o. Targets (targets board o) env t board) (sym n)
      (λ (s', id', p', f', e', g', h'). absurd (ground arith))
targets_board env t board s p f (inr (id, q, e, g, n)) =
    subst (λ o. Targets (targets board o) env t board) (sym n)
      (elim (Bool-cases (q.id == board)) [
        | inl y ↦ rw (y) (s, id, q, f, e, g, ground arith)
        | inr d ↦ rw (d) (λ (s', id', p', f', e', g', h'). absurd (ground arith))
      ])

Targets-done :
    (env : Env) (id : TaskId) (board : Text) (w w' : World) (b : Bool)
    → Runs (workspace_still_targets_project env id board) w w' b
    → (w ≡ w') × ((t : Task) × (get id w.tasks ≡ some t) × Targets b env t board)
unfolding workspace_still_targets_project current_project
Targets-done env id board w w' b h =
    let (v, t, got, rest) = bind_done (get_task env id) _ w w' b h in
    let (same, read) = get_task_done env id w v t got in
    let (x, p, on, end) = bind_done (current_project env t) _ v w' b rest in
    let (y, s, found, boards) =
      bind_done (need (env.no_workspace t.workspace_id) (find_workspace env t.workspace_id)) _ v x p
        on in
    let (same_y, is_found) = need_done _ (find_workspace env t.workspace_id) v y s found in
    let (same_x, which) = board_of_done env s.project_id y x p boards in
    let at_end = pure_done (targets board p) x w' b end in
    let value : targets board p ≡ b = ground arith in
    (
      same ∙ same_y ∙ same_x ∙ at_end,
      (
        t,
        read,
        subst (λ c. Targets c env t board) value (targets_board env t board s p is_found which),
      ),
    )

ask_answered {ℓ} :
    {A : Type ℓ} (call : Call) (r : Response A) (k : A → Act ApplyDisposition) (w w' : World)
    → Runs (ask call r k) w w' stamped
    → (a : A) × (r ≡ answered a) × Runs (k a) (record w { calls = w.calls ++ call ∷ [] }) w' stamped
ask_answered call (answered a) k w w' h = (a, refl, h)
ask_answered call (refused message) k w w' h = absurd (ground arith)

-- What is stored after the item, where the workspace has the board and where it has not.
abbrev pub Filed : Env → TaskId → Task → Text → Text → World → World → Type 0
Filed env id t board item w w' =
    (HasBoard env t board × HoldsItem id item w'.tasks)
    ⊎ ((¬ HasBoard env t board) × (w'.tasks ≡ w.tasks) × (w'.outbox ≡ w.outbox))

filed :
    (env : Env) (id : TaskId) (t : Task) (board item : Text) (b : Bool) (w w' : World)
    → Targets b env t board
    → Runs
        (if b
          then write_back_project_item env id item
            >>= (λ _. enqueue_status_follow_up env id board item >>= (λ _. pure stamped))
          else pure stamped)
        w
        w'
        stamped
    → Filed env id t board item w w'
filed env id t board item false w w' n h =
    let same = pure_done stamped w w' stamped h in
    inr (n, ap (λ (x : World). x.tasks) (sym same), ap (λ (x : World). x.outbox) (sym same))
filed env id t board item true w w' y h =
    let (v, u, wrote, rest) = bind_done (write_back_project_item env id item) _ w w' stamped h in
    inl (
      y,
      subst (HoldsItem id item) (sym (Runs-tasks (draft_rest-tasks env id board item) rest))
          (write_back-HoldsItem env id item w v u wrote),
    )

-- An `AddItem` that ends stamped had an answer from the remote that is not empty. If the workspace of
-- its task, as it is then, has the board of the entry, the stored task has the answered item; and
-- if it has not, neither a task nor an entry is written.
pub apply_add_item-Filed :
    (env : Env) (id : TaskId) (board issue : Text) (w w' : World)
    → apply_add_item env id board issue w ≡ (w', done stamped)
    → (item : Text) × (t : Task) × (env.remote.add_item board issue ≡ answered item)
      × (is_empty item ≡ false)
      × (get id w.tasks ≡ some t)
      × Filed env id t board item w w'
unfolding apply_add_item
apply_add_item-Filed env id board issue w w' h =
    let (item, a, run) =
      ask_answered (Call.add_item board issue) (env.remote.add_item board issue) _ w w' h in
    elim (Bool-cases (is_empty item)) [
      | inl y ↦ absurd (ground (arith, rw (y) at run))
      | inr n ↦
          let (v, b, at_target, rest) =
            bind_done (workspace_still_targets_project env id board) _
              (record w { calls = w.calls ++ Call.add_item board issue ∷ [] }) w' stamped
              (rw (n) at run) in
          let (same, (t, read, targeted)) = Targets-done env id board _ v b at_target in
          (
            item,
            t,
            a,
            n,
            read,
            subst (λ (x : World). Filed env id t board item x w') (sym same)
                (filed env id t board item b v w' targeted rest),
          )
    ]
