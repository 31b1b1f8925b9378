-- ===== src/Examples/Sweeps.antt =====
-- The theorem on the sweep of pending types at a sample task.
use repo_link.Prelude.{◌+◌, true, some, [], ◌∷◌, ◌≡◌}
use repo_link.Prelude.Text.{codes}
use repo_link.Task.State.{Task}
use repo_link.TaskRepo.{TaskStore}
use repo_link.Drainer.Sweep.{Bindings, enqueue_pending_issue_types}
use repo_link.Drainer.Sweep.Settles.{enqueue_pending_issue_types_again}
use repo_link.Examples.Fixtures.{mirrored}
use repo_link.Examples.Applies.{env_with}

-- The sample task with the node of its issue, whose type is to be cleared on the remote.
abbrev untyped : Task
untyped = record mirrored {
  issue_type_pending = true;
  remote =
      some (record {
        provider = codes "github";
        remote_id = codes "42";
        node_id = some (codes "I_1");
      });
}

abbrev store : TaskStore
store = record { rows = untyped ∷ []; history = [] }

abbrev bindings : Bindings
bindings = record { instances = []; origins = [] }

enqueue_pending_issue_types_again_example :
    let swept = enqueue_pending_issue_types (λ k. (50 + k, 60)) (env_with []) bindings store [] in
    enqueue_pending_issue_types (λ k. (70 + k, 80)) (env_with []) bindings store swept ≡ swept
enqueue_pending_issue_types_again_example =
    enqueue_pending_issue_types_again (λ k. (50 + k, 60)) (λ k. (70 + k, 80)) (env_with []) bindings
      store []
