-- ===== src/Drainer/Apply/Outcomes.antt =====
-- How the arms of `apply` come out: crates/application-sync/src/drainer.rs.
use repo_link.Prelude.{
  ℕ, Bool, true, false, Option, none, some, List, [], ◌∷◌, ◌≡◌, refl, arith, ◌&&◌, ◌⊎◌, inl, inr,
  if◌then◌else◌, ◌==◌, nat_eq, list_eq, option_eq, map,
}
use repo_link.Prelude.Text.{Text}
use repo_link.Core.{TaskId}
use repo_link.Task.Enums.{SyncState}
use repo_link.Task.IssueType.{IssueType}
use repo_link.Task.State.{Task}
use repo_link.Sync.Outbox.{
  OutboxMutation, set_project_priority, set_project_type, set_issue_type, add_sub_issue,
  remove_sub_issue, add_blocked_by, remove_blocked_by,
}
use repo_link.TaskRepo.{clear_issue_type_pending, update_row, type_column}
use repo_link.Drainer.{ApplyDisposition, stamped, retry}
use repo_link.Drainer.Effects.{
  Response, answered, refused, Call, Env, World, done, failed, Act, pure, ask,
}
use repo_link.Drainer.Apply.Arms.{
  apply_field, clear_pending, clear_recorded, apply_set_issue_type, stamped_or_retry,
  apply_mutation,
}

-- The mutations that are off the axis of the issue's sync state.
abbrev pub is_projection : OutboxMutation → Bool
is_projection (set_project_priority _ _ _ _) = true
is_projection (set_project_type _ _ _ _ _ _) = true
is_projection (set_issue_type _ _ _ _) = true
is_projection (add_sub_issue _ _ _ _) = true
is_projection (remove_sub_issue _ _ _ _) = true
is_projection (add_blocked_by _ _ _ _) = true
is_projection (remove_blocked_by _ _ _ _) = true
is_projection _ = false

abbrev pub syncs : World → List SyncState
syncs w = map (λ t. t.sync) w.tasks.rows

-- The failure of the write that clears the intent, for a mutation that has such a write.
abbrev pub clearing_fails : Env → TaskId → OutboxMutation → Option Text
clearing_fails env id (set_project_type _ _ _ _ _ true) = env.not_cleared id
clearing_fails env id (set_issue_type _ _ _ true) = env.not_cleared id
clearing_fails env id _ = none

-- A step that ends stamped, in a retry, or failed by the failure of its one write, which then
-- leaves the tasks; and that leaves the sync state of every task.
pub record StaysOffAxis (failure : Option Text) (m : Act ApplyDisposition) : Type 0 where
  pub comes_out :
      (w : World)
      → ((m w).1 ≡ done stamped)
        ⊎ (((message : Text) × ((m w).1 ≡ done (retry message)))
            ⊎ ((message : Text) × (failure ≡ some message)
                × ((m w).1 ≡ failed message)
                × ((m w).0.tasks ≡ w.tasks)))
  pub keeps : (w : World) → syncs (m w).0 ≡ syncs w

cleared-syncs :
    (id : TaskId) (expected : Option IssueType) (rows : List Task)
    → map
        (λ (t : Task). t.sync)
        (map
          (λ (r : Task).
            if r.id == id
            then (if r.issue_type_pending && type_column r.issue_type == type_column expected
                then record r { issue_type_pending = false }
                else r)
            else r)
          rows)
      ≡ map (λ (t : Task). t.sync) rows
cleared-syncs id expected [] = refl
cleared-syncs id expected (r ∷ rows) = ground (arith, cleared-syncs id expected rows)

stamped-StaysOffAxis : (failure : Option Text) → StaysOffAxis failure (pure stamped)
stamped-StaysOffAxis failure = record { comes_out = λ w. inl refl; keeps = λ w. refl }

cleared-StaysOffAxis :
    (failure : Option Text) (id : TaskId) (expected : Option IssueType)
    → StaysOffAxis failure (clear_pending failure id expected)
unfolding clear_pending clear_issue_type_pending update_row
cleared-StaysOffAxis none id expected = record {
  comes_out = λ w. inl refl;
  keeps = λ w. cleared-syncs id expected w.tasks.rows;
}
cleared-StaysOffAxis (some message) id expected = record {
  comes_out = λ w. inr (inr (message, refl, refl, refl));
  keeps = λ w. refl;
}

ask-StaysOffAxis {ℓ} :
    {A : Type ℓ} (failure : Option Text) (call : Call) (r : Response A) {k : Act ApplyDisposition}
    → StaysOffAxis failure k
    → StaysOffAxis failure (ask call r (λ _. k))
ask-StaysOffAxis failure call (answered a) s = record {
  comes_out = λ w. s.comes_out _;
  keeps = λ w. s.keeps _;
}
ask-StaysOffAxis failure call (refused message) s = record {
  comes_out = λ w. inr (inl (message, refl));
  keeps = λ w. refl;
}

-- A projection onto the board, the native type or the links of an issue is never a conflict, and
-- the sync state of every task stays. It is stamped or retried, or, for a type that the entry
-- recorded, it fails with the failure of the write that clears the pending intent, which leaves
-- the tasks as they are.
pub apply-StaysOffAxis :
    (to_string : ℕ → Text) (env : Env) (id : TaskId) (m : OutboxMutation)
    → is_projection m ≡ true
    → StaysOffAxis (clearing_fails env id m) (apply_mutation to_string env id m)
unfolding apply_mutation apply_field apply_set_issue_type stamped_or_retry clear_recorded
apply-StaysOffAxis to_string env id (set_project_priority board item field option_id) p =
    ask-StaysOffAxis none _ _ (stamped-StaysOffAxis none)
apply-StaysOffAxis to_string env id (set_project_type board item field option_id name false) p =
    ask-StaysOffAxis none _ _ (stamped-StaysOffAxis none)
apply-StaysOffAxis to_string env id (set_project_type board item field option_id name true) p =
    ask-StaysOffAxis (env.not_cleared id) _ _ (cleared-StaysOffAxis (env.not_cleared id) id _)
apply-StaysOffAxis to_string env id (set_issue_type node type_id name false) p =
    ask-StaysOffAxis none _ _ (stamped-StaysOffAxis none)
apply-StaysOffAxis to_string env id (set_issue_type node type_id name true) p =
    ask-StaysOffAxis (env.not_cleared id) _ _ (cleared-StaysOffAxis (env.not_cleared id) id _)
apply-StaysOffAxis to_string env id (add_sub_issue a b c d) p =
    ask-StaysOffAxis none _ _ (stamped-StaysOffAxis none)
apply-StaysOffAxis to_string env id (remove_sub_issue a b c d) p =
    ask-StaysOffAxis none _ _ (stamped-StaysOffAxis none)
apply-StaysOffAxis to_string env id (add_blocked_by a b c d) p =
    ask-StaysOffAxis none _ _ (stamped-StaysOffAxis none)
apply-StaysOffAxis to_string env id (remove_blocked_by a b c d) p =
    ask-StaysOffAxis none _ _ (stamped-StaysOffAxis none)
apply-StaysOffAxis to_string env id _ p = absurd (ground arith)
