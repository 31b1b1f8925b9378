-- ===== src/Sync/Outbox.antt =====
-- crates/domain-sync/src/outbox.rs: one outbound mutation, and a row of the outbox.
use repo_link.Prelude.{ℕ, Bool, Option, none, Eq, List-discrete, Option-discrete, ℕ_discrete}
use mathlib.Core.Bool.{Bool-discrete}
use repo_link.Prelude.Text.{Text, codes}
use repo_link.Core.{TaskId, OutboxEntryId, Timestamp}

-- The fields of each variant stand in the order of the source.
pub data OutboxMutation : Type 0 where
  update_remote :
      (canonical_repo remote_id : Text) (title body : Option Text) (closed : Option Bool)
      → OutboxMutation
  add_item : (project_node_id issue_node_id : Text) → OutboxMutation
  create_draft_issue : (project_node_id title body : Text) → OutboxMutation
  update_draft_issue : (item_node_id : Text) (title body : Option Text) → OutboxMutation
  convert_draft_to_issue : (item_node_id repo_node_id : Text) → OutboxMutation
  set_project_status :
      (project_node_id item_node_id status_field_id option_id : Text) → OutboxMutation
  set_project_priority :
      (project_node_id item_node_id priority_field_id option_id : Text) → OutboxMutation
  set_project_type :
      (project_node_id item_node_id type_field_id : Text) (option_id local_issue_type : Option Text)
      (local_issue_type_recorded : Bool)
      → OutboxMutation
  set_issue_type :
      (issue_node_id : Text) (issue_type_id local_issue_type : Option Text)
      (local_issue_type_recorded : Bool)
      → OutboxMutation
  add_sub_issue remove_sub_issue :
      (parent_canonical parent_remote_id child_canonical child_remote_id : Text) → OutboxMutation
  add_blocked_by remove_blocked_by :
      (blocked_canonical blocked_remote_id blocker_canonical blocker_remote_id : Text)
      → OutboxMutation

unfoldable pub OutboxMutation-discrete : Discrete OutboxMutation
OutboxMutation-discrete =
    hlevel (List-discrete ℕ_discrete, Option-discrete (List-discrete ℕ_discrete), Bool-discrete)

instance abbrev pub outbox_mutation_eq : Eq OutboxMutation
outbox_mutation_eq = record { dec_eq = OutboxMutation-discrete }

-- `OutboxMutation::kind`
unfoldable pub kind : OutboxMutation → Text
kind (update_remote _ _ _ _ _) = codes "update_remote"
kind (add_item _ _) = codes "add_item"
kind (create_draft_issue _ _ _) = codes "create_draft_issue"
kind (update_draft_issue _ _ _) = codes "update_draft_issue"
kind (convert_draft_to_issue _ _) = codes "convert_draft_to_issue"
kind (set_project_status _ _ _ _) = codes "set_project_status"
kind (set_project_priority _ _ _ _) = codes "set_project_priority"
kind (set_project_type _ _ _ _ _ _) = codes "set_project_type"
kind (set_issue_type _ _ _ _) = codes "set_issue_type"
kind (add_sub_issue _ _ _ _) = codes "add_sub_issue"
kind (remove_sub_issue _ _ _ _) = codes "remove_sub_issue"
kind (add_blocked_by _ _ _ _) = codes "add_blocked_by"
kind (remove_blocked_by _ _ _ _) = codes "remove_blocked_by"

pub data OutboxStatus : Type 0 where
  pending inflight succeeded failed : OutboxStatus

unfoldable pub OutboxStatus-discrete : Discrete OutboxStatus
OutboxStatus-discrete = hlevel

instance abbrev pub outbox_status_eq : Eq OutboxStatus
outbox_status_eq = record { dec_eq = OutboxStatus-discrete }

pub record OutboxEntry : Type 0 where
  pub id : OutboxEntryId
  pub task_id : TaskId
  pub mutation : OutboxMutation
  pub status : OutboxStatus
  pub attempts : ℕ
  pub last_error : Option Text
  pub next_attempt_at : Option Timestamp
  pub enqueued_at : Timestamp
  pub updated_at : Timestamp

-- `OutboxEntry::new`, with the fresh identifier `id`.
unfoldable pub new : OutboxEntryId → Timestamp → TaskId → OutboxMutation → OutboxEntry
new id now task_id mutation = record {
  id = id;
  task_id = task_id;
  mutation = mutation;
  status = pending;
  attempts = 0;
  last_error = none;
  next_attempt_at = none;
  enqueued_at = now;
  updated_at = now;
}
