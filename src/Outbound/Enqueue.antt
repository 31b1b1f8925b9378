-- ===== src/Outbound/Enqueue.antt =====
-- crates/application-sync/src/enqueue.rs: which mutations an edit of a task owes the remote. An
-- address is the canonical repo and the issue number.
use repo_link.Prelude.{
  Bool, true, false, not, ◌&&◌, Option, none, some, if◌then◌else◌, ◌==◌, nat_eq, list_eq, is_none,
  find, any,
}
use repo_link.Prelude.Text.{Text, eq_ignore_ascii_case}
use repo_link.Task.Enums.{
  is_open, RelationKind, parent_of, child_of, blocked_by, blocks, related_to, duplicates,
  relation_kind_eq,
}
use repo_link.Task.IssueType.{IssueType, display, from}
use repo_link.Task.State.{Task}
use repo_link.Sync.Outbox.{
  OutboxMutation, set_project_status, set_project_priority, set_project_type, set_issue_type,
  add_sub_issue, remove_sub_issue, add_blocked_by, remove_blocked_by,
}
use repo_link.Project.Board.{Project, resolved_priority_option_id_for, resolved_type_option_id_for}
use repo_link.Project.Board.FieldIds.{
  status_field_id, priority_field_id, type_field_id, OrgIssueTypeRegistry,
}
use repo_link.Outbound.{board_option_for_lifecycle}

abbrev pub Address : Type 0
Address = Text × Text

-- The addressed issue, the related one, and whether the edge is that of a sub-issue.
unfoldable pub oriented : RelationKind → Address → Address → Option (Address × Address × Bool)
oriented parent_of this other = some (this, other, true)
oriented child_of this other = some (other, this, true)
oriented blocked_by this other = some (this, other, false)
oriented blocks this other = some (other, this, false)
oriented related_to this other = none
oriented duplicates this other = none

unfoldable pub edge_mutation : Bool → Bool → Address → Address → OutboxMutation
edge_mutation true true a b = add_sub_issue a.0 a.1 b.0 b.1
edge_mutation true false a b = remove_sub_issue a.0 a.1 b.0 b.1
edge_mutation false true a b = add_blocked_by a.0 a.1 b.0 b.1
edge_mutation false false a b = remove_blocked_by a.0 a.1 b.0 b.1

unfoldable pub relation_mutation : RelationKind → Bool → Address → Address → Option OutboxMutation
unfolding oriented edge_mutation
relation_mutation kind add this other = elim (oriented kind this other) [
  | none ↦ none
  | some (a, b, is_sub) ↦ some (edge_mutation is_sub add a b)
]

unfoldable pub is_draft_backed : Task → Bool
is_draft_backed t = is_none t.remote && not (is_none t.project_item_id)

-- `?` on an option.
abbrev pub and_then {ℓ κ} : {A : Type ℓ} {B : Type κ} → Option A → (A → Option B) → Option B
and_then none f = none
and_then (some a) f = f a

unfoldable pub set_project_status_mutation : Project → Task → Option OutboxMutation
unfolding status_field_id board_option_for_lifecycle is_open
set_project_status_mutation p t = and_then t.project_item_id (λ item.
    and_then (status_field_id p) (λ field.
      and_then (board_option_for_lifecycle p (is_open t.lifecycle))
        (λ option_id. some (set_project_status p.id item field option_id))))

unfoldable pub set_project_priority_mutation : Project → Task → Option OutboxMutation
unfolding priority_field_id resolved_priority_option_id_for
set_project_priority_mutation p t = and_then t.project_item_id (λ item.
    and_then (priority_field_id p) (λ field.
      and_then (resolved_priority_option_id_for p t.priority)
        (λ option_id. some (set_project_priority p.id item field option_id))))

-- The option of a type: `some none` clears the field.
unfoldable pub type_option : Project → Option IssueType → Option (Option Text)
unfolding resolved_type_option_id_for
type_option p none = some none
type_option p (some it) = and_then (resolved_type_option_id_for p it) (λ id. some (some id))

abbrev pub type_name : Option IssueType → Option Text
type_name none = none
type_name (some it) = some (display it)

unfoldable pub set_project_type_mutation : Project → Task → Option OutboxMutation
unfolding type_field_id type_option display
set_project_type_mutation p t = and_then t.project_item_id (λ item.
    and_then (type_field_id p) (λ field. and_then (type_option p t.issue_type) (λ option_id.
      some (set_project_type p.id item field option_id (type_name t.issue_type) true))))

unfoldable pub derive_default_issue_type : Task → Option Text → Option Text → Option IssueType
unfolding from
derive_default_issue_type t standalone_default sub_issue_default =
    and_then
      (if any (λ r. r.kind == child_of) t.relations then sub_issue_default else standalone_default)
      (λ name. some (from name))

pub data IssueTypeResolution : Type 0 where
  mutation : OutboxMutation → IssueTypeResolution
  unmapped no_node : IssueTypeResolution

-- `task.remote.as_ref().and_then(|r| r.node_id.clone())`
unfoldable pub node_of : Task → Option Text
node_of t = and_then t.remote (λ r. r.node_id)

-- The part of `set_issue_type_mutation` behind the node id.
unfoldable pub resolve_native : OrgIssueTypeRegistry → Text → Option IssueType → IssueTypeResolution
unfolding display eq_ignore_ascii_case
resolve_native registry node none = mutation (set_issue_type node none none true)
resolve_native registry node (some it) =
    elim (find (λ t. eq_ignore_ascii_case t.name (display it)) registry.types) [
      | none ↦ unmapped
      | some t ↦ mutation (set_issue_type node (some t.issue_type_id) (some (display it)) true)
    ]

unfoldable pub set_issue_type_mutation : OrgIssueTypeRegistry → Task → IssueTypeResolution
unfolding node_of resolve_native
set_issue_type_mutation registry t = elim (node_of t) [
  | none ↦ no_node
  | some node ↦ resolve_native registry node t.issue_type
]
