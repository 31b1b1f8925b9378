-- ===== src/Outbound/Plan.antt =====
-- crates/application-sync/src/enqueue.rs: the planner, and the rail of an issue type. The log lines
-- of a resolution are left out.
pub mod Justified
pub mod Kinds
pub mod LeftOut
pub mod Rails
use repo_link.Prelude.{
  Bool, true, false, not, ◌&&◌, ◌||◌, Option, none, some, List, [], ◌∷◌, ◌++◌, if◌then◌else◌, ◌==◌,
  nat_eq, list_eq, is_none, unwrap_or,
}
use repo_link.Prelude.Text.{Text, codes, is_empty}
use repo_link.Task.State.{Task}
use repo_link.Task.Edits.{is_mirror, is_remote_backed}
use repo_link.Sync.Outbox.{
  OutboxMutation, update_remote, add_item, create_draft_issue, update_draft_issue, set_issue_type,
}
use repo_link.Repo.Naming.{split, strip_prefix}
use repo_link.Project.Board.{Project, has_ambiguous_type_field}
use repo_link.Project.Board.FieldIds.{
  type_field_id, OrgIssueTypeRegistry, is_available, registry_of,
}
use repo_link.Outbound.Enqueue.{
  and_then, is_draft_backed, node_of, set_project_status_mutation, set_project_type_mutation,
  IssueTypeResolution, mutation, unmapped, no_node, set_issue_type_mutation,
}

-- The owner of `owner/repo`, if there are just these two parts.
abbrev pub owner_of : List Text → Option Text
owner_of (owner ∷ repo ∷ []) = if is_empty owner || is_empty repo then none else some owner
owner_of _ = none

unfoldable pub parse_github_owner : Text → Option Text
unfolding strip_prefix split is_empty
parse_github_owner canonical =
    and_then (strip_prefix (codes "github.com/") canonical)
      (λ rest. owner_of (split (λ c. c == b'/') rest))

pub data IssueTypeProjection : Type 0 where
  projected : OutboxMutation → IssueTypeProjection
  without_match : (owner : Text) → IssueTypeProjection
  without_node without_owner : IssueTypeProjection
  registry_unavailable : (owner : Text) → IssueTypeProjection

unfoldable pub of_resolution : Text → IssueTypeResolution → IssueTypeProjection
of_resolution owner (mutation m) = projected m
of_resolution owner unmapped = without_match owner
of_resolution owner no_node = without_node

-- The branch of a type that is set, with the registries of the owners.
unfoldable pub project_set_type :
    List OrgIssueTypeRegistry → Option Text → Task → IssueTypeProjection
unfolding registry_of is_available set_issue_type_mutation of_resolution
project_set_type rs none t = without_owner
project_set_type rs (some owner) t =
    if not (is_available (registry_of rs owner))
    then registry_unavailable owner
    else of_resolution owner (set_issue_type_mutation (registry_of rs owner) t)

unfoldable pub resolve_issue_type_projection :
    List OrgIssueTypeRegistry → Option Text → Task → IssueTypeProjection
unfolding node_of project_set_type
resolve_issue_type_projection rs filing_owner_login t =
    if is_none t.issue_type
    then elim (node_of t) [
      | none ↦ without_node
      | some node ↦ projected (set_issue_type node none none true)
    ]
    else project_set_type rs filing_owner_login t

abbrev pub native : IssueTypeProjection → Option OutboxMutation
native (projected m) = some m
native _ = none

-- Whether the board takes the type on a field of its own.
unfoldable pub has_custom_rail : Option Project → Bool
unfolding has_ambiguous_type_field type_field_id
has_custom_rail none = false
has_custom_rail (some p) = not (has_ambiguous_type_field p) && not (is_none (type_field_id p))

unfoldable pub custom : Option Project → Task → Option OutboxMutation
unfolding set_project_type_mutation
custom none t = none
custom (some p) t = set_project_type_mutation p t

unfoldable pub resolve_type_projection :
    Option Project → List OrgIssueTypeRegistry → Option Text → Task → Option OutboxMutation
unfolding has_custom_rail custom resolve_issue_type_projection
resolve_type_projection project rs filing_owner_login t =
    if has_custom_rail project
    then custom project t
    else native (resolve_issue_type_projection rs filing_owner_login t)

-- The content part of the plan.
unfoldable pub plan_content : Task → Option Text → Bool → List OutboxMutation
unfolding is_draft_backed
plan_content t filing_canonical content_changed = elim t.remote [
  | some r ↦ elim filing_canonical [
    | none ↦ []
    | some canonical ↦ update_remote canonical r.remote_id (some t.title) (some t.body) none ∷ []
  ]
  | none ↦
      if is_draft_backed t && content_changed
      then update_draft_issue (unwrap_or t.project_item_id []) (some t.title) (some t.body) ∷ []
      else []
]

abbrev pub optional : Option OutboxMutation → List OutboxMutation
optional none = []
optional (some m) = m ∷ []

-- The board part of the plan.
unfoldable pub plan_filing : Project → Task → List OutboxMutation
unfolding node_of
plan_filing p t = elim (node_of t) [
  | some node ↦ add_item p.id node ∷ []
  | none ↦ if is_none t.remote then create_draft_issue p.id t.title t.body ∷ [] else []
]

unfoldable pub plan_board : Option Project → Task → List OutboxMutation
unfolding plan_filing set_project_status_mutation
plan_board none t = []
plan_board (some p) t =
    if is_none t.project_item_id
    then plan_filing p t
    else optional (set_project_status_mutation p t)

unfoldable pub plan_mutations : Task → Option Project → Option Text → Bool → List OutboxMutation
unfolding is_mirror plan_content plan_board
plan_mutations t project filing_canonical content_changed =
    if not (is_mirror t)
    then []
    else plan_content t filing_canonical content_changed ++ plan_board project t
