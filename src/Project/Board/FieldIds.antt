-- ===== src/Project/Board/FieldIds.antt =====
-- The field identifiers of a board, crates/domain-project/src/project.rs, and the native issue
-- types of an organisation, crates/domain-project/src/issue_type.rs.
use repo_link.Prelude.{Bool, Option, none, some, List, [], ◌∷◌, ◌==◌, list_eq, nat_eq, find}
use repo_link.Prelude.Text.{Text}
use repo_link.Project.Field.{ProjectField, status, priority}
use repo_link.Project.Board.{Project, find_kind, type_field}

-- `.map(|f| f.field_id.as_str())`
abbrev pub id_of : Option ProjectField → Option Text
id_of none = none
id_of (some f) = some f.field_id

-- `Project::status_field_id`, `Project::priority_field_id` and `Project::type_field_id`
unfoldable pub status_field_id : Project → Option Text
status_field_id p = id_of (find_kind status p.fields)

unfoldable pub priority_field_id : Project → Option Text
priority_field_id p = id_of (find_kind priority p.fields)

unfoldable pub type_field_id : Project → Option Text
unfolding type_field
type_field_id p = id_of (type_field p)

pub record OrgIssueType : Type 0 where
  pub issue_type_id : Text
  pub name : Text

pub record OrgIssueTypeRegistry : Type 0 where
  pub owner_login : Text
  pub types : List OrgIssueType

-- `OrgIssueTypeRegistry::is_available`
unfoldable pub is_available : OrgIssueTypeRegistry → Bool
is_available r = elim r.types [ [] ↦ Bool.false | t ∷ ts ↦ Bool.true ]

-- `SqliteOrgIssueTypeRepository::get`: an owner without rows has the empty registry.
unfoldable pub registry_of : List OrgIssueTypeRegistry → Text → OrgIssueTypeRegistry
registry_of rs owner_login = elim (find (λ r. r.owner_login == owner_login) rs) [
  | none ↦ record { owner_login = owner_login; types = [] }
  | some r ↦ r
]
