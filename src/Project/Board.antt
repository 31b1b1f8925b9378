-- ===== src/Project/Board.antt =====
-- crates/domain-project/src/project.rs: the `Project` aggregate.
pub mod Valid
pub mod Resolve
pub mod Kinds
pub mod FieldIds
use repo_link.Prelude.{
  ℕ, ◌+◌, Bool, true, false, not, ◌&&◌, ◌||◌, Option, none, some, List, [], ◌∷◌, ◌++◌, ltb, length,
  if◌then◌else◌, Eq, ◌==◌, nat_eq, list_eq, find, retain, contains, any,
}
use mathlib.Core.Bool.{Bool-discrete}
use repo_link.Prelude.Text.{Text, codes, eq_ignore_ascii_case}
use repo_link.Core.{Timestamp, Result, ok, err, validation}
use repo_link.Task.Enums.{Priority, priority_eq}
use repo_link.Task.IssueType.{IssueType, display}
use repo_link.Project.Field.{
  FieldOption, ProjectField, ProjectFieldKind, status, priority, type, project_field_kind_eq,
}
use repo_link.Project.Mapping.{StatusMapping, PriorityMapping}

instance abbrev pub bool_eq : Eq Bool
bool_eq = record { dec_eq = Bool-discrete }

pub record Project : Type 0 where
  pub id : Text
  pub owner_login : Text
  pub number : ℕ
  pub title : Text
  pub fields : List ProjectField
  pub status_mappings : List StatusMapping
  pub priority_mappings : List PriorityMapping
  pub archived : Bool
  pub created_at : Timestamp
  pub updated_at : Timestamp

-- `fields.iter().filter(|f| f.kind == kind)` and `find` with the same closure
abbrev pub of_kind : ProjectFieldKind → List ProjectField → List ProjectField
of_kind k fs = retain (λ f. f.kind == k) fs

abbrev pub find_kind : ProjectFieldKind → List ProjectField → Option ProjectField
find_kind k fs = find (λ f. f.kind == k) fs

-- `.map(|f| f.options.as_slice()).unwrap_or_default()`
abbrev pub options_of : Option ProjectField → List FieldOption
options_of none = []
options_of (some f) = f.options

-- `options.iter().any(|o| o.option_id == id)`
abbrev pub owns : List FieldOption → Text → Bool
owns options id = any (λ o. o.option_id == id) options

-- The loop of `Project::validate_mappings`, over the bits that were seen.
unfoldable pub validate_from : List Bool → List FieldOption → List StatusMapping → Result (Unit {0})
validate_from seen options [] = ok tt
validate_from seen options (m ∷ ms) =
    if not (owns options m.option_id)
    then err validation
    else if contains seen m.is_open
    then err validation
    else validate_from (m.is_open ∷ seen) options ms

-- `Project::validate_mappings`
unfoldable pub validate_mappings : List StatusMapping → List FieldOption → Result (Unit {0})
unfolding validate_from
validate_mappings ms options = validate_from [] options ms

-- The loop of `Project::validate_priority_mappings`, over the priorities that were seen.
unfoldable pub validate_priorities_from :
    List Priority → List FieldOption → List PriorityMapping → Result (Unit {0})
validate_priorities_from seen options [] = ok tt
validate_priorities_from seen options (m ∷ ms) =
    if not (owns options m.option_id)
    then err validation
    else if contains seen m.priority
    then err validation
    else validate_priorities_from (m.priority ∷ seen) options ms

-- `Project::validate_priority_mappings`
unfoldable pub validate_priority_mappings :
    List PriorityMapping → List FieldOption → Result (Unit {0})
unfolding validate_priorities_from
validate_priority_mappings ms options = validate_priorities_from [] options ms

-- `?` after a check: the rest runs if the check passes.
infixr 5 ◌>>◌
abbrev pub ◌>>◌ : Result (Unit {0}) → Result Project → Result Project
err e >> rest = err e
ok tt >> rest = rest

abbrev pub refuse_if : Bool → Result (Unit {0})
refuse_if true = err validation
refuse_if false = ok tt

abbrev pub is_nil : List ProjectField → Bool
is_nil [] = true
is_nil (f ∷ fs) = false

-- `Project::from_fields`
unfoldable pub from_fields :
    Text
    → Text
    → ℕ
    → Text
    → List ProjectField
    → List StatusMapping
    → List PriorityMapping
    → Bool
    → Timestamp
    → Result Project
unfolding validate_mappings validate_priority_mappings
from_fields id owner_login number title fields status_mappings priority_mappings archived now = do
  refuse_if (ltb 1 (length (of_kind status fields)))
  refuse_if (not (is_nil fields) && length (of_kind status fields) == 0)
  validate_mappings status_mappings (options_of (find_kind status fields))
  refuse_if (ltb 1 (length (of_kind priority fields)))
  validate_priority_mappings priority_mappings (options_of (find_kind priority fields))
  ok (record {
    id = id;
    owner_login = owner_login;
    number = number;
    title = title;
    fields = fields;
    status_mappings = status_mappings;
    priority_mappings = priority_mappings;
    archived = archived;
    created_at = now;
    updated_at = now;
  })

-- `Project::new`
unfoldable pub new :
    Text
    → Text
    → ℕ
    → Text
    → Text
    → List FieldOption
    → List StatusMapping
    → Bool
    → Timestamp
    → Result Project
unfolding from_fields
new id owner_login number title status_field_id status_options status_mappings archived now =
    from_fields id owner_login number title
      (record {
        field_id = status_field_id;
        name = codes "Status";
        kind = status;
        options = status_options;
      }
        ∷ [])
      status_mappings [] archived now

-- `Project::status_options` and `Project::priority_options`
unfoldable pub status_options : Project → List FieldOption
status_options p = options_of (find_kind status p.fields)

unfoldable pub priority_options : Project → List FieldOption
priority_options p = options_of (find_kind priority p.fields)

-- `Project::resolved_priority_option_id_for` and `Project::priority_for_option_id`
unfoldable pub resolved_priority_option_id_for : Project → Priority → Option Text
resolved_priority_option_id_for p pr = elim (find (λ m. m.priority == pr) p.priority_mappings) [
  | none ↦ none
  | some m ↦ some m.option_id
]

unfoldable pub priority_for_option_id : Project → Text → Option Priority
priority_for_option_id p id = elim (find (λ m. m.option_id == id) p.priority_mappings) [
  | none ↦ none
  | some m ↦ some m.priority
]

-- `Project::type_field` and `Project::has_ambiguous_type_field`
unfoldable pub type_field : Project → Option ProjectField
type_field p = elim (of_kind type p.fields) [
  | [] ↦ none
  | f ∷ rest ↦ elim rest [ [] ↦ some f | g ∷ more ↦ none ]
]

unfoldable pub has_ambiguous_type_field : Project → Bool
has_ambiguous_type_field p = ltb 1 (length (of_kind type p.fields))

-- `Project::resolved_type_option_id_for`
unfoldable pub resolved_type_option_id_for : Project → IssueType → Option Text
unfolding type_field display
resolved_type_option_id_for p t = elim (type_field p) [
  | none ↦ none
  | some f ↦ elim (find (λ o. eq_ignore_ascii_case o.name (display t)) f.options) [
    | none ↦ none
    | some o ↦ some o.option_id
  ]
]

-- `Project::set_mappings` and `Project::set_priority_mappings`
unfoldable pub set_mappings : List StatusMapping → Timestamp → Project → Project × Result (Unit {0})
unfolding validate_mappings status_options
set_mappings ms now p = elim (validate_mappings ms (status_options p)) [
  | err e ↦ (p, err e)
  | ok _ ↦ (record p { status_mappings = ms; updated_at = now }, ok tt)
]

unfoldable pub set_priority_mappings :
    List PriorityMapping → Timestamp → Project → Project × Result (Unit {0})
unfolding validate_priority_mappings priority_options
set_priority_mappings ms now p = elim (validate_priority_mappings ms (priority_options p)) [
  | err e ↦ (p, err e)
  | ok _ ↦ (record p { priority_mappings = ms; updated_at = now }, ok tt)
]

-- The options of the first Status field are swapped.
unfoldable pub swap_options : List FieldOption → List ProjectField → List ProjectField
swap_options options [] = []
swap_options options (f ∷ fs) =
    if f.kind == status then record f { options = options } ∷ fs else f ∷ swap_options options fs

-- `Project::replace_status_options`
unfoldable pub replace_status_options : List FieldOption → Timestamp → Project → Project
unfolding swap_options
replace_status_options options now p = record p {
  status_mappings = retain (λ m. owns options m.option_id) p.status_mappings;
  fields = swap_options options p.fields;
  updated_at = now;
}

-- `Project::option_id_for`, which `Project::resolved_option_id_for` calls
unfoldable pub option_id_for : Project → Bool → Option Text
option_id_for p is_open = elim (find (λ m. m.is_open == is_open) p.status_mappings) [
  | none ↦ none
  | some m ↦ some m.option_id
]

-- `Project::option_name_for`
unfoldable pub option_name_for : Project → Text → Option Text
unfolding status_options
option_name_for p id = elim (find (λ o. o.option_id == id) (status_options p)) [
  | none ↦ none
  | some o ↦ some o.name
]
