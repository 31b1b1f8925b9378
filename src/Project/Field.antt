-- ===== src/Project/Field.antt =====
-- crates/domain-project/src/field.rs: the retained single-select fields of a board.
use repo_link.Prelude.{
  ℕ, suc, ◌||◌, Option, none, some, List, [], ◌∷◌, if◌then◌else◌, Eq, ◌==◌, nat_eq, list_eq,
  option_eq, or,
}
use repo_link.Prelude.Text.{Text, codes, eq_ignore_ascii_case}
use repo_link.Core.{Result, ok, err, validation}

pub record FieldOption : Type 0 where
  pub option_id : Text
  pub name : Text
  pub ordinal : ℕ

pub data ProjectFieldKind : Type 0 where
  status priority type other : ProjectFieldKind

unfoldable pub ProjectFieldKind-discrete : Discrete ProjectFieldKind
ProjectFieldKind-discrete = hlevel

instance abbrev pub project_field_kind_eq : Eq ProjectFieldKind
project_field_kind_eq = record { dec_eq = ProjectFieldKind-discrete }

-- `ProjectFieldKind::as_db_str` and `from_db_str`
unfoldable pub as_db_str : ProjectFieldKind → Text
as_db_str status = codes "status"
as_db_str priority = codes "priority"
as_db_str type = codes "type"
as_db_str other = codes "other"

unfoldable pub from_db_str : Text → Result ProjectFieldKind
from_db_str s =
    if s == codes "status"
    then ok status
    else if s == codes "priority"
    then ok priority
    else if s == codes "type"
    then ok type
    else if s == codes "other"
    then ok other
    else err validation

pub record ProjectField : Type 0 where
  pub field_id : Text
  pub name : Text
  pub kind : ProjectFieldKind
  pub options : List FieldOption

-- `ProjectField::new`
unfoldable pub new : Text → Text → List FieldOption → ProjectField
new field_id name options = record {
  field_id = field_id;
  name = name;
  kind = other;
  options = options;
}

-- `fields.iter().position(|f| f.name == "Status")`
unfoldable pub position_status : List ProjectField → Option ℕ
position_status [] = none
position_status (f ∷ fs) =
    if f.name == codes "Status"
    then some 0
    else elim (position_status fs) [ none ↦ none | some i ↦ some (suc i) ]

-- The index of the Status field: by name, else the first.
unfoldable pub status_idx : List ProjectField → Option ℕ
unfolding position_status
status_idx fs = or (position_status fs) (elim fs [ [] ↦ none | f ∷ rest ↦ some 0 ])

-- The kind of the field at index `i`.
unfoldable pub kind_at : Option ℕ → ℕ → ProjectField → ProjectFieldKind
unfolding eq_ignore_ascii_case
kind_at idx i f =
    if some i == idx
    then status
    else if f.name == codes "Priority"
    then priority
    else if eq_ignore_ascii_case f.name (codes "type")
        || eq_ignore_ascii_case f.name (codes "types")
    then type
    else other

-- The loop of `assign_field_kinds`, from index `i`.
unfoldable pub assign_from : Option ℕ → ℕ → List ProjectField → List ProjectField
unfolding kind_at
assign_from idx i [] = []
assign_from idx i (f ∷ fs) = record f { kind = kind_at idx i f } ∷ assign_from idx (suc i) fs

unfoldable pub assign_field_kinds : List ProjectField → List ProjectField
unfolding status_idx assign_from
assign_field_kinds fs = assign_from (status_idx fs) 0 fs
