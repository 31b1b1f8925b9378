-- ===== src/Project/Board/Valid.antt =====
-- The invariant of a board and the operations that keep it: crates/domain-project/src/project.rs.
use repo_link.Prelude.{
  ℕ, ◌≤◌, Bool, true, not, List, [], ◌∷◌, ◌≡◌, ◌↔◌, refl, arith, length, ◌==◌, list_eq, nat_eq, all,
  contains, find, retain, pairwise, pairwise-retain, all_unseen, all-retain_self, Bool-cases, inl,
  inr, all-retain,
}
use repo_link.Prelude.Text.{Text}
use repo_link.Core.{Timestamp, ok}
use repo_link.Task.Enums.{Priority, priority_eq}
use repo_link.Project.Field.{FieldOption, ProjectField, status, priority, project_field_kind_eq}
use repo_link.Project.Mapping.{StatusMapping, PriorityMapping}
use repo_link.Project.Board.{
  Project, bool_eq, of_kind, find_kind, options_of, owns, validate_from, validate_mappings,
  validate_priorities_from, validate_priority_mappings, from_fields, status_options,
  priority_options, set_mappings, set_priority_mappings, replace_status_options, swap_options,
}

-- Each mapping names an option that is there, and no two have the same key.
abbrev pub AreMapped : List FieldOption → List StatusMapping → Type 0
AreMapped options ms =
    (all (λ m. owns options m.option_id) ms ≡ true)
    × (pairwise (λ m n. not (m.is_open == n.is_open)) ms ≡ true)

abbrev pub ArePrioritised : List FieldOption → List PriorityMapping → Type 0
ArePrioritised options ms =
    (all (λ m. owns options m.option_id) ms ≡ true)
    × (pairwise (λ m n. not (m.priority == n.priority)) ms ≡ true)

-- What the loop admits, over the keys it has seen.
abbrev AreFresh : List Bool → List FieldOption → List StatusMapping → Type 0
AreFresh seen options ms =
    AreMapped options ms × (all (λ m. not (contains seen m.is_open)) ms ≡ true)

abbrev AreFreshPriorities : List Priority → List FieldOption → List PriorityMapping → Type 0
AreFreshPriorities seen options ms =
    ArePrioritised options ms × (all (λ m. not (contains seen m.priority)) ms ≡ true)

-- The loop over the status mappings admits exactly what is fresh.
validate_from-AreFresh :
    (seen : List Bool) (options : List FieldOption) (ms : List StatusMapping)
    → validate_from seen options ms ≡ ok tt ↔ AreFresh seen options ms
unfolding validate_from all pairwise
validate_from-AreFresh seen options [] = ground arith
validate_from-AreFresh seen options (m ∷ ms) = ground (
  arith,
  validate_from-AreFresh (m.is_open ∷ seen) options ms,
  all_unseen (λ (n : StatusMapping). n.is_open) m.is_open seen ms,
)

validate_priorities_from-AreFresh :
    (seen : List Priority) (options : List FieldOption) (ms : List PriorityMapping)
    → validate_priorities_from seen options ms ≡ ok tt ↔ AreFreshPriorities seen options ms
unfolding validate_priorities_from all pairwise
validate_priorities_from-AreFresh seen options [] = ground arith
validate_priorities_from-AreFresh seen options (m ∷ ms) = ground (
  arith,
  validate_priorities_from-AreFresh (m.priority ∷ seen) options ms,
  all_unseen (λ (n : PriorityMapping). n.priority) m.priority seen ms,
)

all-true {ℓ} : {A : Type ℓ} (xs : List A) → all (λ x. true) xs ≡ true
unfolding all
all-true [] = refl
all-true (x ∷ xs) = all-true xs

-- The status mappings are admitted exactly when each names an option of the field and no two
-- are of the same bucket.
validate_mappings-AreMapped :
    (ms : List StatusMapping) (options : List FieldOption)
    → validate_mappings ms options ≡ ok tt ↔ AreMapped options ms
unfolding validate_mappings contains
validate_mappings-AreMapped ms options =
    ground (arith, validate_from-AreFresh [] options ms, all-true ms)

-- The priority mappings are admitted exactly when each names an option of the field and no two
-- are of the same priority.
validate_priority_mappings-ArePrioritised :
    (ms : List PriorityMapping) (options : List FieldOption)
    → validate_priority_mappings ms options ≡ ok tt ↔ ArePrioritised options ms
unfolding validate_priority_mappings contains
validate_priority_mappings-ArePrioritised ms options =
    ground (arith, validate_priorities_from-AreFresh [] options ms, all-true ms)

-- A board is well formed: at most one priority field, exactly one status field where there are
-- fields, and mappings that stand on those fields' options.
abbrev pub HasOneStatus : List ProjectField → Type 0
HasOneStatus [] = Unit
HasOneStatus (f ∷ fs) = length (of_kind status (f ∷ fs)) ≡ 1

pub record IsValid (p : Project) : Type 0 where
  pub one_status : HasOneStatus p.fields
  pub one_priority : length (of_kind priority p.fields) ≤ 1
  pub mapped : AreMapped (status_options p) p.status_mappings
  pub prioritised : ArePrioritised (priority_options p) p.priority_mappings

-- `Project::from_fields` builds valid boards only.
pub from_fields-IsValid :
    (id owner_login : Text) (number : ℕ) (title : Text) (fields : List ProjectField)
    (ms : List StatusMapping) (ps : List PriorityMapping) (archived : Bool) (now : Timestamp)
    (p : Project)
    → from_fields id owner_login number title fields ms ps archived now ≡ ok p
    → IsValid p
unfolding from_fields status_options priority_options
from_fields-IsValid id owner_login number title [] ms ps archived now p h =
    grind (arith, validate_mappings-AreMapped ms, validate_priority_mappings-ArePrioritised ps)
from_fields-IsValid id owner_login number title (f ∷ fs) ms ps archived now p h =
    grind (arith, validate_mappings-AreMapped ms, validate_priority_mappings-ArePrioritised ps)

-- Swapping the status mappings keeps a board valid, refused or not.
set_mappings-IsValid :
    (ms : List StatusMapping) (now : Timestamp) (p : Project)
    → IsValid p
    → IsValid (set_mappings ms now p).0
unfolding set_mappings status_options priority_options
set_mappings-IsValid ms now p v = grind (arith, validate_mappings-AreMapped ms (status_options p))

-- Swapping the priority mappings keeps a board valid, refused or not.
pub set_priority_mappings-IsValid :
    (ms : List PriorityMapping) (now : Timestamp) (p : Project)
    → IsValid p
    → IsValid (set_priority_mappings ms now p).0
unfolding set_priority_mappings status_options priority_options
set_priority_mappings-IsValid ms now p v =
    grind (arith, validate_priority_mappings-ArePrioritised ms (priority_options p))

swap_options-of_status :
    (options : List FieldOption) (fs : List ProjectField)
    → length (of_kind status (swap_options options fs)) ≡ length (of_kind status fs)
unfolding swap_options retain
swap_options-of_status options [] = refl
swap_options-of_status options (f ∷ fs) = ground (arith, swap_options-of_status options fs)

swap_options-of_priority :
    (options : List FieldOption) (fs : List ProjectField)
    → of_kind priority (swap_options options fs) ≡ of_kind priority fs
unfolding swap_options retain
swap_options-of_priority options [] = refl
swap_options-of_priority options (f ∷ fs) = ground (arith, swap_options-of_priority options fs)

swap_options-find_priority :
    (options : List FieldOption) (fs : List ProjectField)
    → find_kind priority (swap_options options fs) ≡ find_kind priority fs
unfolding swap_options find
swap_options-find_priority options [] = refl
swap_options-find_priority options (f ∷ fs) = ground (arith, swap_options-find_priority options fs)

-- The options of the status field are the new ones, where there is such a field.
swap_options-find_status :
    (options : List FieldOption) (fs : List ProjectField)
    → length (of_kind status fs) ≡ 1
    → options_of (find_kind status (swap_options options fs)) ≡ options
unfolding swap_options find retain
swap_options-find_status options [] h = ground arith
swap_options-find_status options (f ∷ fs) h = ground (arith, swap_options-find_status options fs)

swap_options-HasOneStatus :
    (options : List FieldOption) (fs : List ProjectField)
    → HasOneStatus fs
    → HasOneStatus (swap_options options fs)
unfolding swap_options
swap_options-HasOneStatus options [] h = h
swap_options-HasOneStatus options (f ∷ fs) h = elim (Bool-cases (f.kind == status)) [
  | inl t ↦ grind (arith, swap_options-of_status options (f ∷ fs))
  | inr n ↦ grind (arith, swap_options-of_status options (f ∷ fs))
]

-- The mappings that a board keeps when its status options change stand on the new options.
retain-AreMapped :
    (options : List FieldOption) (fs : List ProjectField) (ms : List StatusMapping)
    → HasOneStatus fs
    → AreMapped (options_of (find_kind status fs)) ms
    → AreMapped
        (options_of (find_kind status (swap_options options fs)))
        (retain (λ m. owns options m.option_id) ms)
unfolding swap_options find
retain-AreMapped options [] ms h (o, u) = (
  all-retain (λ (m : StatusMapping). owns [] m.option_id) (λ m. owns options m.option_id) ms o,
  pairwise-retain (λ (m : StatusMapping) n. not (m.is_open == n.is_open))
      (λ m. owns options m.option_id) ms u,
)
retain-AreMapped options (f ∷ fs) ms h (o, u) = rw (swap_options-find_status options (f ∷ fs) h) (
  all-retain_self (λ (m : StatusMapping). owns options m.option_id) ms,
  pairwise-retain (λ (m : StatusMapping) n. not (m.is_open == n.is_open))
      (λ m. owns options m.option_id) ms u,
)

-- Replacing the status options keeps a board valid: the mappings of options that are gone are
-- dropped.
replace_status_options-IsValid :
    (options : List FieldOption) (now : Timestamp) (p : Project)
    → IsValid p
    → IsValid (replace_status_options options now p)
unfolding replace_status_options status_options priority_options
replace_status_options-IsValid options now p v = record {
  one_status = swap_options-HasOneStatus options p.fields v.one_status;
  one_priority = rw (swap_options-of_priority options p.fields) v.one_priority;
  mapped = retain-AreMapped options p.fields p.status_mappings v.one_status v.mapped;
  prioritised = rw (swap_options-find_priority options p.fields) v.prioritised;
}
