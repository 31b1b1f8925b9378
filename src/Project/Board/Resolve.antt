-- ===== src/Project/Board/Resolve.antt =====
-- The lookups of a board invert each other: crates/domain-project/src/project.rs.
use repo_link.Prelude.{
  Bool, true, not, none, some, List, [], ◌∷◌, ◌≡◌, arith, ◌==◌, list_eq, nat_eq, find, pairwise,
  find-all, find_of_any, ◌≢◌, Option-cases, inl, inr,
}
use repo_link.Prelude.Text.{Text}
use repo_link.Task.Enums.{Priority, priority_eq}
use repo_link.Project.Field.{FieldOption}
use repo_link.Project.Mapping.{StatusMapping, PriorityMapping}
use repo_link.Project.Board.{
  Project, owns, bool_eq, status_options, option_id_for, option_name_for,
  resolved_priority_option_id_for, priority_for_option_id,
}
use repo_link.Project.Board.Valid.{IsValid}

-- The row that an option's identifier finds is the one that its priority finds.
find_unique :
    (id : Text) (ms : List PriorityMapping) (m : PriorityMapping)
    → pairwise (λ a b. not (a.priority == b.priority)) ms ≡ true
    → find (λ a. a.option_id == id) ms ≡ some m
    → (m.option_id ≡ id) × (find (λ a. a.priority == m.priority) ms ≡ some m)
unfolding find pairwise
find_unique id [] m h k = ground arith
find_unique id (a ∷ ms) m h k = ground (
  arith,
  find_unique id ms m,
  find-all (λ (b : PriorityMapping). not (a.priority == b.priority)) (λ b. b.option_id == id) ms m,
)

-- The priority that a board reads off an option is set by that same option.
pub priority-roundtrip :
    (p : Project) (id : Text) (pr : Priority)
    → IsValid p
    → priority_for_option_id p id ≡ some pr
    → resolved_priority_option_id_for p pr ≡ some id
unfolding priority_for_option_id resolved_priority_option_id_for
priority-roundtrip p id pr v h =
    elim (Option-cases (find (λ (m : PriorityMapping). m.option_id == id) p.priority_mappings)) [
      | inl n ↦ ground arith
      | inr (m, e) ↦ ground (arith, find_unique id p.priority_mappings m v.prioritised.1 e)
    ]

-- The option that a valid board gives for a bucket is one of the status field's, and has a name.
option_name_for-option_id_for :
    (p : Project) (b : Bool) (id : Text)
    → IsValid p
    → option_id_for p b ≡ some id
    → option_name_for p id ≢ none
unfolding option_id_for option_name_for
option_name_for-option_id_for p b id v h =
    elim (Option-cases (find (λ (m : StatusMapping). m.is_open == b) p.status_mappings)) [
      | inl n ↦ ground arith
      | inr (m, e) ↦ ground (
        arith,
        find-all (λ (a : StatusMapping). owns (status_options p) a.option_id) (λ a. a.is_open == b)
            p.status_mappings m v.mapped.0 e,
        find_of_any (λ (o : FieldOption). o.option_id == id) (status_options p),
      )
    ]
