-- ===== src/Project/Board/Kinds.antt =====
-- The kinds of a board's fields: crates/domain-project/src/field.rs.
use repo_link.Prelude.{
  ℕ, suc, ◌+◌, ◌≤◌, ◌<◌, Option, some, List, [], ◌∷◌, ◌≡◌, refl, arith, ◌==◌, list_eq, nat_eq,
  option_eq, List-discrete, ℕ_discrete, length, retain, Option-cases, inl, inr,
}
use repo_link.Core.{ok}
use repo_link.Project.Field.{
  ProjectField, ProjectFieldKind, status, priority, type, other, project_field_kind_eq, as_db_str,
  from_db_str, position_status, status_idx, kind_at, assign_from, assign_field_kinds,
}
use repo_link.Project.Board.{of_kind}
use repo_link.Project.Board.Valid.{HasOneStatus}

-- The stored name of a kind reads back as that kind.
pub from_db_str-as_db_str : (k : ProjectFieldKind) → from_db_str (as_db_str k) ≡ ok k
unfolding from_db_str as_db_str List-discrete ℕ_discrete
from_db_str-as_db_str status = refl
from_db_str-as_db_str priority = refl
from_db_str-as_db_str type = refl
from_db_str-as_db_str other = refl

position_status-lt : (fs : List ProjectField) (k : ℕ) → position_status fs ≡ some k → k < length fs
unfolding position_status
position_status-lt [] k h = ground arith
position_status-lt (f ∷ fs) k h = grind (arith, position_status-lt fs)

kind_at-status : (k i : ℕ) (f : ProjectField) → (kind_at (some k) i f == status) ≡ (i == k)
unfolding kind_at
kind_at-status k i f = ground arith

-- An index that is behind is met no more.
count_past :
    (k i : ℕ) (fs : List ProjectField)
    → k < i
    → length (of_kind status (assign_from (some k) i fs)) ≡ 0
unfolding assign_from retain
count_past k i [] h = refl
count_past k i (f ∷ fs) h = ground (arith, kind_at-status k i f, count_past k (suc i) fs)

count_status :
    (k i : ℕ) (fs : List ProjectField)
    → i ≤ k
    → k < i + length fs
    → length (of_kind status (assign_from (some k) i fs)) ≡ 1
unfolding assign_from retain
count_status k i [] h l = ground arith
count_status k i (f ∷ fs) h l =
    ground (arith, kind_at-status k i f, count_past k (suc i) fs, count_status k (suc i) fs)

count_at :
    (idx : Option ℕ) (k : ℕ) (fs : List ProjectField)
    → idx ≡ some k
    → k < length fs
    → length (of_kind status (assign_from idx 0 fs)) ≡ 1
count_at idx k fs e l = rw (e) (count_status k 0 fs (omega arith) (omega arith))

-- There is a status index where there are fields, and it is in bounds.
status_idx-lt :
    (f : ProjectField) (fs : List ProjectField)
    → (k : ℕ) × (status_idx (f ∷ fs) ≡ some k) × (k < length (f ∷ fs))
unfolding status_idx
status_idx-lt f fs = elim (Option-cases (position_status (f ∷ fs))) [
  | inl n ↦ (0, rw (n) refl, omega arith)
  | inr (k, e) ↦ (k, rw (e) refl, position_status-lt (f ∷ fs) k e)
]

-- Whatever the fields are named, just one of them is the status field, where there are fields.
assign_field_kinds-HasOneStatus : (fs : List ProjectField) → HasOneStatus (assign_field_kinds fs)
unfolding assign_field_kinds
assign_field_kinds-HasOneStatus [] = tt
assign_field_kinds-HasOneStatus (f ∷ fs) =
    let (k, e, l) = status_idx-lt f fs in count_at (status_idx (f ∷ fs)) k (f ∷ fs) e l
