-- ===== src/TaskService/Relations/Commands/Groups.antt =====
-- How the cleared edges are grouped by the other task: crates/application-task/src/service.rs.
use repo_link.Prelude.{
  Bool, true, false, not, ◌&&◌, ◌||◌, List, [], ◌∷◌, ◌++◌, ◌≡◌, refl, arith, ◌==◌, nat_eq, any, all,
  contains, pairwise, Bool-cases, inl, inr,
}
use repo_link.Core.{TaskId}
use repo_link.Task.Enums.{RelationKind, inverse, relation_kind_eq}
use repo_link.Task.Snapshot.{TaskRelation}
use repo_link.Task.Edits.Relations.{has_edge}
use repo_link.TaskService.Relations.Commands.{ByOther, push_kind, group}

-- The reciprocal of the kind at a task is to be stripped.
unfoldable pub strips : ByOther → TaskId → RelationKind → Bool
unfolding any contains
strips by_other o k = any (λ e. e.0 == o && contains e.1 k) by_other

abbrev pub other_task : (TaskId × List RelationKind) → (TaskId × List RelationKind) → Bool
other_task e f = not (e.0 == f.0)

-- An order of the entries of a map: it has the same entries, each once.
pub record IsOrder (shuffle : ByOther → ByOther) : Type 0 where
  pub same : (q : (TaskId × List RelationKind) → Bool) (m : ByOther) → any q (shuffle m) ≡ any q m
  pub once : (m : ByOther) → pairwise other_task m ≡ true → pairwise other_task (shuffle m) ≡ true

contains-append_one :
    (ks : List RelationKind) (k j : RelationKind)
    → contains (ks ++ k ∷ []) j ≡ (contains ks j || k == j)
unfolding contains
contains-append_one [] k j = ground arith
contains-append_one (i ∷ ks) k j = ground (arith, contains-append_one ks k j)

strips-push_kind :
    (id : TaskId) (k : RelationKind) (m : ByOther) (o : TaskId) (j : RelationKind)
    → strips (push_kind id k m) o j ≡ (strips m o j || (id == o && k == j))
unfolding strips push_kind any contains
strips-push_kind id k [] o j = ground arith
strips-push_kind id k ((p, ks) ∷ m) o j =
    ground (arith, strips-push_kind id k m o j, contains-append_one ks k j)

others-push_kind :
    (q : TaskId) (id : TaskId) (k : RelationKind) (m : ByOther)
    → any (λ e. e.0 == q) (push_kind id k m) ≡ (any (λ e. e.0 == q) m || id == q)
unfolding push_kind any
others-push_kind q id k [] = ground arith
others-push_kind q id k ((p, ks) ∷ m) = ground (arith, others-push_kind q id k m)

pub all-others :
    (p : TaskId) (ks : List RelationKind) (m : ByOther)
    → all (other_task (p, ks)) m ≡ not (any (λ e. e.0 == p) m)
unfolding all any
all-others p ks [] = refl
all-others p ks (e ∷ m) = ground (arith, all-others p ks m)

push_kind-once :
    (id : TaskId) (k : RelationKind) (m : ByOther)
    → pairwise other_task m ≡ true
    → pairwise other_task (push_kind id k m) ≡ true
unfolding push_kind pairwise
push_kind-once id k [] u = ground arith
push_kind-once id k ((p, ks) ∷ m) u = ground (
  arith,
  push_kind-once id k m,
  all-others p ks m,
  all-others p (ks ++ k ∷ []) m,
  all-others p ks (push_kind id k m),
  others-push_kind p id k m,
)

pub group-once :
    (id : TaskId) (rs : List TaskRelation) (m : ByOther)
    → pairwise other_task m ≡ true
    → pairwise other_task (group id rs m) ≡ true
unfolding group
group-once id [] m u = u
group-once id (r ∷ rs) m u = elim (Bool-cases (r.other == id)) [
  | inl y ↦ rw y (group-once id rs m u)
  | inr n ↦ rw n (
      group-once id rs (push_kind r.other (inverse r.kind) m)
        (push_kind-once r.other (inverse r.kind) m u))
]

pub group-others :
    (id : TaskId) (rs : List TaskRelation) (m : ByOther)
    → any (λ e. e.0 == id) m ≡ false
    → any (λ e. e.0 == id) (group id rs m) ≡ false
unfolding group
group-others id [] m u = u
group-others id (r ∷ rs) m u = elim (Bool-cases (r.other == id)) [
  | inl y ↦ rw y (group-others id rs m u)
  | inr n ↦ rw n (
      group-others id rs (push_kind r.other (inverse r.kind) m)
        (rw (others-push_kind id r.other (inverse r.kind) m, u, n) refl))
]

inverse_back : (a b : RelationKind) → (inverse a == b) ≡ (a == inverse b)
unfolding inverse
inverse_back a b = ground arith

-- The reciprocals of the removed edges to another task are stripped, and nothing else.
pub strips-group :
    (id : TaskId) (rs : List TaskRelation) (m : ByOther) (o : TaskId) (k : RelationKind)
    → strips (group id rs m) o k ≡ (strips m o k || (not (o == id) && has_edge (inverse k) o rs))
unfolding group any
strips-group id [] m o k = ground arith
strips-group id (r ∷ rs) m o k = elim (Bool-cases (r.other == id)) [
  | inl y ↦ rw y (ground (arith, strips-group id rs m o k))
  | inr n ↦ rw n (
      ground (
        arith,
        strips-group id rs (push_kind r.other (inverse r.kind) m) o k,
        strips-push_kind r.other (inverse r.kind) m o k,
        inverse_back r.kind k,
      ))
]
