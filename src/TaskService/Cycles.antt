-- ===== src/TaskService/Cycles.antt =====
-- crates/application-task/src/service.rs: the walk of `would_create_cycle`. The map `up` is the list
-- of what was pushed into it, a task and one that is upstream of it.
pub mod Walks
pub mod Acyclic
use repo_link.Prelude.{
  ℕ, zero, suc, ◌+◌, Bool, true, false, Option, none, some, List, [], ◌∷◌, ◌++◌, if◌then◌else◌,
  ◌==◌, nat_eq, contains, length,
}
use repo_link.Core.{TaskId}
use repo_link.Task.Enums.{
  RelationKind, parent_of, child_of, blocked_by, blocks, related_to, duplicates, relation_kind_eq,
}
use repo_link.Task.Snapshot.{TaskRelation}
use repo_link.Task.State.{Task}

abbrev pub Up : Type 0
Up = List (TaskId × TaskId)

-- The family of a relation and the edge as downstream and upstream end: `forward`, `inverse`, `x`, `y`.
unfoldable pub cycle_axis :
    RelationKind → TaskId → TaskId → Option (RelationKind × RelationKind × TaskId × TaskId)
cycle_axis blocked_by a b = some (blocked_by, blocks, a, b)
cycle_axis blocks a b = some (blocked_by, blocks, b, a)
cycle_axis child_of a b = some (child_of, parent_of, a, b)
cycle_axis parent_of a b = some (child_of, parent_of, b, a)
cycle_axis related_to a b = none
cycle_axis duplicates a b = none

-- What one relation of a task puts into the map.
unfoldable pub up_edge : RelationKind → RelationKind → TaskId → TaskRelation → Up
up_edge forward inverse id r =
    if r.kind == forward
    then (id, r.other) ∷ []
    else if r.kind == inverse
    then (r.other, id) ∷ []
    else []

unfoldable pub up_edges : RelationKind → RelationKind → TaskId → List TaskRelation → Up
unfolding up_edge
up_edges forward inverse id [] = []
up_edges forward inverse id (r ∷ rs) =
    up_edge forward inverse id r ++ up_edges forward inverse id rs

unfoldable pub up_of : RelationKind → RelationKind → List Task → Up
unfolding up_edges
up_of forward inverse [] = []
up_of forward inverse (t ∷ ts) =
    up_edges forward inverse t.id t.relations ++ up_of forward inverse ts

-- `up.get(&n)`
unfoldable pub parents : TaskId → Up → List TaskId
parents n [] = []
parents n ((m, p) ∷ up) = let rest = parents n up in if m == n then p ∷ rest else rest

-- The inner loop: `none` if `x` is among the parents, else the stack with them pushed.
unfoldable pub push_parents : TaskId → List TaskId → List TaskId → Option (List TaskId)
push_parents x [] stack = some stack
push_parents x (p ∷ ps) stack =
    let rest = push_parents x ps (p ∷ stack) in if p == x then none else rest

-- The outer loop, on fuel, with the stack or that `x` was found.
unfoldable pub walk : ℕ → TaskId → Up → Option (List TaskId) → List TaskId → Option Bool
unfolding contains push_parents parents
walk fuel x up none visited = some true
walk fuel x up (some []) visited = some false
walk zero x up (some (n ∷ stack)) visited = none
walk (suc fuel) x up (some (n ∷ stack)) visited =
    let skipped = walk fuel x up (some stack) visited in
    let entered = walk fuel x up (push_parents x (parents n up) stack) (n ∷ visited) in
    if contains visited n then skipped else entered

-- Each round takes an entry from the stack, and each edge is pushed once.
abbrev pub enough : Up → ℕ
enough up = length up + 1
