-- ===== src/Task/Edits/Relations.antt =====
-- The relation edges of a task: crates/domain-task/src/task.rs and enums.rs.
use repo_link.Prelude.{
  Bool, true, false, not, List, [], ◌∷◌, ◌++◌, ◌≡◌, ◌≢◌, arith, nat_eq, refl, any, retain,
  Bool-cases, inl, inr, any-append, length-retain-lt, retain_all, any-retain,
}
use repo_link.Core.{TaskId, Timestamp}
use repo_link.Task.Enums.{RelationKind, blocked_by, relation_kind_eq, inverse}
use repo_link.Task.Snapshot.{TaskRelation}
use repo_link.Task.State.{Task}
use repo_link.Task.Edits.{is_edge, add_relation, remove_relation, blockers, is_blocked, is_blocker}

-- Taking the inverse twice gives the kind back.
pub inverse-inverse : (k : RelationKind) → inverse (inverse k) ≡ k
unfolding inverse
inverse-inverse k = ground arith

abbrev pub has_edge : RelationKind → TaskId → List TaskRelation → Bool
has_edge kind other rs = any (is_edge kind other) rs

-- Each edge stands once.
abbrev pub IsSimple : List TaskRelation → Type 0
IsSimple [] = Unit {0}
IsSimple (r ∷ rs) = (has_edge r.kind r.other rs ≡ false) × IsSimple rs

snoc-IsSimple :
    (kind : RelationKind) (other : TaskId) (rs : List TaskRelation)
    → IsSimple rs
    → has_edge kind other rs ≡ false
    → IsSimple (rs ++ (record { kind = kind; other = other } ∷ []))
unfolding any
snoc-IsSimple kind other [] h f = (refl, tt)
snoc-IsSimple kind other (r ∷ rs) h f = (
  ground
      (arith, any-append (is_edge r.kind r.other) rs (record { kind = kind; other = other } ∷ [])),
  snoc-IsSimple kind other rs h.1 (ground arith),
)

-- `add_relation` leaves each edge once if each stood once, and its edge is there after it. A
-- second call changes nothing.
add_relation_lem :
    (n m : Timestamp) (kind : RelationKind) (other : TaskId) (t : Task)
    → IsSimple t.relations
    → let t' = add_relation n kind other t in
      IsSimple t'.relations
      × (has_edge kind other t'.relations ≡ true)
      × (add_relation m kind other t' ≡ t')
unfolding add_relation any
add_relation_lem n m kind other t h = elim (Bool-cases (has_edge kind other t.relations)) [
  | inl old ↦ (rw old h, ground arith, ground arith)
  | inr new ↦
      let edge : TaskRelation = record { kind = kind; other = other } in
      let added = any-append (is_edge kind other) t.relations (edge ∷ []) in
      (
        rw new (snoc-IsSimple kind other t.relations h new),
        ground (arith, added),
        ground (arith, added),
      )
]

any-retain-not :
    (kind : RelationKind) (other : TaskId) (rs : List TaskRelation)
    → has_edge kind other (retain (λ r. not (is_edge kind other r)) rs) ≡ false
unfolding any retain
any-retain-not kind other [] = refl
any-retain-not kind other (r ∷ rs) = ground (arith, any-retain-not kind other rs)

retain-IsSimple :
    (p : TaskRelation → Bool) (rs : List TaskRelation) → IsSimple rs → IsSimple (retain p rs)
unfolding retain
retain-IsSimple p [] h = tt
retain-IsSimple p (r ∷ rs) h = elim (Bool-cases (p r)) [
  | inl keep ↦ rw keep (any-retain (is_edge r.kind r.other) p rs h.0, retain-IsSimple p rs h.1)
  | inr drop ↦ rw drop (retain-IsSimple p rs h.1)
]

not-not-any :
    (q : TaskRelation → Bool) (rs : List TaskRelation) → any (λ r. not (not (q r))) rs ≡ any q rs
unfolding any
not-not-any q [] = refl
not-not-any q (r ∷ rs) = ground (arith, not-not-any q rs)

abbrev pub is_kept : RelationKind → TaskId → TaskRelation → Bool
is_kept kind other r = not (is_edge kind other r)

pub remove_relation-relations :
    (n : Timestamp) (kind : RelationKind) (other : TaskId) (t : Task)
    → (remove_relation n kind other t).0.relations ≡ retain (is_kept kind other) t.relations
unfolding remove_relation
remove_relation-relations n kind other t = ground arith

pub remove_relation-removed :
    (n : Timestamp) (kind : RelationKind) (other : TaskId) (t : Task)
    → ((remove_relation n kind other t).1 ≡ has_edge kind other t.relations)
      × ((remove_relation n kind other t).1 ≡ false → (remove_relation n kind other t).0 ≡ t)
unfolding remove_relation
remove_relation-removed n kind other t =
    let p = is_kept kind other in
    ground (
      arith,
      not-not-any (is_edge kind other) t.relations,
      length-retain-lt p t.relations,
      retain_all p t.relations,
    )

-- `remove_relation` takes its edge away, leaves each other edge once if each stood once, and says
-- whether the edge was there. If it was not, the task is unchanged.
remove_relation_lem :
    (n : Timestamp) (kind : RelationKind) (other : TaskId) (t : Task)
    → IsSimple t.relations
    → let (t', removed) = remove_relation n kind other t in
      IsSimple t'.relations
      × (has_edge kind other t'.relations ≡ false)
      × (removed ≡ has_edge kind other t.relations)
      × (removed ≡ false → t' ≡ t)
remove_relation_lem n kind other t h =
    let (flag, same) = remove_relation-removed n kind other t in
    (
      rw (remove_relation-relations n kind other t)
          (retain-IsSimple (is_kept kind other) t.relations h),
      rw (remove_relation-relations n kind other t) (any-retain-not kind other t.relations),
      flag,
      same,
    )

retain_snoc :
    (kind : RelationKind) (other : TaskId) (rs : List TaskRelation)
    → has_edge kind other rs ≡ false
    → retain (is_kept kind other) (rs ++ (record { kind = kind; other = other } ∷ [])) ≡ rs
unfolding retain any
retain_snoc kind other [] h = ground arith
retain_snoc kind other (r ∷ rs) h = ground (arith, retain_snoc kind other rs)

add_relation-relations :
    (n : Timestamp) (kind : RelationKind) (other : TaskId) (t : Task)
    → has_edge kind other t.relations ≡ false
    → (add_relation n kind other t).relations
      ≡ t.relations ++ (record { kind = kind; other = other } ∷ [])
unfolding add_relation
add_relation-relations n kind other t h = ground arith

-- Removing an edge that was just added gives the old edges back, in their order.
pub remove_relation-add_relation :
    (n m : Timestamp) (kind : RelationKind) (other : TaskId) (t : Task)
    → has_edge kind other t.relations ≡ false
    → (remove_relation m kind other (add_relation n kind other t)).0.relations ≡ t.relations
remove_relation-add_relation n m kind other t h =
    rw (remove_relation-relations m kind other (add_relation n kind other t))
      (rw (add_relation-relations n kind other t h) (retain_snoc kind other t.relations h))

blocked_empty :
    (rs : List TaskRelation)
    → (any is_blocker rs ≡ false → retain is_blocker rs ≡ [])
      × (any is_blocker rs ≡ true → retain is_blocker rs ≢ [])
unfolding any retain
blocked_empty [] = ground arith
blocked_empty (r ∷ rs) = ground (arith, blocked_empty rs)

edge_blocks :
    (other : TaskId) (rs : List TaskRelation)
    → has_edge blocked_by other rs ≡ true
    → any is_blocker rs ≡ true
unfolding any
edge_blocks other [] h = h
edge_blocks other (r ∷ rs) h = ground (arith, edge_blocks other rs)

-- A task is blocked exactly when it has blockers, and an edge `blocked_by` makes it so.
pub is_blocked-blockers :
    (now : Timestamp) (other : TaskId) (t : Task)
    → (is_blocked t ≡ false → blockers t ≡ [])
      × (is_blocked t ≡ true → blockers t ≢ [])
      × (is_blocked (add_relation now blocked_by other t) ≡ true)
unfolding is_blocked blockers add_relation any
is_blocked-blockers now other t =
    let edge : TaskRelation = record { kind = blocked_by; other = other } in
    ground (
      arith,
      blocked_empty t.relations,
      any-append is_blocker t.relations (edge ∷ []),
      edge_blocks other t.relations,
    )
