-- ===== src/TaskService/Relations/Graph.antt =====
-- What adding and removing a relation does to the relation graph:
-- crates/application-task/src/service.rs.
use repo_link.Prelude.{
  Bool, true, false, not, ◌&&◌, ◌||◌, some, List, [], ◌∷◌, ◌++◌, ◌≡◌, refl, arith, sym, subst, ap,
  ◌∙◌, if◌then◌else◌, ◌==◌, nat_eq, Bool-cases, inl, inr,
}
use repo_link.Core.{TaskId, Timestamp}
use repo_link.Task.Enums.{RelationKind, inverse, relation_kind_eq}
use repo_link.Task.Snapshot.Source.{local_edit}
use repo_link.Task.State.{Task}
use repo_link.Task.Edits.{add_relation, remove_relation}
use repo_link.Task.Edits.Relations.{has_edge, remove_relation-removed}
use repo_link.TaskRepo.{TaskStore, get}
use repo_link.TaskRepo.Unique.{is_unique}
use repo_link.TaskService.{done, Directory, Stores}
use repo_link.TaskService.Relations.{Clock, changed, relate, unrelate}
use repo_link.TaskService.Relations.Edges.{
  edge_of, Graph, put, put_all, get-edges, save_many-Graph, has_edge-add_relation,
  has_edge-remove_relation,
}
use repo_link.TaskService.Relations.Succeeded.{relate-done, unrelate-done}

-- A side that is saved only if it changed is as one that is saved.
put-changed :
    (x : Task × Bool) (t : Task) (g : Graph)
    → (x.1 ≡ false → x.0 ≡ t)
    → (x.0.id ≡ t.id)
    → ((k : RelationKind) (p : TaskId) → g t.id k p ≡ has_edge k p t.relations)
    → (n : TaskId) (k : RelationKind) (p : TaskId) → put_all (changed x) g n k p ≡ put x.0 g n k p
put-changed (x, true) t g f i e n k p = refl
put-changed (x, false) t g f i e n k p =
    let same : x ≡ t = f refl in
    subst (λ (z : Task). g n k p ≡ put z g n k p) (sym same)
      (elim (Bool-cases (t.id == n)) [
        | inl y ↦
            let at : t.id ≡ n = ground arith in
            subst (λ m. g m k p ≡ put t g m k p) at (rw (e k p) (ground arith))
        | inr d ↦ ground arith
      ])

-- Each edge has its reciprocal.
abbrev pub IsMirrored : TaskStore → Type 0
IsMirrored s =
    (n : TaskId) (k : RelationKind) (p : TaskId)
    → edge_of s.rows n k p ≡ edge_of s.rows p (inverse k) n

-- The edge of a kind from `a` to `b`, and its reciprocal.
unfoldable pub joins : RelationKind → TaskId → TaskId → Graph
unfolding inverse
joins kind a b n k p = (n == a && k == kind && p == b) || (n == b && k == inverse kind && p == a)

-- The two tasks as a service read them.
pub record Ends (s : TaskStore) (t other : Task) : Type 0 where
  pub here : get t.id s ≡ some t
  pub there : get other.id s ≡ some other

add_relation-id :
    (now : Timestamp) (kind : RelationKind) (p : TaskId) (t : Task)
    → (add_relation now kind p t).id ≡ t.id
unfolding add_relation
add_relation-id now kind p t = ground arith

relate-put :
    (clock : Clock) (kind : RelationKind) (t other : Task) (g : Graph)
    → (other.id == t.id) ≡ false
    → ((k : RelationKind) (p : TaskId) → g t.id k p ≡ has_edge k p t.relations)
    → ((k : RelationKind) (p : TaskId) → g other.id k p ≡ has_edge k p other.relations)
    → (n : TaskId) (k : RelationKind) (p : TaskId)
    → put_all
        (add_relation (clock.edited t.id) kind other.id t
          ∷ add_relation (clock.edited other.id) (inverse kind) t.id other
          ∷ [])
        g
        n
        k
        p
      ≡ (g n k p || joins kind t.id other.id n k p)
unfolding joins
relate-put clock kind t other g d e f n k p =
    rw
      (
        add_relation-id (clock.edited t.id) kind other.id t,
        add_relation-id (clock.edited other.id) (inverse kind) t.id other,
        has_edge-add_relation (clock.edited t.id) kind k other.id p t,
        has_edge-add_relation (clock.edited other.id) (inverse kind) k t.id p other,
        ← e k p,
        ← f k p,
      )
      (ground arith)

pub remove_relation-id :
    (now : Timestamp) (kind : RelationKind) (p : TaskId) (t : Task)
    → (remove_relation now kind p t).0.id ≡ t.id
unfolding remove_relation
remove_relation-id now kind p t = ground arith

unrelate-put :
    (clock : Clock) (kind : RelationKind) (t other : Task) (g : Graph)
    → (other.id == t.id) ≡ false
    → ((k : RelationKind) (p : TaskId) → g t.id k p ≡ has_edge k p t.relations)
    → ((k : RelationKind) (p : TaskId) → g other.id k p ≡ has_edge k p other.relations)
    → (n : TaskId) (k : RelationKind) (p : TaskId)
    → put
        (remove_relation (clock.edited other.id) (inverse kind) t.id other).0
        (put (remove_relation (clock.edited t.id) kind other.id t).0 g)
        n
        k
        p
      ≡ (g n k p && not (joins kind t.id other.id n k p))
unfolding joins
unrelate-put clock kind t other g d e f n k p =
    rw
      (
        remove_relation-id (clock.edited t.id) kind other.id t,
        remove_relation-id (clock.edited other.id) (inverse kind) t.id other,
        has_edge-remove_relation (clock.edited t.id) kind k other.id p t,
        has_edge-remove_relation (clock.edited other.id) (inverse kind) k t.id p other,
        ← e k p,
        ← f k p,
      )
      (ground arith)

pub put_all-append :
    (xs ys : List Task) (g : Graph) (n : TaskId) (k : RelationKind) (p : TaskId)
    → put_all (xs ++ ys) g n k p ≡ put_all ys (put_all xs g) n k p
put_all-append [] ys g n k p = refl
put_all-append (x ∷ xs) ys g n k p = put_all-append xs ys (put x g) n k p

pub put_other :
    (x : Task) (a b : TaskId) (g : Graph) (k : RelationKind) (p : TaskId)
    → x.id ≡ a
    → (b == a) ≡ false
    → put x g b k p ≡ g b k p
put_other x a b g k p e d = ground arith

put_cong :
    (t : Task) (g h : Graph) (n : TaskId) (k : RelationKind) (p : TaskId)
    → g n k p ≡ h n k p
    → put t g n k p ≡ put t h n k p
put_cong t g h n k p e = ap (λ b. if t.id == n then has_edge k p t.relations else b) e

-- Adding a relation adds its edge and the reciprocal, and leaves every other edge of the graph.
pub relate-joins :
    (dir : Directory) (clock : Clock) (kind : RelationKind) (t other v : Task) (s s' : Stores)
    → relate dir clock kind t other s ≡ done (s', v)
    → is_unique s.tasks.rows ≡ true
    → Ends s.tasks t other
    → (is_unique s'.tasks.rows ≡ true)
      × ((n : TaskId) (k : RelationKind) (p : TaskId)
          → edge_of s'.tasks.rows n k p
            ≡ (edge_of s.tasks.rows n k p || joins kind t.id other.id n k p))
relate-joins dir clock kind t other v s s' h u ends =
    let (d, c, saved) = relate-done dir clock kind t other v s s' h in
    let g : Graph = edge_of s.tasks.rows in
    let (unique, edges) =
      save_many-Graph clock.captured local_edit _ s.tasks s'.tasks g saved u (λ n k p. refl) in
    (
      unique,
      λ n k p.
          edges n k p
          ∙ relate-put clock kind t other g d (λ k p. get-edges s.tasks t.id t k p u ends.here)
              (λ k p. get-edges s.tasks other.id other k p u ends.there) n k p,
    )

-- Removing a relation takes its edge and the reciprocal away, and leaves every other edge.
pub unrelate-joins :
    (dir : Directory) (clock : Clock) (kind : RelationKind) (t other v : Task) (s s' : Stores)
    → unrelate dir clock kind t other s ≡ done (s', v)
    → is_unique s.tasks.rows ≡ true
    → Ends s.tasks t other
    → (is_unique s'.tasks.rows ≡ true)
      × ((n : TaskId) (k : RelationKind) (p : TaskId)
          → edge_of s'.tasks.rows n k p
            ≡ (edge_of s.tasks.rows n k p && not (joins kind t.id other.id n k p)))
unrelate-joins dir clock kind t other v s s' h u ends =
    let (d, saved) = unrelate-done dir clock kind t other v s s' h in
    let a = remove_relation (clock.edited t.id) kind other.id t in
    let b = remove_relation (clock.edited other.id) (inverse kind) t.id other in
    let g : Graph = edge_of s.tasks.rows in
    let here : (k : RelationKind) (p : TaskId) → g t.id k p ≡ has_edge k p t.relations =
      λ k p. get-edges s.tasks t.id t k p u ends.here in
    let there : (k : RelationKind) (p : TaskId) → g other.id k p ≡ has_edge k p other.relations =
      λ k p. get-edges s.tasks other.id other k p u ends.there in
    let first : (n : TaskId) (k : RelationKind) (p : TaskId)
        → put_all (changed a) g n k p ≡ put a.0 g n k p =
      put-changed a t g (remove_relation-removed (clock.edited t.id) kind other.id t).1
        (remove_relation-id (clock.edited t.id) kind other.id t) here in
    let (unique, edges) =
      save_many-Graph clock.captured local_edit _ s.tasks s'.tasks g saved u (λ n k p. refl) in
    (
      unique,
      λ n k p.
          edges n k p
          ∙ put_all-append (changed a) (changed b) g n k p
          ∙ put-changed b other (put_all (changed a) g)
              (remove_relation-removed (clock.edited other.id) (inverse kind) t.id other).1
              (remove_relation-id (clock.edited other.id) (inverse kind) t.id other)
              (λ k p.
                first other.id k p
                ∙ put_other a.0 t.id other.id g k p
                    (remove_relation-id (clock.edited t.id) kind other.id t) d
                ∙ there k p)
              n k p
          ∙ put_cong b.0 (put_all (changed a) g) (put a.0 g) n k p (first n k p)
          ∙ unrelate-put clock kind t other g d here there n k p,
    )
