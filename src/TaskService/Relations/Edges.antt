-- ===== src/TaskService/Relations/Edges.antt =====
-- What the saves of a batch do to the edges of the relation graph: crates/infra-sqlite/src/task_repo.rs.
use repo_link.Prelude.{
  Bool, true, false, not, ◌&&◌, ◌||◌, Option, none, some, List, [], ◌∷◌, ◌≡◌, refl, arith, sym,
  subst, ap, ◌∙◌, if◌then◌else◌, ◌==◌, nat_eq, find, any, all, all_mono, any-append, retain,
  Bool-cases, inl, inr, pairwise,
}
use repo_link.Core.{TaskId, Timestamp}
use repo_link.Task.Enums.{RelationKind, relation_kind_eq}
use repo_link.Task.Snapshot.{TaskRelation}
use repo_link.Task.Snapshot.Source.{SnapshotSource}
use repo_link.Task.State.{Task}
use repo_link.Task.Edits.{is_edge, add_relation, remove_relation}
use repo_link.Task.Edits.Relations.{has_edge, remove_relation-relations, is_kept}
use repo_link.TaskRepo.{TaskStore, upsert, replaced, save, stored, get, hydrate}
use repo_link.TaskRepo.Saved.{found-some}
use repo_link.TaskRepo.Unique.{apart, is_unique, Change-is_unique, saved}
use repo_link.TaskService.{save_many}
use repo_link.Outbound.Enqueue.{and_then}

-- A task `n` points at `p` by an edge of the kind.
unfoldable pub edge_of : List Task → TaskId → RelationKind → TaskId → Bool
unfolding any
edge_of rows n k p = any (λ r. r.id == n && has_edge k p r.relations) rows

-- The edges once a task is written.
abbrev pub Graph : Type 0
Graph = TaskId → RelationKind → TaskId → Bool

abbrev pub put : Task → Graph → Graph
put t g n k p = if t.id == n then has_edge k p t.relations else g n k p

abbrev pub put_all : List Task → Graph → Graph
put_all [] g = g
put_all (t ∷ ts) g = put_all ts (put t g)

apart_from :
    (id : TaskId) (x z : Task) → (x.id == id) ≡ true → apart x z ≡ true → not (z.id == id) ≡ true
unfolding apart
apart_from id x z y c = ground arith

edge_of-absent :
    (n : TaskId) (k : RelationKind) (p : TaskId) (rows : List Task)
    → all (λ x. not (x.id == n)) rows ≡ true
    → edge_of rows n k p ≡ false
unfolding edge_of any all
edge_of-absent n k p [] h = refl
edge_of-absent n k p (r ∷ rows) h = ground (arith, edge_of-absent n k p rows)

edge_of-upsert :
    (t : Task) (rows : List Task) (n : TaskId) (k : RelationKind) (p : TaskId)
    → is_unique rows ≡ true
    → edge_of (upsert t rows) n k p ≡ put t (edge_of rows) n k p
unfolding upsert edge_of any replaced pairwise
edge_of-upsert t [] n k p u = ground arith
edge_of-upsert t (r ∷ rows) n k p u = elim (Bool-cases (r.id == t.id)) [
  | inl y ↦
      let others : all (λ x. not (x.id == t.id)) rows ≡ true =
        all_mono (apart r) _ rows (λ x c. apart_from t.id r x y c) (ground arith) in
      ground (arith, edge_of-absent t.id k p rows)
  | inr d ↦ ground (arith, edge_of-upsert t rows n k p)
]

-- The edges of a task that is read are those of its row.
edge_of-found :
    (id : TaskId) (rows : List Task) (r : Task) (k : RelationKind) (p : TaskId)
    → is_unique rows ≡ true
    → find (λ x. x.id == id) rows ≡ some r
    → edge_of rows id k p ≡ has_edge k p r.relations
unfolding find edge_of any pairwise
edge_of-found id [] r k p u h = cc
edge_of-found id (x ∷ rows) r k p u h = elim (Bool-cases (x.id == id)) [
  | inl y ↦
      let others : all (λ z. not (z.id == id)) rows ≡ true =
        all_mono (apart x) _ rows (λ z c. apart_from id x z y c) (ground arith) in
      ground (arith, edge_of-absent id k p rows)
  | inr d ↦ ground (arith, edge_of-found id rows r k p)
]

pub get-edges :
    (s : TaskStore) (id : TaskId) (t : Task) (k : RelationKind) (p : TaskId)
    → is_unique s.rows ≡ true
    → get id s ≡ some t
    → edge_of s.rows id k p ≡ has_edge k p t.relations
unfolding get hydrate
get-edges s id t k p u h =
    let (r, e, d) = found-some (find (λ x. x.id == id) s.rows) _ t h in
    edge_of-found id s.rows r k p u e ∙ ap (λ (x : Task). has_edge k p x.relations) (sym d)

and_then-some {ℓ κ} :
    {A : Type ℓ} {B : Type κ} (o : Option A) (f : A → Option B) (b : B)
    → and_then o f ≡ some b
    → (a : A) × (o ≡ some a) × (f a ≡ some b)
and_then-some none f b h = absurd (ground arith)
and_then-some (some a) f b h = (a, refl, h)

pub saved-edges :
    (at : Timestamp) (source : SnapshotSource) (t : Task) (s m : TaskStore) (g : Graph) (n : TaskId)
    (k : RelationKind) (p : TaskId)
    → save at source t s ≡ some m
    → is_unique s.rows ≡ true
    → edge_of s.rows n k p ≡ g n k p
    → edge_of m.rows n k p ≡ put t g n k p
unfolding save stored
saved-edges at source t s m g n k p h u e =
    let same : stored at source t s ≡ m = ground arith in
    ap (λ (z : TaskStore). edge_of z.rows n k p) (sym same)
    ∙ edge_of-upsert t s.rows n k p u
    ∙ ap (λ b. if t.id == n then has_edge k p t.relations else b) e

-- After a batch is saved, the edges are those of the batch, a later task over an earlier one, and
-- else those of before.
pub save_many-Graph :
    (clock : TaskId → Timestamp) (source : SnapshotSource) (ts : List Task) (s s' : TaskStore)
    (g : Graph)
    → save_many clock source ts s ≡ some s'
    → is_unique s.rows ≡ true
    → ((n : TaskId) (k : RelationKind) (p : TaskId) → edge_of s.rows n k p ≡ g n k p)
    → (is_unique s'.rows ≡ true)
      × ((n : TaskId) (k : RelationKind) (p : TaskId) → edge_of s'.rows n k p ≡ put_all ts g n k p)
unfolding save_many
save_many-Graph clock source [] s s' g h u e =
    let same : s ≡ s' = ground arith in
    (
      subst (λ z. is_unique z.rows ≡ true) same u,
      λ n k p. subst (λ (z : TaskStore). edge_of z.rows n k p ≡ g n k p) same (e n k p),
    )
save_many-Graph clock source (t ∷ ts) s s' g h u e =
    let (m, a, b) = and_then-some (save (clock t.id) source t s) _ s' h in
    save_many-Graph clock source ts m s' (put t g) b
      (Change-is_unique (saved (clock t.id) source t m a) u)
      (λ n k p. saved-edges (clock t.id) source t s m g n k p a u (e n k p))

has_edge_same :
    (kind k : RelationKind) (other p : TaskId) (rs : List TaskRelation)
    → (k == kind && p == other) ≡ true
    → has_edge k p rs ≡ has_edge kind other rs
unfolding any
has_edge_same kind k other p [] h = refl
has_edge_same kind k other p (r ∷ rs) h = ground (arith, has_edge_same kind k other p rs)

-- An added edge is there, with those of before; a removed one is gone, and the others stay.
pub has_edge-add_relation :
    (now : Timestamp) (kind k : RelationKind) (other p : TaskId) (t : Task)
    → has_edge k p (add_relation now kind other t).relations
      ≡ (has_edge k p t.relations || (k == kind && p == other))
unfolding add_relation any
has_edge-add_relation now kind k other p t =
    let edge : TaskRelation = record { kind = kind; other = other } in
    ground (
      arith,
      any-append (is_edge k p) t.relations (edge ∷ []),
      has_edge_same kind k other p t.relations,
    )

has_edge-retain :
    (kind k : RelationKind) (other p : TaskId) (rs : List TaskRelation)
    → has_edge k p (retain (is_kept kind other) rs)
      ≡ (has_edge k p rs && not (k == kind && p == other))
unfolding any retain
has_edge-retain kind k other p [] = refl
has_edge-retain kind k other p (r ∷ rs) = ground (arith, has_edge-retain kind k other p rs)

pub has_edge-remove_relation :
    (now : Timestamp) (kind k : RelationKind) (other p : TaskId) (t : Task)
    → has_edge k p (remove_relation now kind other t).0.relations
      ≡ (has_edge k p t.relations && not (k == kind && p == other))
has_edge-remove_relation now kind k other p t =
    rw (remove_relation-relations now kind other t) (has_edge-retain kind k other p t.relations)
