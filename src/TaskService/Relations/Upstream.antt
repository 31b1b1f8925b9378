-- ===== src/TaskService/Relations/Upstream.antt =====
-- The map that the guard of `add_relation` walks, read off the relation graph:
-- crates/application-task/src/service.rs.
use repo_link.Prelude.{
  Bool, true, false, ◌&&◌, ◌||◌, Option, some, List, [], ◌∷◌, ◌++◌, ◌≡◌, refl, arith, ◌∙◌, ap, ◌==◌,
  nat_eq, any, retain, map, unwrap_or, ◌↔◌,
}
use repo_link.Core.{TaskId}
use repo_link.Task.Enums.{RelationKind, relation_kind_eq}
use repo_link.Task.Snapshot.{TaskRelation}
use repo_link.Task.State.{Task}
use repo_link.Task.Edits.Relations.{has_edge}
use repo_link.TaskRepo.{TaskStore, hydrate}
use repo_link.TaskRepo.Listing.{selected, read_row, insert, sort, is_older}
use repo_link.TaskService.Cycles.{Up, up_edge, up_edges, up_of}
use repo_link.TaskService.Cycles.Walks.{is_up, Closes, Verdict, found, clear, walk_decides}
use repo_link.TaskService.Relations.{up_in, would_create_cycle}
use repo_link.TaskService.Relations.Edges.{edge_of}

is_up-append :
    (up more : Up) (n p : TaskId) → is_up (up ++ more) n p ≡ (is_up up n p || is_up more n p)
unfolding is_up
is_up-append [] more n p = refl
is_up-append ((m, q) ∷ up) more n p = ground (arith, is_up-append up more n p)

module _ (forward backward : RelationKind) (apart : (forward == backward) ≡ false) where
  is_up-up_edges :
      (id : TaskId) (rs : List TaskRelation) (n p : TaskId)
      → is_up (up_edges forward backward id rs) n p
        ≡ ((id == n && has_edge forward p rs) || (id == p && has_edge backward n rs))
  unfolding up_edges up_edge is_up any
  is_up-up_edges id [] n p = ground arith
  is_up-up_edges id (r ∷ rs) n p = ground (
    arith,
    is_up-append (up_edge forward backward id r) (up_edges forward backward id rs) n p,
    is_up-up_edges id rs n p,
  )

  is_up-up_of :
      (ts : List Task) (n p : TaskId)
      → is_up (up_of forward backward ts) n p ≡ (edge_of ts n forward p || edge_of ts p backward n)
  unfolding up_of is_up edge_of any
  is_up-up_of [] n p = refl
  is_up-up_of (t ∷ ts) n p = ground (
    arith,
    is_up-append (up_edges forward backward t.id t.relations) (up_of forward backward ts) n p,
    is_up-up_edges t.id t.relations n p,
    is_up-up_of ts n p,
  )

edge_of-insert :
    (before : Task → Task → Bool) (t : Task) (rows : List Task) (n : TaskId) (k : RelationKind)
    (p : TaskId)
    → edge_of (insert before t rows) n k p
      ≡ ((t.id == n && has_edge k p t.relations) || edge_of rows n k p)
unfolding insert edge_of any
edge_of-insert before t [] n k p = refl
edge_of-insert before t (r ∷ rows) n k p = ground (arith, edge_of-insert before t rows n k p)

edge_of-sort :
    (before : Task → Task → Bool) (rows : List Task) (n : TaskId) (k : RelationKind) (p : TaskId)
    → edge_of (sort before rows) n k p ≡ edge_of rows n k p
unfolding sort edge_of any
edge_of-sort before [] n k p = refl
edge_of-sort before (r ∷ rows) n k p =
    edge_of-insert before r (sort before rows) n k p
    ∙ ap (λ b. (r.id == n && has_edge k p r.relations) || b) (edge_of-sort before rows n k p)

edge_of-read :
    (s : TaskStore) (rows : List Task) (n : TaskId) (k : RelationKind) (p : TaskId)
    → edge_of (map (read_row s) rows) n k p ≡ edge_of rows n k p
unfolding edge_of any read_row hydrate
edge_of-read s [] n k p = refl
edge_of-read s (r ∷ rows) n k p = ground (arith, edge_of-read s rows n k p)

retain-true : (rows : List Task) → retain (λ t. true) rows ≡ rows
unfolding retain
retain-true [] = refl
retain-true (r ∷ rows) = ap (λ rs. r ∷ rs) (retain-true rows)

edge_of-listed :
    (s : TaskStore) (n : TaskId) (k : RelationKind) (p : TaskId)
    → edge_of (map (read_row s) (selected (λ t. true) is_older s)) n k p ≡ edge_of s.rows n k p
unfolding selected
edge_of-listed s n k p =
    edge_of-read s (sort is_older (retain (λ t. true) s.rows)) n k p
    ∙ edge_of-sort is_older (retain (λ t. true) s.rows) n k p
    ∙ ap (λ rows. edge_of rows n k p) (retain-true s.rows)

-- A task is upstream of another if one of them has the edge, in its own direction.
pub is_up-up_in :
    (forward backward : RelationKind) (s : TaskStore) (n p : TaskId)
    → (forward == backward) ≡ false
    → is_up (up_in forward backward s) n p
      ≡ (edge_of s.rows n forward p || edge_of s.rows p backward n)
unfolding up_in
is_up-up_in forward backward s n p d =
    rw
      (
        is_up-up_of forward backward d (map (read_row s) (selected (λ t. true) is_older s)) n p,
        edge_of-listed s n forward p,
        edge_of-listed s p backward n,
      )
      refl

verdict-decides :
    (up : Up) (x y : TaskId) (o : Option Bool)
    → Verdict up x y o
    → (b : Bool) × (o ≡ some b) × ((b ≡ true) ↔ Closes up y x)
verdict-decides up x y o (found c) = (true, refl, (λ e. c, λ d. refl))
verdict-decides up x y o (clear c) = (false, refl, (λ e. absurd (ground arith), λ d. absurd (c d)))

-- The guard ends in the rounds that it is given, with an answer: that a new edge from `x` to `y`
-- would close a cycle, exactly if `y` reaches `x` already, going upstream by at least one edge.
pub would_create_cycle-Closes :
    (forward backward : RelationKind) (x y : TaskId) (s : TaskStore)
    → (b : Bool) × (would_create_cycle forward backward x y s ≡ some b)
      × ((b ≡ true) ↔ Closes (up_in forward backward s) y x)
unfolding would_create_cycle
would_create_cycle-Closes forward backward x y s =
    verdict-decides (up_in forward backward s) x y _ (walk_decides (up_in forward backward s) x y)

-- An edge that the guard lets pass closes no cycle.
pub guard_passes :
    (forward backward : RelationKind) (x y : TaskId) (s : TaskStore)
    → unwrap_or (would_create_cycle forward backward x y s) true ≡ false
    → ¬ Closes (up_in forward backward s) y x
guard_passes forward backward x y s free c =
    let (b, e, d) = would_create_cycle-Closes forward backward x y s in
    let closing = d.1 c in absurd (ground (arith, rw (e) at free))
