-- ===== src/TaskService/Relations/Kept.antt =====
-- The relation graph stays mirrored, and its two directed families stay free of cycles:
-- crates/application-task/src/service.rs.
use repo_link.Prelude.{
  Bool, true, false, not, ◌&&◌, ◌||◌, Option, some, [], ◌≡◌, refl, arith, sym, ◌∙◌, ap, ◌==◌,
  nat_eq, pairwise, any,
}
use repo_link.Prelude.Text.{Text}
use repo_link.Core.{TaskId, Timestamp}
use repo_link.Task.Enums.{
  RelationKind, parent_of, child_of, blocked_by, blocks, inverse, relation_kind_eq,
}
use repo_link.Task.Snapshot.Source.{SnapshotSource}
use repo_link.Task.State.{Task}
use repo_link.Task.Edits.Relations.{has_edge}
use repo_link.TaskRepo.{TaskStore, save}
use repo_link.TaskRepo.Unique.{is_unique, Change-is_unique, saved}
use repo_link.TaskService.{done, Directory, Stores, resolve_task}
use repo_link.TaskService.Answers.{bind-done}
use repo_link.TaskService.Resolved.{resolve_task-get}
use repo_link.TaskService.Relations.Commands.{ByOther, add, remove, clear}
use repo_link.TaskService.Relations.Commands.Groups.{IsOrder}
use repo_link.TaskService.Relations.Commands.Emptied.{clear_relations-Emptied}
use repo_link.TaskService.Cycles.Acyclic.{IsAcyclic}
use repo_link.TaskService.Relations.{Clock, up_in, relate}
use repo_link.TaskService.Relations.Edges.{edge_of, saved-edges, Graph, put}
use repo_link.TaskService.Relations.Graph.{joins, Ends, relate-joins, unrelate-joins, IsMirrored}
use repo_link.TaskService.Relations.Succeeded.{relate-done}
use repo_link.TaskService.Relations.Families.{
  fewer-IsAcyclic, related-blocking, related-ancestry, blocking_apart, ancestry_apart,
}
use repo_link.TaskService.Relations.Upstream.{is_up-up_in}

pub record IsSound (s : TaskStore) : Type 0 where
  pub unique : is_unique s.rows ≡ true
  pub mirrored : IsMirrored s
  pub blocking : IsAcyclic (up_in blocked_by blocks s)
  pub ancestry : IsAcyclic (up_in child_of parent_of s)

inverse_eq :
    (k kind : RelationKind)
    → ((inverse k == inverse kind) ≡ (k == kind)) × ((inverse k == kind) ≡ (k == inverse kind))
unfolding inverse
inverse_eq k kind = ground arith

joins-mirror :
    (kind : RelationKind) (a b n : TaskId) (k : RelationKind) (p : TaskId)
    → joins kind a b n k p ≡ joins kind a b p (inverse k) n
unfolding joins
joins-mirror kind a b n k p = ground (arith, inverse_eq k kind)

-- What changes the stores: a command on relations, or a save of a task with the edges that it has.
pub data Turn (s : Stores) : Stores → Type 0 where
  added :
      (parse : Text → Option TaskId) (dir : Directory) (clock : Clock) (kind : RelationKind)
      (task_id other_id : Text) (v : Task) (s' : Stores)
      → add parse dir clock kind task_id other_id s ≡ done (s', v)
      → Turn s s'
  removed :
      (parse : Text → Option TaskId) (dir : Directory) (clock : Clock) (kind : RelationKind)
      (task_id other_id : Text) (v : Task) (s' : Stores)
      → remove parse dir clock kind task_id other_id s ≡ done (s', v)
      → Turn s s'
  emptied :
      (parse : Text → Option TaskId) (shuffle : ByOther → ByOther) (dir : Directory) (clock : Clock)
      (task_id : Text) (v : Task) (s' : Stores)
      → IsOrder shuffle
      → clear parse shuffle dir clock task_id s ≡ done (s', v)
      → Turn s s'
  edited :
      (at : Timestamp) (source : SnapshotSource) (t : Task) (s' : Stores)
      → ((k : RelationKind) (p : TaskId) → edge_of s.tasks.rows t.id k p ≡ has_edge k p t.relations)
      → save at source t s.tasks ≡ some s'.tasks
      → Turn s s'

-- A graph with the same edges is as sound.
same_edges-IsSound :
    (s s' : TaskStore)
    → is_unique s'.rows ≡ true
    → ((n : TaskId) (k : RelationKind) (p : TaskId) → edge_of s'.rows n k p ≡ edge_of s.rows n k p)
    → IsSound s
    → IsSound s'
same_edges-IsSound s s' u same i = record {
  unique = u;
  mirrored = λ n k p. same n k p ∙ i.mirrored n k p ∙ sym (same p (inverse k) n);
  blocking =
      fewer-IsAcyclic s s' blocked_by blocks blocking_apart (λ n k p e. sym (same n k p) ∙ e)
        i.blocking;
  ancestry =
      fewer-IsAcyclic s s' child_of parent_of ancestry_apart (λ n k p e. sym (same n k p) ∙ e)
        i.ancestry;
}

put_same :
    (t : Task) (g : Graph)
    → ((k : RelationKind) (p : TaskId) → g t.id k p ≡ has_edge k p t.relations)
    → (n : TaskId) (k : RelationKind) (p : TaskId) → put t g n k p ≡ g n k p
put_same t g kept n k p = ground (arith, kept k p)

related-IsSound :
    (dir : Directory) (clock : Clock) (kind : RelationKind) (t other v : Task) (s s' : Stores)
    → Ends s.tasks t other
    → relate dir clock kind t other s ≡ done (s', v)
    → IsSound s.tasks
    → IsSound s'.tasks
related-IsSound dir clock kind t other v s s' ends h i =
    let (d, free, saving) = relate-done dir clock kind t other v s s' h in
    let (u, edges) = relate-joins dir clock kind t other v s s' h i.unique ends in
    record {
      unique = u;
      mirrored = λ n k p.
          edges n k p
          ∙ ap (λ b. b || joins kind t.id other.id n k p) (i.mirrored n k p)
          ∙ ap (λ b. edge_of s.tasks.rows p (inverse k) n || b)
              (joins-mirror kind t.id other.id n k p)
          ∙ sym (edges p (inverse k) n);
      blocking = related-blocking s.tasks s'.tasks t.id other.id d kind edges free i.blocking;
      ancestry = related-ancestry s.tasks s'.tasks t.id other.id d kind edges free i.ancestry;
    }

-- A graph with fewer edges is as sound, if it is mirrored.
fewer-IsSound :
    (s s' : TaskStore) (gone : TaskId → RelationKind → TaskId → Bool)
    → is_unique s'.rows ≡ true
    → ((n : TaskId) (k : RelationKind) (p : TaskId)
        → edge_of s'.rows n k p ≡ (edge_of s.rows n k p && not (gone n k p)))
    → ((n : TaskId) (k : RelationKind) (p : TaskId) → gone n k p ≡ gone p (inverse k) n)
    → IsSound s
    → IsSound s'
fewer-IsSound s s' gone u edges mirror i =
    let fewer : (n : TaskId) (k : RelationKind) (p : TaskId)
        → edge_of s'.rows n k p ≡ true
        → edge_of s.rows n k p ≡ true =
      λ n k p e. ground (arith, edges n k p) in
    record {
      unique = u;
      mirrored = λ n k p.
          edges n k p
          ∙ ap (λ b. b && not (gone n k p)) (i.mirrored n k p)
          ∙ ap (λ b. edge_of s.rows p (inverse k) n && not b) (mirror n k p)
          ∙ sym (edges p (inverse k) n);
      blocking = fewer-IsAcyclic s s' blocked_by blocks blocking_apart fewer i.blocking;
      ancestry = fewer-IsAcyclic s s' child_of parent_of ancestry_apart fewer i.ancestry;
    }

either_end : (id n p : TaskId) → (n == id || p == id) ≡ (p == id || n == id)
either_end id n p = ground arith

-- What an operation leaves is sound, if what it found was.
pub Turn-IsSound : {s s' : Stores} → Turn s s' → IsSound s.tasks → IsSound s'.tasks
unfolding add remove clear
Turn-IsSound {s} (added parse dir clock kind a b v s' h) i =
    let (t, at, g) = bind-done (resolve_task parse dir a s.tasks) _ (s', v) h in
    let (other, there, k) = bind-done (resolve_task parse dir b s.tasks) _ (s', v) g in
    related-IsSound dir clock kind t other v s s'
      (record {
        here = resolve_task-get parse dir a s.tasks t at;
        there = resolve_task-get parse dir b s.tasks other there;
      })
      k i
Turn-IsSound {s} (removed parse dir clock kind a b v s' h) i =
    let (t, at, g) = bind-done (resolve_task parse dir a s.tasks) _ (s', v) h in
    let (other, there, k) = bind-done (resolve_task parse dir b s.tasks) _ (s', v) g in
    let (u, edges) = unrelate-joins dir clock kind t other v s s' k i.unique (record {
      here = resolve_task-get parse dir a s.tasks t at;
      there = resolve_task-get parse dir b s.tasks other there;
    }) in
    fewer-IsSound s.tasks s'.tasks (joins kind t.id other.id) u edges
      (joins-mirror kind t.id other.id) i
Turn-IsSound {s} (emptied parse shuffle dir clock a v s' order h) i =
    let (t, at, g) = bind-done (resolve_task parse dir a s.tasks) _ (s', v) h in
    let (u, edges) =
      clear_relations-Emptied shuffle dir clock t v s s' order g i.mirrored i.unique
        (resolve_task-get parse dir a s.tasks t at) in
    fewer-IsSound s.tasks s'.tasks (λ n k p. n == t.id || p == t.id) u edges
      (λ n k p. either_end t.id n p) i
Turn-IsSound {s} (edited at source t s' kept h) i =
    same_edges-IsSound s.tasks s'.tasks (Change-is_unique (saved at source t s'.tasks h) i.unique)
      (λ n k p.
        saved-edges at source t s.tasks s'.tasks (edge_of s.tasks.rows) n k p h i.unique refl
        ∙ put_same t (edge_of s.tasks.rows) kept n k p)
      i

abbrev pub empty : TaskStore
empty = record { rows = []; history = [] }

pub data Served : Stores → Type 0 where
  start : Served (record { tasks = empty; outbox = [] })
  next : {s s' : Stores} → Served s → Turn s s' → Served s'

-- In all stores that the operations make of empty ones, every edge has its reciprocal, neither the
-- blocks nor the ancestry have a cycle, and the rows are apart. An operation adds, removes or clears
-- relations, or saves a task with the edges that it has.
pub Served-IsSound : {s : Stores} → Served s → IsSound s.tasks
unfolding pairwise edge_of any
Served-IsSound start =
    let none_up : (f b : RelationKind) → (f == b) ≡ false → IsAcyclic (up_in f b empty) = λ f b d.
      record {
        no_loop = λ n c.
            let e = is_up-up_in f b empty c.last n d in let edge = c.edge in absurd (ground arith);
      } in
    record {
      unique = refl;
      mirrored = λ n k p. refl;
      blocking = none_up blocked_by blocks blocking_apart;
      ancestry = none_up child_of parent_of ancestry_apart;
    }
Served-IsSound (next r t) = Turn-IsSound t (Served-IsSound r)
