-- ===== src/TaskService/Relations/Commands.antt =====
-- crates/application-task/src/service.rs: the commands on relations, from the texts that name the
-- tasks. The kind is parsed already. `clear_relations` groups the removed edges in a hash map, whose
-- order is a parameter.
pub mod Groups
pub mod Cleared
pub mod Emptied
use repo_link.Prelude.{
  ℕ, zero, suc, Bool, true, false, not, ◌&&◌, ◌||◌, Option, none, some, List, [], ◌∷◌, ◌++◌,
  if◌then◌else◌, ◌==◌, nat_eq, find, is_none,
}
use repo_link.Prelude.Text.{Text}
use repo_link.Core.{TaskId, Timestamp}
use repo_link.Task.Enums.{RelationKind, inverse}
use repo_link.Task.Snapshot.{TaskRelation}
use repo_link.Task.State.{Task}
use repo_link.Task.Edits.{remove_relation, clear_relations}
use repo_link.Sync.Outbox.{OutboxEntry}
use repo_link.TaskRepo.{TaskStore, get}
use repo_link.Outbound.Enqueue.{Address, relation_mutation, and_then}
use repo_link.TaskService.{
  Answer, done, failed, ◌>>=◌, or_fail, not_found, Directory, Stores, resolve_task,
  relation_remote_coords,
}
use repo_link.TaskService.Relations.{Clock, entry_of, saved_as, relate, unrelate}

unfoldable pub add :
    (Text → Option TaskId)
    → Directory
    → Clock
    → RelationKind
    → Text
    → Text
    → Stores
    → Answer (Stores × Task)
unfolding resolve_task relate
add parse dir clock kind task_id other_id s = do
  t ← resolve_task parse dir task_id s.tasks
  other ← resolve_task parse dir other_id s.tasks
  relate dir clock kind t other s

unfoldable pub remove :
    (Text → Option TaskId)
    → Directory
    → Clock
    → RelationKind
    → Text
    → Text
    → Stores
    → Answer (Stores × Task)
unfolding resolve_task unrelate
remove parse dir clock kind task_id other_id s = do
  t ← resolve_task parse dir task_id s.tasks
  other ← resolve_task parse dir other_id s.tasks
  unrelate dir clock kind t other s

-- `by_other`: the reciprocal kinds to strip, by the other task.
abbrev pub ByOther : Type 0
ByOther = List (TaskId × List RelationKind)

unfoldable pub push_kind : TaskId → RelationKind → ByOther → ByOther
push_kind id k [] = (id, k ∷ []) ∷ []
push_kind id k ((o, ks) ∷ by_other) =
    if o == id then (o, ks ++ k ∷ []) ∷ by_other else (o, ks) ∷ push_kind id k by_other

unfoldable pub group : TaskId → List TaskRelation → ByOther → ByOther
unfolding push_kind inverse
group id [] by_other = by_other
group id (r ∷ rs) by_other =
    group id rs (if r.other == id then by_other else push_kind r.other (inverse r.kind) by_other)

-- The loop over the reciprocal kinds of one other task.
unfoldable pub strip : Timestamp → TaskId → List RelationKind → Task × Bool → Task × Bool
unfolding remove_relation
strip now id [] (other, is_changed) = (other, is_changed)
strip now id (k ∷ ks) (other, is_changed) =
    let removed = remove_relation now k id other in
    strip now id ks (removed.0, is_changed || removed.1)

-- `relation_remote_coords_cached`: none for a task whose workspace is missing.
unfoldable pub relation_remote_coords_cached : Directory → Task → Answer (Option Address)
unfolding relation_remote_coords
relation_remote_coords_cached dir t =
    if is_none (find (λ w. w.id == t.workspace_id) dir.workspaces)
    then done none
    else relation_remote_coords dir t

-- The other tasks that changed, and the issue of each other task.
pub record Stripped : Type 0 where
  pub others_changed : List Task
  pub coords_by_other : List (TaskId × Option Address)

unfoldable pub strip_all :
    Directory → Clock → TaskStore → TaskId → ByOther → Stripped → Answer Stripped
unfolding get strip relation_remote_coords_cached
strip_all dir clock s id [] out = done out
strip_all dir clock s id ((other_id, kinds) ∷ rest) out = do
  other ← or_fail not_found (get other_id s)
  let stripped = strip (clock.edited other.id) id kinds (other, false)
  coords ← relation_remote_coords_cached dir stripped.0
  strip_all dir clock s id rest (record {
    others_changed = out.others_changed ++ (if stripped.1 then stripped.0 ∷ [] else []);
    coords_by_other = out.coords_by_other ++ (other.id, coords) ∷ [];
  })

-- The un-links of the removed edges, one for each whose other task has an issue.
unfoldable pub unlinks :
    Clock
    → ℕ
    → TaskId
    → Option Address
    → List (TaskId × Option Address)
    → List TaskRelation
    → List OutboxEntry
unfolding entry_of relation_mutation find
unlinks clock k id here coords [] = []
unlinks clock k id here coords (r ∷ rs) =
    let there = and_then (find (λ c. c.0 == r.other) coords) (λ c. c.1) in
    let mutation = and_then here (λ a. and_then there (λ b. relation_mutation r.kind false a b)) in
    (if r.other == id then [] else entry_of clock k id mutation)
    ++ unlinks clock (suc k) id here coords rs

-- `clear_relations`, once the task is resolved; nothing is saved for a task without relations.
unfoldable pub cleared :
    (ByOther → ByOther)
    → Directory
    → Clock
    → Task × List TaskRelation
    → Stores
    → Answer (Stores × Task)
unfolding group strip_all relation_remote_coords_cached unlinks saved_as
cleared shuffle dir clock (t, []) s = done (s, t)
cleared shuffle dir clock (t, r ∷ rs) s = do
  out ←
      strip_all dir clock s.tasks t.id (shuffle (group t.id (r ∷ rs) []))
        (record { others_changed = []; coords_by_other = [] })
  here ← relation_remote_coords_cached dir t
  saved_as clock t (t ∷ out.others_changed) (unlinks clock 0 t.id here out.coords_by_other (r ∷ rs))
      s

unfoldable pub clear :
    (Text → Option TaskId)
    → (ByOther → ByOther)
    → Directory
    → Clock
    → Text
    → Stores
    → Answer (Stores × Task)
unfolding resolve_task clear_relations cleared
clear parse shuffle dir clock task_id s = do
  t ← resolve_task parse dir task_id s.tasks
  cleared shuffle dir clock (clear_relations (clock.edited t.id) t) s
