-- ===== src/TaskService/Relations.antt =====
-- crates/application-task/src/service.rs: adding, removing and clearing relations. The kind is
-- parsed already.
pub mod Edges
pub mod Succeeded
pub mod Graph
pub mod Upstream
pub mod Families
pub mod Commands
pub mod Kept
use repo_link.Prelude.{
  ℕ, zero, suc, Bool, true, false, not, ◌&&◌, ◌||◌, Option, none, some, List, [], ◌∷◌, ◌++◌,
  if◌then◌else◌, ◌==◌, nat_eq, find, any, retain, map, contains, is_none, unwrap_or,
}
use repo_link.Prelude.Text.{Text}
use repo_link.Core.{TaskId, OutboxEntryId, Timestamp}
use repo_link.Task.Enums.{RelationKind, inverse, relation_kind_eq}
use repo_link.Task.Snapshot.{TaskRelation}
use repo_link.Task.Snapshot.Source.{local_edit}
use repo_link.Task.State.{Task}
use repo_link.Task.Edits.{is_edge, add_relation, remove_relation, clear_relations}
use repo_link.Sync.Outbox.{OutboxEntry, OutboxMutation, new}
use repo_link.TaskRepo.{TaskStore, get}
use repo_link.TaskRepo.Listing.{selected, read_row, is_older}
use repo_link.Outbound.Enqueue.{Address, relation_mutation, and_then}
use repo_link.TaskService.{
  Answer, done, failed, ◌>>=◌, or_fail, not_found, self_relation, relation_cycle, Directory, Stores,
  save_many_with_outbox, relation_remote_coords,
}
use repo_link.TaskService.Cycles.{Up, cycle_axis, up_of, walk, enough}

-- The readings of the clock, at an edit and at a snapshot of a task, and the identifiers and
-- instants of new entries.
pub record Clock : Type 0 where
  pub edited : TaskId → Timestamp
  pub captured : TaskId → Timestamp
  pub fresh : ℕ → OutboxEntryId × Timestamp

-- `list` without a filter.
unfoldable pub up_in : RelationKind → RelationKind → TaskStore → Up
unfolding up_of selected read_row
up_in forward inverse s = up_of forward inverse (map (read_row s) (selected (λ t. true) is_older s))

-- `none` is a walk that is out of rounds.
unfoldable pub would_create_cycle :
    RelationKind → RelationKind → TaskId → TaskId → TaskStore → Option Bool
unfolding up_in walk
would_create_cycle forward inverse x y s =
    let up = up_in forward inverse s in walk (enough up) x up (some (y ∷ [])) []

-- The guard of `add_relation`; a symmetric kind has no axis, and no edge passes a walk that is out
-- of rounds.
unfoldable pub closes_cycle : RelationKind → TaskId → TaskId → TaskStore → Bool
unfolding cycle_axis would_create_cycle
closes_cycle kind a b s = elim (cycle_axis kind a b) [
  | none ↦ false
  | some (forward, inverse, x, y) ↦ unwrap_or (would_create_cycle forward inverse x y s) true
]

-- `into_entries` of a mutation, if there is one.
unfoldable pub entry_of : Clock → ℕ → TaskId → Option OutboxMutation → List OutboxEntry
unfolding new
entry_of clock k id none = []
entry_of clock k id (some m) = new (clock.fresh k).0 (clock.fresh k).1 id m ∷ []

unfoldable pub plan_relation_entries :
    Directory → Clock → RelationKind → Bool → Task → Task → Answer (List OutboxEntry)
unfolding relation_remote_coords relation_mutation entry_of
plan_relation_entries dir clock kind add t other = do
  here ← relation_remote_coords dir t
  there ← relation_remote_coords dir other
  done (
      entry_of clock 0 t.id
        (and_then here (λ a. and_then there (λ b. relation_mutation kind add a b))))

unfoldable pub plan_if : Bool → Answer (List OutboxEntry) → Answer (List OutboxEntry)
plan_if false plan = done []
plan_if true plan = plan

-- Saved, with the task that is viewed.
unfoldable pub saved_as :
    Clock → Task → List Task → List OutboxEntry → Stores → Answer (Stores × Task)
unfolding save_many_with_outbox
saved_as clock t batch entries s = do
  s' ← save_many_with_outbox clock.captured local_edit batch entries s
  done (s', t)

-- `add_relation`, once both tasks are resolved.
unfoldable pub relate :
    Directory → Clock → RelationKind → Task → Task → Stores → Answer (Stores × Task)
unfolding closes_cycle add_relation inverse plan_relation_entries plan_if saved_as
relate dir clock kind t other s =
    let t' = add_relation (clock.edited t.id) kind other.id t in
    let other' = add_relation (clock.edited other.id) (inverse kind) t.id other in
    let newly_added = not (any (is_edge kind other.id) t.relations) in
    if other.id == t.id
    then failed self_relation
    else if closes_cycle kind t.id other.id s.tasks
    then failed relation_cycle
    else do
      entries ← plan_if newly_added (plan_relation_entries dir clock kind true t' other')
      saved_as clock t' (t' ∷ other' ∷ []) entries s

abbrev pub changed : Task × Bool → List Task
changed (t, true) = t ∷ []
changed (t, false) = []

-- Nothing is saved if no side changed.
unfoldable pub save_changed :
    Clock → Task → List Task → List OutboxEntry → Stores → Answer (Stores × Task)
unfolding saved_as
save_changed clock t [] entries s = done (s, t)
save_changed clock t (c ∷ batch) entries s = saved_as clock t (c ∷ batch) entries s

-- `remove_relation`, once both tasks are resolved.
unfoldable pub unrelate :
    Directory → Clock → RelationKind → Task → Task → Stores → Answer (Stores × Task)
unfolding remove_relation inverse plan_relation_entries plan_if save_changed
unrelate dir clock kind t other s =
    let a = remove_relation (clock.edited t.id) kind other.id t in
    let b = remove_relation (clock.edited other.id) (inverse kind) t.id other in
    if other.id == t.id then failed self_relation else do
      entries ← plan_if a.1 (plan_relation_entries dir clock kind false a.0 b.0)
      save_changed clock a.0 (changed a ++ changed b) entries s
