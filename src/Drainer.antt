-- ===== src/Drainer.antt =====
-- crates/application-sync/src/drainer.rs: the retry policy, and what one turn of `drain_once` does
-- with the entry that it claimed. What `apply` gives, in Apply, is the result that a turn is handed.
-- The tasks are the rows of crates/infra-sqlite/src/task_repo.rs, by identifier.
pub mod Backoff
pub mod Turns
pub mod Capped
pub mod Passes
pub mod Effects
pub mod Apply
pub mod Sweep
use repo_link.Prelude.{
  ℕ, zero, suc, ◌+◌, ◌-◌, ◌*◌, min, Bool, true, false, Option, none, some, List, [], ◌∷◌, ltb,
  if◌then◌else◌, ◌==◌, nat_eq, find, length,
}
use mathlib.Core.Bool.{◌||◌}
use repo_link.Prelude.Text.{Text, codes}
use repo_link.Core.{TaskId, Timestamp, ok, err}
use repo_link.Task.State.{Task}
use repo_link.Task.Sync.{mark_conflicted}
use repo_link.Sync.Policy.{ConflictKind}
use repo_link.Sync.Outbox.{OutboxEntry}
use repo_link.OutboxRepo.{Table, mark_succeeded, mark_failed, record_retry}

-- Durations are in nanoseconds.
pub record BackoffSchedule : Type 0 where
  pub delays : List ℕ
  pub max_attempts : ℕ

abbrev pub secs : ℕ → ℕ
secs n = n * 1000000000

-- `BackoffSchedule::standard` and `BackoffSchedule::new`
abbrev pub standard : BackoffSchedule
standard = record {
  delays = secs 5 ∷ secs 30 ∷ secs (2 * 60) ∷ secs (10 * 60) ∷ [];
  max_attempts = 5;
}

unfoldable pub new : List ℕ → ℕ → BackoffSchedule
new delays max_attempts = record {
  delays = delays;
  max_attempts = if ltb max_attempts 1 then 1 else max_attempts;
}

-- `delays[i]`; 0 stands in past the end.
unfoldable pub delay_at : List ℕ → ℕ → ℕ
delay_at [] i = 0
delay_at (d ∷ ds) zero = d
delay_at (d ∷ ds) (suc i) = delay_at ds i

-- `BackoffSchedule::delay_for`
unfoldable pub delay_for : BackoffSchedule → ℕ → ℕ
unfolding delay_at
delay_for b attempts_made = elim b.delays [
  | [] ↦ 0
  | d ∷ ds ↦ delay_at (d ∷ ds) (min (attempts_made - 1) (length (d ∷ ds) - 1))
]

-- What `apply` computed: a disposition, or an error that one of its steps raised.
pub data ApplyDisposition : Type 0 where
  stamped : ApplyDisposition
  retry : (error : Text) → ApplyDisposition
  conflicting : (kind : ConflictKind) → ApplyDisposition

pub data Applied : Type 0 where
  applied : ApplyDisposition → Applied
  raised : (error : Text) → Applied

-- `UPDATE tasks SET … WHERE id = ?`, which may match no row.
unfoldable pub update_task : TaskId → (Task → Task) → List Task → List Task
update_task id f [] = []
update_task id f (t ∷ ts) = (if t.id == id then f t else t) ∷ update_task id f ts

-- `TaskRepository::cache_synced_at`
unfoldable pub cache_synced_at : TaskId → Timestamp → List Task → List Task
unfolding update_task
cache_synced_at id at ts = update_task id (λ t. record t { synced_at = some at }) ts

-- The task that the entry is for becomes a conflict, where its state admits that.
unfoldable pub flip_to_conflict : Timestamp → TaskId → List Task → List Task
unfolding update_task mark_conflicted
flip_to_conflict now id ts = elim (find (λ t. t.id == id) ts) [
  | none ↦ ts
  | some t ↦ elim (mark_conflicted now t).1 [
    | err e ↦ ts
    | ok _ ↦ update_task id (λ _. (mark_conflicted now t).0) ts
  ]
]

-- The tables that a turn writes.
pub record Store : Type 0 where
  pub outbox : Table
  pub tasks : List Task

-- A failed turn: back to the queue with a delay, or dead at the cap. `failed_at` is the reading of
-- the clock for the delay, and `now` that of the statement.
unfoldable pub fail_entry :
    BackoffSchedule → Timestamp → Timestamp → OutboxEntry → Text → Table → Table
unfolding delay_for record_retry mark_failed
fail_entry b failed_at now entry msg rows =
    let attempts_after = entry.attempts + 1 in
    if ltb attempts_after b.max_attempts
    then record_retry now entry.id msg (failed_at + delay_for b attempts_after) rows
    else mark_failed now entry.id msg rows

-- `format!("conflict: {kind:?}")`
unfoldable pub conflict_message : ConflictKind → Text
conflict_message ConflictKind.local_edited_remote_edited = codes "conflict: LocalEditedRemoteEdited"
conflict_message ConflictKind.remote_deleted_local_edited =
    codes "conflict: RemoteDeletedLocalEdited"
conflict_message ConflictKind.local_deleted_remote_edited =
    codes "conflict: LocalDeletedRemoteEdited"
conflict_message ConflictKind.assignee_mismatch = codes "conflict: AssigneeMismatch"
conflict_message ConflictKind.project_status_mismatch = codes "conflict: ProjectStatusMismatch"
conflict_message ConflictKind.relation_mismatch = codes "conflict: RelationMismatch"
conflict_message ConflictKind.target_remapped = codes "conflict: TargetRemapped"

-- The rest of a turn of `drain_once`, after `apply` has given its result.
unfoldable pub settle :
    BackoffSchedule → Timestamp → Timestamp → OutboxEntry → Applied → Store → Store
unfolding fail_entry flip_to_conflict cache_synced_at mark_succeeded mark_failed conflict_message
settle b at now entry (applied stamped) s = record {
  outbox = mark_succeeded now entry.id s.outbox;
  tasks = cache_synced_at entry.task_id at s.tasks;
}
settle b at now entry (applied (conflicting kind)) s = record {
  outbox = mark_failed now entry.id (conflict_message kind) s.outbox;
  tasks = flip_to_conflict at entry.task_id s.tasks;
}
settle b at now entry (applied (retry error)) s = record s {
  outbox = fail_entry b at now entry error s.outbox;
}
settle b at now entry (raised error) s = record s {
  outbox = fail_entry b at now entry error s.outbox;
}
