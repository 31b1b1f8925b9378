-- ===== src/TaskService.antt =====
-- crates/application-task/src/service.rs: `TaskService`, with its errors of error.rs. The stores are
-- the tables of tasks and of outbox entries; the directory is what the service only reads. A
-- statement fails on a unique violation only. The view of a task that is answered, `task_dto`, is
-- left out: an operation gives the task that is viewed.
pub mod Cycles
pub mod Relations
pub mod Resolved
pub mod Answers
pub mod Minted
use repo_link.Prelude.{
  ℕ, Bool, true, false, not, ◌&&◌, ◌||◌, Option, none, some, List, [], ◌∷◌, ◌++◌, if◌then◌else◌,
  ◌==◌, nat_eq, list_eq, find, is_none,
}
use repo_link.Prelude.Text.{Text, codes, is_empty}
use repo_link.Core.{TaskId, RepoId, RepoOriginId, Timestamp, DomainError}
use repo_link.Task.Snapshot.{RemoteRef}
use repo_link.Task.Snapshot.Source.{SnapshotSource}
use repo_link.Task.State.{Task}
use repo_link.Task.Hash.{is_valid_hash}
use repo_link.Workspace.{Workspace}
use repo_link.Repo.Instance.{RepoInstance}
use repo_link.Repo.Origin.{RepoOrigin}
use repo_link.Repo.Naming.{is_valid_prefix, is_superseded_prefix}
use repo_link.Sync.Filing.{resolve_filing_repo}
use repo_link.Sync.Outbox.{OutboxEntry}
use repo_link.OutboxRepo.{Table, enqueue}
use repo_link.TaskRepo.{TaskStore, get, save, find_by_hash}
use repo_link.Outbound.Enqueue.{Address, and_then}

-- `ServiceError`, without `BadEnum`, since no enum is parsed; of `PortError`, `NotFound`, `Conflict`
-- and `Backend`.
pub data ServiceError : Type 0 where
  not_found conflict backend bad_id self_relation relation_cycle prefix_mismatch : ServiceError
  domain : DomainError → ServiceError

pub data Answer {ℓ} (A : Type ℓ) : Type ℓ where
  done : A → Answer A
  failed : ServiceError → Answer A

infixl 5 ◌>>=◌
abbrev pub ◌>>=◌ {ℓ κ} : {A : Type ℓ} {B : Type κ} → Answer A → (A → Answer B) → Answer B
done a >>= f = f a
failed e >>= f = failed e

abbrev pub or_fail {ℓ} : {A : Type ℓ} → ServiceError → Option A → Answer A
or_fail e none = failed e
or_fail e (some a) = done a

pub record Directory : Type 0 where
  pub workspaces : List Workspace
  pub instances : List RepoInstance
  pub origins : List RepoOrigin

pub record Stores : Type 0 where
  pub tasks : TaskStore
  pub outbox : Table

-- `save_many_with_outbox`: the tasks in order, then the entries, or nothing. The clock is read at
-- each snapshot.
unfoldable pub save_many :
    (TaskId → Timestamp) → SnapshotSource → List Task → TaskStore → Option TaskStore
unfolding save
save_many clock source [] s = some s
save_many clock source (t ∷ ts) s =
    and_then (save (clock t.id) source t s) (λ s'. save_many clock source ts s')

unfoldable pub enqueue_all : List OutboxEntry → Table → Table
unfolding enqueue
enqueue_all [] rows = rows
enqueue_all (e ∷ es) rows = enqueue_all es (enqueue e rows)

unfoldable pub save_many_with_outbox :
    (TaskId → Timestamp) → SnapshotSource → List Task → List OutboxEntry → Stores → Answer Stores
unfolding save_many enqueue_all
save_many_with_outbox clock source ts entries s = do
  tasks ← or_fail conflict (save_many clock source ts s.tasks)
  done (record { tasks = tasks; outbox = enqueue_all entries s.outbox })

-- `RepoBindingRepository::get`
unfoldable pub binding : Directory → RepoId → Option (RepoInstance × RepoOrigin)
binding dir id =
    and_then (find (λ i. i.id == id) dir.instances)
      (λ i. and_then (find (λ o. o.id == i.origin_id) dir.origins) (λ o. some (i, o)))

-- `query.rsplit_once(c)`
unfoldable pub rsplit_once : ℕ → Text → Option (Text × Text)
rsplit_once c [] = none
rsplit_once c (x ∷ xs) = elim (rsplit_once c xs) [
  | some (before, after) ↦ some (x ∷ before, after)
  | none ↦ if x == c then some ([], xs) else none
]

-- The origin's prefix, empty for a task without a binding.
unfoldable pub actual_prefix : Directory → Task → Answer Text
unfolding binding
actual_prefix dir t = elim t.repo_id [
  | none ↦ done []
  | some id ↦ do view ← or_fail not_found (binding dir id); done view.1.prefix
]

unfoldable pub check_prefix : Directory → Text → Task → Answer Task
unfolding actual_prefix is_superseded_prefix
check_prefix dir input t = do
  actual ← actual_prefix dir t
  if actual == input || is_superseded_prefix input actual then done t else failed prefix_mismatch

-- The task of a hash, and the check of the prefix that came with it.
unfoldable pub by_hash : Directory → Text → TaskStore → Answer Task
unfolding is_valid_hash find_by_hash
by_hash dir hash s =
    if not (is_valid_hash hash) then failed bad_id else or_fail not_found (find_by_hash hash s)

unfoldable pub by_composite : Directory → Text → Text → TaskStore → Answer Task
unfolding is_valid_hash is_valid_prefix find_by_hash check_prefix
by_composite dir prefix hash s =
    if not (is_valid_hash hash) || not (is_valid_prefix prefix)
    then failed bad_id
    else do t ← or_fail not_found (find_by_hash hash s); check_prefix dir prefix t

-- Of the parts at the last dash, if there is one.
unfoldable pub by_parts : Directory → Text → Option (Text × Text) → TaskStore → Answer Task
unfolding by_hash by_composite
by_parts dir query none s = by_hash dir query s
by_parts dir query (some (prefix, hash)) s = by_composite dir prefix hash s

unfoldable pub by_id : Directory → Text → Option TaskId → TaskStore → Answer Task
unfolding get rsplit_once by_parts
by_id dir query (some id) s = or_fail not_found (get id s)
by_id dir query none s = by_parts dir query (rsplit_once b'-' query) s

-- `resolve_task`; whether a text parses as a UUID is a parameter.
unfoldable pub resolve_task : (Text → Option TaskId) → Directory → Text → TaskStore → Answer Task
unfolding by_id
resolve_task parse dir query s = by_id dir query (parse query) s

-- crates/application-task/src/dto.rs: `assemble_task_display_id`; how a UUID is printed is a
-- parameter.
unfoldable pub assemble_task_display_id : (TaskId → Text) → Task → Option Text → Text
unfolding is_empty
assemble_task_display_id print t prefix =
    if is_empty t.hash
    then print t.id
    else elim prefix [ none ↦ t.hash | some p ↦ if is_empty p then t.hash else p ++ b'-' ∷ t.hash ]

-- The repo that a task is filed in: the recorded one, else the workspace's default, else the origin
-- of its logical repo.
unfoldable pub filing_origin : Directory → Task → Option RepoOriginId
unfolding resolve_filing_repo binding
filing_origin dir t =
    resolve_filing_repo t.filing_repo_id
      (and_then (find (λ w. w.id == t.workspace_id) dir.workspaces) (λ w. w.filing_repo_id))
      (and_then t.repo_id (λ id. and_then (binding dir id) (λ view. some view.0.origin_id)))

-- `filing_canonical_for`
unfoldable pub filing_canonical_for : Directory → Task → Answer (Option Text)
unfolding filing_origin
filing_canonical_for dir t = elim (filing_origin dir t) [
  | none ↦ done none
  | some id ↦ do
    origin ← or_fail not_found (find (λ o. o.id == id) dir.origins)
    done (some origin.canonical_url)
]

-- `relation_remote_coords`
unfoldable pub relation_remote_coords : Directory → Task → Answer (Option Address)
unfolding filing_canonical_for
relation_remote_coords dir t = elim t.remote [
  | none ↦ done none
  | some remote ↦ do
    canonical ← filing_canonical_for dir t
    done (and_then canonical (λ c. some (c, remote.remote_id)))
]
