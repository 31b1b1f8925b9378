-- ===== src/SyncService.antt =====
-- crates/application-sync/src/service.rs: `SyncService`, its pushes, pulls and refreshes of one task,
-- over the comments of crates/infra-sqlite/src/task_repo.rs and the guard of
-- crates/application-sync/src/summary.rs. A pull ends before it reconciles relations. The remote is
-- given by what it answers, with `none` for an error; a step that fails keeps what it wrote.
pub mod Steps
pub mod Stored
pub mod Pull
pub mod Push
use repo_link.Prelude.{
  ℕ, zero, suc, Bool, true, false, not, ◌&&◌, ◌||◌, Option, none, some, List, [], ◌∷◌, ◌++◌,
  if◌then◌else◌, ◌==◌, nat_eq, list_eq, option_eq, any, retain, map, is_none,
}
use repo_link.Prelude.Text.{Text}
use repo_link.Core.{TaskId, Timestamp, DomainError, transition, Result, ok, err}
use repo_link.Task.Enums.{
  SyncState, dirty_local, staged, conflict, sync_state_eq, Lifecycle, not_planned, lifecycle_eq,
}
use repo_link.Task.Snapshot.{RemoteRef, TaskComment, TaskSnapshot}
use repo_link.Task.Snapshot.Source.{SnapshotSource, push, pull, pre_pull}
use repo_link.Task.State.{Task}
use repo_link.Task.Mirror.{MirrorPatch, diff_against_baseline, full_mirror_patch}
use repo_link.Task.Sync.{Outcome, confirm_synced_fields, adopt_aligned_state}
use repo_link.Sync.Policy.{SyncDecision, noop, push_local, pull_remote, decide}
use repo_link.Repo.Origin.{RepoOrigin}
use repo_link.Prelude.{find}
use repo_link.TaskRepo.{TaskStore, get, save, update_row, cache_synced_at, cache_remote_node_id}
use repo_link.Outbound.{
  RemoteTaskUpdate, RemoteTaskSnapshot, inbound_mirrors_baseline, superseded_inbound_fields,
  copy_inbound_mirror_from_snap, build_update_from_patch,
}
use repo_link.TaskService.{Directory, filing_origin}

-- `SyncError`, as far as a push, a pull or a refresh raises it; of `PortError`, that a row is missing,
-- that a write is refused, and that the remote fails.
pub data SyncError : Type 0 where
  not_found not_saved unreachable no_repo no_remote archived : SyncError
  domain : DomainError → SyncError

pub data Reply {ℓ} (A : Type ℓ) : Type ℓ where
  done : A → Reply A
  failed : SyncError → Reply A

abbrev pub Step {ℓ} : Type ℓ → Type ℓ
Step A = TaskStore → TaskStore × Reply A

abbrev pub proceed {ℓ κ} :
    {A : Type ℓ} {B : Type κ} → TaskStore × Reply A → (A → Step B) → TaskStore × Reply B
proceed (s, done a) k = k a s
proceed (s, failed e) k = (s, failed e)

infixl 4 ◌>>=◌
unfoldable pub ◌>>=◌ {ℓ κ} : {A : Type ℓ} {B : Type κ} → Step A → (A → Step B) → Step B
◌>>=◌ m k s = proceed (m s) k

abbrev pub pure {ℓ} : {A : Type ℓ} → A → Step A
pure a s = (s, done a)

abbrev pub fail {ℓ} : {A : Type ℓ} → SyncError → Step A
fail e s = (s, failed e)

abbrev pub need {ℓ} : {A : Type ℓ} → SyncError → Option A → Step A
need e none = fail e
need e (some a) = pure a

-- A write that cannot fail.
abbrev pub write : (TaskStore → TaskStore) → Step (Unit {0})
write f s = (f s, done tt)

unfoldable pub get_task : TaskId → Step Task
unfolding get
get_task id s = need not_found (get id s) s

abbrev pub saving : Option TaskStore → Step (Unit {0})
saving none s = (s, failed not_saved)
saving (some s') s = (s', done tt)

unfoldable pub save_task : Timestamp → SnapshotSource → Task → Step (Unit {0})
unfolding save
save_task at source t s = saving (save at source t s) s

-- A transition of the task that may refuse.
abbrev pub moved : Outcome → Step Task
moved (t, ok v) = pure t
moved (t, err e) = fail (domain e)

pub record RemoteComment : Type 0 where
  pub remote_id : Text
  pub author : Text
  pub body : Text
  pub created_at : Timestamp

-- `RemoteTaskProvider`, as far as a push, a pull or a refresh calls it.
pub record Remote : Type 0 where
  pub fetch_remote : Text → Text → Option RemoteTaskSnapshot
  pub update_remote : RemoteTaskUpdate → Option RemoteTaskSnapshot
  pub fetch_comments : Text → Text → Option (List RemoteComment)
  pub create_comment : Text → Text → Text → Option RemoteComment

-- The readings of the clock by an operation, in order, and the identifiers of new rows of comments.
pub record Readings : Type 0 where
  pub fetched : Timestamp
  pub pre_pulled : Timestamp
  pub touched : Timestamp
  pub captured : Timestamp
  pub stored : Timestamp
  pub fresh : ℕ → Text

unfoldable pub inserted : (ℕ → Text) → ℕ → List RemoteComment → List TaskComment
inserted fresh k [] = []
inserted fresh k (c ∷ cs) =
    record {
      local_id = some (fresh k);
      remote_id = some c.remote_id;
      author = c.author;
      body = c.body;
      created_at = c.created_at;
    }
    ∷ inserted fresh (suc k) cs

-- `replace_comments`: the pending comments stay.
unfoldable pub replace_comments : (ℕ → Text) → TaskId → List RemoteComment → TaskStore → TaskStore
unfolding update_row inserted
replace_comments fresh id cs s =
    update_row id
      (λ t. record t {
        comments = retain (λ c. is_none c.remote_id) t.comments ++ inserted fresh 0 cs;
      })
      s

-- `mark_comments_pushed`, for one comment: the pending row goes, the pushed one comes.
unfoldable pub mark_comment_pushed :
    (ℕ → Text) → ℕ → TaskId → Text → RemoteComment → TaskStore → TaskStore
unfolding update_row inserted
mark_comment_pushed fresh k id local_id c s =
    update_row id
      (λ t. record t {
        comments =
            retain (λ r. not (r.local_id == some local_id && is_none r.remote_id)) t.comments
            ++ inserted fresh k (c ∷ []);
      })
      s

-- `filing_canonical_for`
unfoldable pub filing_canonical_for : Directory → Task → Step Text
unfolding filing_origin
filing_canonical_for dir t = need no_repo (filing_origin dir t) >>= (λ id.
    need not_found (find (λ o. o.id == id) dir.origins) >>= (λ origin. pure origin.canonical_url))

unfoldable pub ensure_not_archived : Task → Step (Unit {0})
ensure_not_archived t = if t.lifecycle == not_planned then fail archived else pure tt

-- What the summary says of a task: the sync state before, the task after, the decision, and the
-- fields that were superseded.
pub record Summary : Type 0 where
  pub previous : SyncState
  pub task : Task
  pub decision : SyncDecision
  pub superseded : List Text
