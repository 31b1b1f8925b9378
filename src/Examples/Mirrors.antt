-- ===== src/Examples/Mirrors.antt =====
-- The theorems on pulls and pushes at the sample task.
use repo_link.Prelude.{
  ℕ, Bool, true, false, ◌||◌, Option, none, some, List, [], ◌∷◌, ◌≡◌, refl, ◌↔◌, if◌then◌else◌,
  ◌==◌, nat_eq, any, all, find, pairwise, ℕ_discrete, List-discrete,
}
use repo_link.Prelude.Text.{codes}
use repo_link.Task.Enums.{RelationKind, blocked_by, blocks, synced, dirty_local}
use repo_link.Task.Snapshot.Source.{local_edit, pull}
use repo_link.Task.State.{Task}
use repo_link.Task.Snapshot.{TaskSnapshot}
use repo_link.TaskRepo.{TaskStore, get, stored}
use repo_link.Sync.Policy.{noop, pull_remote}
use repo_link.Outbound.{RemoteTaskSnapshot}
use repo_link.TaskService.Relations.Kept.{empty}
use repo_link.SyncService.{Reply, Remote, Readings, Summary}
use repo_link.SyncService
use repo_link.SyncService.Pull.{pull_inner, pull_decision}
use repo_link.SyncService.Pull.Errors.{is_admitted, pull_inner-is_admitted}
use repo_link.SyncService.Pull.Aligned.{IsAligned, pull_inner-settles}
use repo_link.SyncService.Push.{push_inner, is_snapshot_dirty}
use repo_link.SyncService.Push.Settled.{push_inner-IsSynced}
use repo_link.SyncService.Steps.{Runs}
use repo_link.Examples.Services.{directory, or_draft}
use repo_link.Examples.Fixtures.{mirrored, draft, observed}

abbrev renamed : RemoteTaskSnapshot
renamed = record {
  remote_id = codes "42";
  node_id = some (codes "I_1");
  title = codes "Fix it now";
  body = codes "Steps";
  closed = false;
  updated_at = 400;
  assignees = [];
  labels = [];
}

abbrev github : Remote
github = record {
  fetch_remote = λ canonical number. some renamed;
  update_remote = λ u. some renamed;
  fetch_comments = λ canonical number. some [];
  create_comment = λ canonical number body. none;
}

abbrev readings : Readings
readings = record {
  fetched = 401;
  pre_pulled = 402;
  touched = 403;
  captured = 404;
  stored = 405;
  fresh = λ k. codes "c";
}

abbrev synced_store : TaskStore
synced_store = stored 5 pull mirrored empty

abbrev summary_or : Summary → Reply Summary → Summary
summary_or o (SyncService.done a) = a
summary_or o (SyncService.failed e) = o

abbrev no_summary : Summary
no_summary = record { previous = synced; task = draft; decision = noop; superseded = [] }

abbrev pulled : TaskStore × Reply Summary
pulled = pull_inner github directory readings false 1 synced_store

abbrev pull_summary : Summary
pull_summary = summary_or no_summary pulled.1

is_pulled : Runs (pull_inner github directory readings false 1) synced_store pulled.0 pull_summary
unfolding pull_inner SyncService.◌>>=◌ find ℕ_discrete repo_link.Task.Enums.Lifecycle-discrete
    repo_link.Task.Snapshot.Source.SnapshotSource-discrete List-discrete any pairwise
    repo_link.Task.Sync.align
is_pulled = refl

is_taken : pull_summary.decision ≡ pull_remote
unfolding pull_inner SyncService.◌>>=◌ find ℕ_discrete repo_link.Task.Enums.Lifecycle-discrete
    repo_link.Task.Snapshot.Source.SnapshotSource-discrete List-discrete any pairwise
    repo_link.Task.Sync.align
is_taken = refl

pull_inner-settles_example :
    (u : Task) × (get 1 pulled.0 ≡ some u)
    × IsAligned renamed u
    × (pull_decision true renamed u ≡ noop)
pull_inner-settles_example =
    pull_inner-settles github directory readings false true 1 renamed synced_store pulled.0
      pull_summary (λ canonical number. refl) is_pulled is_taken

-- The sample task with a title of its own.
abbrev edited_task : Task
edited_task = record mirrored { title = codes "Fix it all"; sync = dirty_local }

abbrev dirty_store : TaskStore
dirty_store = stored 6 local_edit edited_task synced_store

abbrev dirty_task : Task
dirty_task = or_draft (get 1 dirty_store)

abbrev pushed : TaskStore × Reply Summary
pushed = push_inner github directory readings false 1 dirty_store

abbrev push_summary : Summary
push_summary = summary_or no_summary pushed.1

is_pushed : Runs (push_inner github directory readings false 1) dirty_store pushed.0 push_summary
unfolding push_inner SyncService.◌>>=◌ find ℕ_discrete repo_link.Task.Enums.SyncState-discrete
    repo_link.Task.Snapshot.Source.SnapshotSource-discrete repo_link.Task.Mirror.differs
    List-discrete repo_link.Task.Sync.confirm_fields any
    repo_link.Task.Mirror.reconcile_dirty_against_baseline pairwise repo_link.Prelude.retain
is_pushed = refl

dirty_reads : get 1 dirty_store ≡ some dirty_task
unfolding get find stored ℕ_discrete
dirty_reads = refl

dirty_axis : is_snapshot_dirty false dirty_task.sync ≡ true
unfolding is_snapshot_dirty repo_link.Task.Enums.SyncState-discrete get find stored ℕ_discrete
dirty_axis = refl

abbrev or_observed : Option TaskSnapshot → TaskSnapshot
or_observed none = observed
or_observed (some b) = b

dirty_baseline : dirty_task.synced_baseline ≡ some (or_observed dirty_task.synced_baseline)
unfolding get find stored ℕ_discrete repo_link.Task.Snapshot.Source.SnapshotSource-discrete
dirty_baseline = refl

push_inner-IsSynced_example : (u : Task) × (get 1 pushed.0 ≡ some u) × (u.sync ≡ synced)
push_inner-IsSynced_example =
    push_inner-IsSynced github directory readings false 1 dirty_task
      (or_observed dirty_task.synced_baseline) dirty_store pushed.0 push_summary dirty_reads
      dirty_axis dirty_baseline is_pushed

-- A remote that does not answer.
abbrev down : Remote
down = record github { fetch_remote = λ canonical number. none }

pull_inner-is_admitted_example :
    is_admitted (pull_inner down directory readings false 1 synced_store).1 ≡ true
pull_inner-is_admitted_example = pull_inner-is_admitted down directory readings false 1 synced_store
