-- ===== src/TaskRepo.antt =====
-- crates/infra-sqlite/src/task_repo.rs: the tasks and their history. A row of `tasks`, with its
-- rows of `task_relations` and `task_comments`, is a task without a baseline; its relations stand
-- in the order of the save. A row of `remote_mappings` is that of its task. The rows that a task
-- refers to are there.

pub mod Saved
pub mod Listing
pub mod Lookup
pub mod Unique
use repo_link.Prelude.{
  ℕ, zero, suc, ◌+◌, Bool, true, false, not, ◌&&◌, ◌||◌, Option, none, some, List, [], ◌∷◌, ◌++◌,
  ltb, if◌then◌else◌, ◌==◌, nat_eq, list_eq, option_eq, find, retain, any, map, pairwise,
}
use repo_link.Prelude.Text.{Text, is_empty}
use repo_link.Core.{TaskId, RepoId, Timestamp}
use repo_link.Task.Enums.{
  SyncState, synced, dirty_remote, sync_state_eq, Priority, relation_kind_eq,
}
use repo_link.Task.IssueType.{IssueType, display, from, issue_type_eq}
use repo_link.Task.Snapshot.{RemoteRef, TaskRelation, TaskSnapshot, is_baseline}
use repo_link.Task.Snapshot.Source.{SnapshotSource}
use repo_link.Task.State.{Task, snapshot_view}

pub record TaskStore : Type 0 where
  pub rows : List Task
  pub history : List TaskSnapshot

-- `SELECT COALESCE(MAX(version), 0)`
unfoldable pub max_version : TaskId → List TaskSnapshot → ℕ
max_version id [] = 0
max_version id (s ∷ ss) =
    let rest = max_version id ss in
    if s.task_id == id && ltb rest s.version then s.version else rest

-- The text of the column `issue_type`.
unfoldable pub type_column : Option IssueType → Option Text
unfolding display
type_column none = none
type_column (some t) = some (display t)

-- `excluded.issue_type IS NOT tasks.issue_type`
unfoldable pub is_type_changed : Option IssueType → Option IssueType → Bool
unfolding type_column
is_type_changed new old = not (type_column new == type_column old)

-- The `DO UPDATE` of `write_task_in_tx`: what the row keeps of the one it replaces.
unfoldable pub replaced : Task → Task → Task
unfolding is_type_changed
replaced t old = record t {
  issue_type_pending =
      if is_type_changed t.issue_type old.issue_type then true else old.issue_type_pending;
  synced_at = old.synced_at;
  created_at = old.created_at;
  comments = old.comments;
  synced_baseline = none;
}

-- `INSERT INTO tasks … ON CONFLICT(id) DO UPDATE SET …`
unfoldable pub upsert : Task → List Task → List Task
unfolding replaced
upsert t [] = record t { comments = []; synced_baseline = none } ∷ []
upsert t (r ∷ rows) = if r.id == t.id then replaced t r ∷ rows else r ∷ upsert t rows

-- Two remote references that one key of `remote_mappings` admits only once.
unfoldable pub same_remote : Task → Task → Bool
same_remote t r = elim t.remote [
  | none ↦ false
  | some a ↦ elim r.remote [
    | none ↦ false
    | some b ↦
        t.filing_repo_id == r.filing_repo_id
        && a.provider == b.provider
        && a.remote_id == b.remote_id
  ]
]

-- The unique indexes that a row of another task can break.
unfoldable pub clashes : Task → Task → Bool
unfolding same_remote
clashes t r = not (r.id == t.id) && ((r.hash == t.hash && not (is_empty t.hash)) || same_remote t r)

-- `PRIMARY KEY (task_id, kind, other_task_id)` of `task_relations`
unfoldable pub other_edge : TaskRelation → TaskRelation → Bool
other_edge e f = not (e.kind == f.kind && e.other == f.other)

-- The snapshot that a write appends, and the tables after it, at the clock's reading `at`.
unfoldable pub appended : Timestamp → SnapshotSource → Task → TaskStore → TaskSnapshot
unfolding snapshot_view max_version
appended at source t s = record (snapshot_view at source t) {
  version = max_version t.id s.history + 1;
}

unfoldable pub stored : Timestamp → SnapshotSource → Task → TaskStore → TaskStore
unfolding upsert appended
stored at source t s = record {
  rows = upsert t s.rows;
  history = s.history ++ appended at source t s ∷ [];
}

-- `write_task_in_tx`, and so `save`; `none` is a unique violation, for which the transaction is
-- rolled back.
unfoldable pub save : Timestamp → SnapshotSource → Task → TaskStore → Option TaskStore
unfolding clashes other_edge stored
save at source t s =
    if any (clashes t) s.rows || not (pairwise other_edge t.relations)
    then none
    else some (stored at source t s)

-- What a column reads back as.
unfoldable pub read_type : Option IssueType → Option IssueType
unfolding display from
read_type none = none
read_type (some t) = some (from (display t))

unfoldable pub read_remote : Option RemoteRef → Option RemoteRef
read_remote none = none
read_remote (some r) = some (record r { node_id = none })

unfoldable pub read_snapshot : TaskSnapshot → TaskSnapshot
unfolding read_type read_remote
read_snapshot s = record s { issue_type = read_type s.issue_type; remote = read_remote s.remote }

-- `ORDER BY version DESC LIMIT 1` over the snapshots of a task that may be a baseline.
unfoldable pub newest : TaskId → List TaskSnapshot → Option TaskSnapshot
unfolding is_baseline
newest id [] = none
newest id (s ∷ ss) =
    let rest = newest id ss in
    if s.task_id == id && is_baseline s
    then elim rest [ none ↦ some s | some n ↦ if ltb s.version n.version then some n else some s ]
    else rest

-- `load_latest_baseline`
unfoldable pub read_newest : Option TaskSnapshot → Option TaskSnapshot
unfolding read_snapshot
read_newest none = none
read_newest (some s) = some (read_snapshot s)

unfoldable pub load_latest_baseline : TaskId → List TaskSnapshot → Option TaskSnapshot
unfolding newest read_newest
load_latest_baseline id ss = read_newest (newest id ss)

-- A row that a query found, read with its baseline.
unfoldable pub hydrate : Task → Option TaskSnapshot → Task
unfolding read_type
hydrate r b = record r { issue_type = read_type r.issue_type; synced_baseline = b }

unfoldable pub found : Option Task → Option TaskSnapshot → Option Task
unfolding hydrate
found none b = none
found (some r) b = some (hydrate r b)

-- `get`; `none` is `PortError::NotFound`.
unfoldable pub get : TaskId → TaskStore → Option Task
unfolding load_latest_baseline found
get id s = found (find (λ r. r.id == id) s.rows) (load_latest_baseline id s.history)

-- `UPDATE tasks SET … WHERE id = ?`, which may match no row.
unfoldable pub update_row : TaskId → (Task → Task) → TaskStore → TaskStore
update_row id f s = record s { rows = map (λ r. if r.id == id then f r else r) s.rows }

unfoldable pub cache_synced_at : TaskId → Timestamp → TaskStore → TaskStore
unfolding update_row
cache_synced_at id at s = update_row id (λ t. record t { synced_at = some at }) s

unfoldable pub cache_project_status : TaskId → Option Text → TaskStore → TaskStore
unfolding update_row
cache_project_status id option_id s =
    update_row id (λ t. record t { project_status_option_id = option_id }) s

unfoldable pub apply_polled_priority : TaskId → Priority → TaskStore → TaskStore
unfolding update_row
apply_polled_priority id p s = update_row id (λ t. record t { priority = p }) s

unfoldable pub mark_remote_dirty : TaskId → TaskStore → TaskStore
unfolding update_row
mark_remote_dirty id s =
    update_row id (λ t. if t.sync == synced then record t { sync = dirty_remote } else t) s

unfoldable pub with_node_id : Text → Task → Task
with_node_id node_id t = elim t.remote [
  | none ↦ t
  | some r ↦ record t { remote = some (record r { node_id = some node_id }) }
]

unfoldable pub cache_remote_node_id : TaskId → Text → TaskStore → TaskStore
unfolding update_row with_node_id
cache_remote_node_id id node_id s = update_row id (with_node_id node_id) s

-- `issue_type IS ?`, and whether a row was changed
unfoldable pub clear_issue_type_pending : TaskId → Option IssueType → TaskStore → TaskStore × Bool
unfolding update_row type_column
clear_issue_type_pending id expected s = (
  update_row id
      (λ t.
        if t.issue_type_pending && type_column t.issue_type == type_column expected
        then record t { issue_type_pending = false }
        else t)
      s,
  any (λ t. t.id == id && t.issue_type_pending && type_column t.issue_type == type_column expected)
      s.rows,
)

unfoldable pub get_row : Option Task → TaskStore → Option Task
unfolding get
get_row none s = none
get_row (some r) s = get r.id s

unfoldable pub find_by_hash : Text → TaskStore → Option Task
unfolding get_row
find_by_hash hash s = if is_empty hash then none else get_row (find (λ r. r.hash == hash) s.rows) s

-- `filing_repo_id = ? AND remote_provider = ? AND remote_id = ?`
unfoldable pub tracks : RepoId → Text → Text → Task → Bool
tracks filing_repo_id provider remote_id r = elim r.remote [
  | none ↦ false
  | some b ↦
      r.filing_repo_id == some filing_repo_id && b.provider == provider && b.remote_id == remote_id
]

unfoldable pub find_by_remote : RepoId → Text → Text → TaskStore → Option Task
unfolding tracks get_row
find_by_remote filing_repo_id provider remote_id s =
    get_row (find (tracks filing_repo_id provider remote_id) s.rows) s

-- `delete`, with what cascades.
unfoldable pub delete : TaskId → TaskStore → TaskStore
delete id s = record {
  rows =
      map (λ (r : Task). record r { relations = retain (λ e. not (e.other == id)) r.relations })
        (retain (λ r. not (r.id == id)) s.rows);
  history = retain (λ e. not (e.task_id == id)) s.history;
}
