-- ===== src/TaskRepo/Saved.antt =====
-- What a save leaves to be read: crates/infra-sqlite/src/task_repo.rs.
use repo_link.Prelude.{
  ◌≤◌, ◌<◌, Bool, true, false, Option, none, some, List, [], ◌∷◌, ◌++◌, ◌≡◌, refl, arith,
  if◌then◌else◌, ◌==◌, nat_eq, list_eq, option_eq, find, Bool-cases, Option-cases, inl, inr, ap,
  ◌∙◌,
}
use repo_link.Core.{TaskId, Timestamp}
use repo_link.Task.Snapshot.{TaskSnapshot, is_baseline}
use repo_link.Task.Snapshot.Source.{SnapshotSource}
use repo_link.Task.IssueType.{IssueType, from, display}
use repo_link.Task.State.{Task, snapshot_view}
use repo_link.TaskRepo.{
  TaskStore, type_column, max_version, replaced, upsert, save, read_snapshot, newest,
  load_latest_baseline, get, hydrate, appended, stored, found, read_newest, read_snapshot,
}

-- The row that a save leaves, over the row it finds.
unfoldable pub written : Task → Option Task → Task
unfolding replaced
written t none = record t { comments = []; synced_baseline = none }
written t (some old) = replaced t old

pub find-upsert :
    (t : Task) (rows : List Task)
    → find (λ r. r.id == t.id) (upsert t rows) ≡ some (written t (find (λ r. r.id == t.id) rows))
unfolding upsert find written replaced
find-upsert t [] = ground arith
find-upsert t (r ∷ rows) = ground (arith, find-upsert t rows)

newest-le :
    (id : TaskId) (ss : List TaskSnapshot) (n : TaskSnapshot)
    → newest id ss ≡ some n
    → n.version ≤ max_version id ss
unfolding newest max_version
newest-le id [] n h = ground arith
newest-le id (s ∷ ss) n h = elim (Option-cases (newest id ss)) [
  | inl e ↦ ground arith
  | inr (m, e) ↦ ground (arith, newest-le id ss m e)
]

-- A later snapshot is the newest, if it may be a baseline.
newest-snoc :
    (id : TaskId) (ss : List TaskSnapshot) (s : TaskSnapshot)
    → s.task_id ≡ id
    → max_version id ss < s.version
    → newest id (ss ++ s ∷ []) ≡ (if is_baseline s then some s else newest id ss)
unfolding newest max_version
newest-snoc id [] s e l = ground arith
newest-snoc id (x ∷ ss) s e l =
    let before : max_version id ss < s.version = ground arith in
    let newer : (x.task_id == id) ≡ true → x.version < s.version = ground arith in
    let ih = newest-snoc id ss s e before in
    elim (Bool-cases (is_baseline s)) [ inl b ↦ ground arith | inr b ↦ ground arith ]

load-snoc :
    (id : TaskId) (ss : List TaskSnapshot) (s : TaskSnapshot)
    → s.task_id ≡ id
    → max_version id ss < s.version
    → load_latest_baseline id (ss ++ s ∷ [])
      ≡ (if is_baseline s then some (read_snapshot s) else load_latest_baseline id ss)
unfolding load_latest_baseline read_newest
load-snoc id ss s e l = elim (Bool-cases (is_baseline s)) [
  | inl b ↦ rw (newest-snoc id ss s e l, b) refl
  | inr b ↦ rw (newest-snoc id ss s e l, b) refl
]

-- The baseline that is read after a task is written.
abbrev pub baseline_after : Timestamp → SnapshotSource → Task → TaskStore → Option TaskSnapshot
baseline_after at source t s =
    if is_baseline (appended at source t s)
    then some (read_snapshot (appended at source t s))
    else load_latest_baseline t.id s.history

get-stored :
    (at : Timestamp) (source : SnapshotSource) (t : Task) (s : TaskStore)
    → get t.id (stored at source t s)
      ≡ some (hydrate (written t (find (λ r. r.id == t.id) s.rows)) (baseline_after at source t s))
unfolding stored get found
get-stored at source t s =
    let versions : max_version t.id s.history < (appended at source t s).version = omega arith in
    rw (find-upsert t s.rows, load-snoc t.id s.history (appended at source t s) refl versions) refl

pub get_saved :
    (at : Timestamp) (source : SnapshotSource) (t : Task) (s s' : TaskStore)
    → save at source t s ≡ some s'
    → get t.id s'
      ≡ some (hydrate (written t (find (λ r. r.id == t.id) s.rows)) (baseline_after at source t s))
unfolding save
get_saved at source t s s' h =
    let e : stored at source t s ≡ s' = ground arith in rw (← e) (get-stored at source t s)

-- What the columns of a row are read as.
abbrev pub ReadsType : Option IssueType → Task → Type 0
ReadsType none u = u.issue_type ≡ none
ReadsType (some it) u = u.issue_type ≡ some (from (display it))

-- The columns that a save sets.
abbrev pub HasColumns : Task → Task → Type 0
HasColumns t u =
    (u.id ≡ t.id)
    × (u.workspace_id ≡ t.workspace_id)
    × (u.repo_id ≡ t.repo_id)
    × (u.filing_repo_id ≡ t.filing_repo_id)
    × (u.title ≡ t.title)
    × (u.body ≡ t.body)
    × (u.lifecycle ≡ t.lifecycle)
    × (u.sync ≡ t.sync)
    × (u.priority ≡ t.priority)
    × ReadsType t.issue_type u
    × (u.assignees ≡ t.assignees)
    × (u.remote ≡ t.remote)
    × (u.relations ≡ t.relations)
    × (u.project_item_id ≡ t.project_item_id)
    × (u.project_status_option_id ≡ t.project_status_option_id)
    × (u.hash ≡ t.hash)
    × (u.updated_at ≡ t.updated_at)

-- The columns that a save sets on a new row only, and the flag of the projection.
abbrev pub KeepsRow : Option Task → Task → Task → Type 0
KeepsRow none t u =
    (u.synced_at ≡ t.synced_at)
    × (u.created_at ≡ t.created_at)
    × (u.comments ≡ [])
    × (u.issue_type_pending ≡ t.issue_type_pending)
KeepsRow (some old) t u =
    (u.synced_at ≡ old.synced_at)
    × (u.created_at ≡ old.created_at)
    × (u.comments ≡ old.comments)
    × (u.issue_type_pending ≡ (
        if type_column t.issue_type == type_column old.issue_type
        then old.issue_type_pending
        else true))

-- The baseline after a save from a source that aligns with the remote, and from one that does not.
abbrev pub HasBaseline : Bool → Timestamp → SnapshotSource → Task → TaskStore → Task → Type 0
HasBaseline true at source t s u =
    (b : TaskSnapshot) × (u.synced_baseline ≡ some b)
    × (b.task_id ≡ t.id)
    × (b.title ≡ t.title)
    × (b.body ≡ t.body)
    × (b.lifecycle ≡ t.lifecycle)
    × (b.sync_state ≡ t.sync)
    × (b.priority ≡ t.priority)
    × (b.assignees ≡ t.assignees)
    × (b.issue_type ≡ u.issue_type)
    × (b.repo_id ≡ t.repo_id)
    × (b.filing_repo_id ≡ t.filing_repo_id)
    × (b.source ≡ source)
    × (b.captured_at ≡ at)
HasBaseline false at source t s u = u.synced_baseline ≡ load_latest_baseline t.id s.history

-- What is read of a task after the save of one, which is or is not this task.
abbrev pub ReadsBack :
    Bool → Timestamp → SnapshotSource → Task → TaskStore → TaskStore → TaskId → Type 0
ReadsBack true at source t s s' id =
    (u : Task) × (get id s' ≡ some u)
    × HasColumns t u
    × KeepsRow (find (λ r. r.id == t.id) s.rows) t u
    × HasBaseline (is_baseline (snapshot_view at source t)) at source t s u
ReadsBack false at source t s s' id = get id s' ≡ get id s

found-id :
    (id : TaskId) (rows : List Task) (r : Task) → find (λ x. x.id == id) rows ≡ some r → r.id ≡ id
unfolding find
found-id id [] r h = cc
found-id id (x ∷ rows) r h = ground (arith, found-id id rows r)

pub found-some :
    (o : Option Task) (b : Option TaskSnapshot) (t : Task)
    → found o b ≡ some t
    → (r : Task) × (o ≡ some r) × (t ≡ hydrate r b)
unfolding found
found-some none b t h = absurd (ground arith)
found-some (some r) b t h = (r, refl, ground arith)

-- A task that is read has the identifier that was asked for.
pub get-id : (id : TaskId) (s : TaskStore) (t : Task) → get id s ≡ some t → t.id ≡ id
unfolding get hydrate
get-id id s t h =
    let (r, e, d) = found-some (find (λ x. x.id == id) s.rows) _ t h in
    ap (λ (x : Task). x.id) d ∙ found-id id s.rows r e
