-- ===== src/TaskRepo/Unique.antt =====
-- The unique indexes of the tables hold in every store that the statements reach:
-- crates/infra-sqlite/src/task_repo.rs.
use repo_link.Prelude.{
  Bool, true, false, not, ◌&&◌, ◌||◌, Option, none, some, List, [], ◌∷◌, ◌≡◌, refl, arith, ◌==◌,
  nat_eq, list_eq, option_eq, all, all_mono, Bool-cases, inl, inr, any, pairwise, pairwise-map,
  pairwise-retain,
}
use repo_link.Prelude.Text.{Text, is_empty}
use repo_link.Core.{TaskId, Timestamp}
use repo_link.Task.Enums.{Priority}
use repo_link.Task.IssueType.{IssueType}
use repo_link.Task.Snapshot.Source.{SnapshotSource}
use repo_link.Task.State.{Task}
use repo_link.TaskRepo.{
  TaskStore, upsert, replaced, same_remote, clashes, stored, save, update_row, cache_synced_at,
  cache_project_status, apply_polled_priority, mark_remote_dirty, with_node_id,
  cache_remote_node_id, clear_issue_type_pending, delete,
}

-- Two rows have different identifiers, hashes (where there is one) and remote issues.
unfoldable pub apart : Task → Task → Bool
unfolding same_remote
apart t r =
    not (r.id == t.id) && not ((r.hash == t.hash && not (is_empty t.hash)) || same_remote t r)

abbrev pub is_unique : List Task → Bool
is_unique rows = pairwise apart rows

-- A row of another task that does not clash with a task is apart from it, on either side, and
-- from the row that takes the task.
apart_of_clashes :
    (t r old : Task)
    → clashes t r ≡ false
    → (r.id == t.id) ≡ false
    → (apart r (replaced t old) ≡ true)
      × (apart (replaced t old) r ≡ true)
      × (apart r (record t { comments = []; synced_baseline = none }) ≡ true)
unfolding apart clashes same_remote replaced is_empty
apart_of_clashes t r old c n = ground arith

all-apart-upsert :
    (x t : Task) (rows : List Task)
    → clashes t x ≡ false
    → (x.id == t.id) ≡ false
    → all (apart x) rows ≡ true
    → all (apart x) (upsert t rows) ≡ true
unfolding upsert all
all-apart-upsert x t [] c n h = ground (arith, apart_of_clashes t x t)
all-apart-upsert x t (r ∷ rows) c n h =
    ground (arith, apart_of_clashes t x r, all-apart-upsert x t rows)

all-apart-replaced :
    (t old : Task) (rows : List Task)
    → any (clashes t) rows ≡ false
    → all (λ r. not (r.id == t.id)) rows ≡ true
    → all (apart (replaced t old)) rows ≡ true
unfolding any all
all-apart-replaced t old [] c h = refl
all-apart-replaced t old (r ∷ rows) c h =
    ground (arith, apart_of_clashes t r old, all-apart-replaced t old rows)

apart_ids : (t r x : Task) → (r.id == t.id) ≡ true → apart r x ≡ true → not (x.id == t.id) ≡ true
unfolding apart
apart_ids t r x y k = ground arith

upsert-is_unique :
    (t : Task) (rows : List Task)
    → any (clashes t) rows ≡ false
    → is_unique rows ≡ true
    → is_unique (upsert t rows) ≡ true
unfolding upsert any pairwise
upsert-is_unique t [] c h = refl
upsert-is_unique t (r ∷ rows) c h = elim (Bool-cases (r.id == t.id)) [
  | inl y ↦
      let others : all (λ x. not (x.id == t.id)) rows ≡ true =
        all_mono (apart r) _ rows (λ x k. apart_ids t r x y k) (ground arith) in
      ground (arith, all-apart-replaced t r rows)
  | inr n ↦ ground (arith, all-apart-upsert r t rows, upsert-is_unique t rows)
]

-- The statements that change the tasks.
pub data Change (s : TaskStore) : TaskStore → Type 0 where
  saved :
      (at : Timestamp) (source : SnapshotSource) (t : Task) (s' : TaskStore)
      → save at source t s ≡ some s'
      → Change s s'
  synced_at_cached : (id : TaskId) (at : Timestamp) → Change s (cache_synced_at id at s)
  status_cached :
      (id : TaskId) (option_id : Option Text) → Change s (cache_project_status id option_id s)
  priority_polled : (id : TaskId) (p : Priority) → Change s (apply_polled_priority id p s)
  remote_marked : (id : TaskId) → Change s (mark_remote_dirty id s)
  node_id_cached : (id : TaskId) (node_id : Text) → Change s (cache_remote_node_id id node_id s)
  pending_cleared :
      (id : TaskId) (expected : Option IssueType)
      → Change s (clear_issue_type_pending id expected s).0
  deleted : (id : TaskId) → Change s (delete id s)

pub Change-is_unique :
    {s s' : TaskStore} → Change s s' → is_unique s.rows ≡ true → is_unique s'.rows ≡ true
unfolding save stored update_row cache_synced_at cache_project_status apply_polled_priority
    mark_remote_dirty with_node_id cache_remote_node_id clear_issue_type_pending delete apart
Change-is_unique {s} (saved at source t s' e) h = ground (arith, upsert-is_unique t s.rows)
Change-is_unique {s} (synced_at_cached id at) h =
    pairwise-map apart _ s.rows (λ x y k. ground arith) h
Change-is_unique {s} (status_cached id option_id) h =
    pairwise-map apart _ s.rows (λ x y k. ground arith) h
Change-is_unique {s} (priority_polled id p) h =
    pairwise-map apart _ s.rows (λ x y k. ground arith) h
Change-is_unique {s} (remote_marked id) h = pairwise-map apart _ s.rows (λ x y k. ground arith) h
Change-is_unique {s} (node_id_cached id node_id) h =
    pairwise-map apart _ s.rows (λ x y k. ground arith) h
Change-is_unique {s} (pending_cleared id expected) h =
    pairwise-map apart _ s.rows (λ x y k. ground arith) h
Change-is_unique {s} (deleted id) h =
    pairwise-map apart _ _ (λ x y k. ground arith)
      (pairwise-retain apart (λ r. not (r.id == id)) s.rows h)

-- The stores that the statements make of empty tables.
pub data Stored : TaskStore → Type 0 where
  start : Stored (record { rows = []; history = [] })
  next : {s s' : TaskStore} → Stored s → Change s s' → Stored s'

-- In every store that the statements make of empty tables, no two rows have one identifier, one
-- hash that is not empty, or one remote issue of one filing repo.
pub Stored-is_unique : {s : TaskStore} → Stored s → is_unique s.rows ≡ true
unfolding pairwise
Stored-is_unique start = refl
Stored-is_unique (next r c) = Change-is_unique c (Stored-is_unique r)
