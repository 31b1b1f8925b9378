-- ===== src/TaskRepo/Listing.antt =====
-- crates/infra-sqlite/src/task_repo.rs: `list`, for the filter and the order that a caller asks for.
use repo_link.Prelude.{
  ℕ, zero, suc, Bool, ◌&&◌, ◌||◌, List, [], ◌∷◌, if◌then◌else◌, ◌==◌, nat_eq, ltb, retain,
}
use repo_link.Task.State.{Task}
use repo_link.TaskRepo.{TaskStore, hydrate, load_latest_baseline}

-- `ORDER BY`
module _ (before : Task → Task → Bool) where
  unfoldable pub insert : Task → List Task → List Task
  insert t [] = t ∷ []
  insert t (r ∷ rows) = if before t r then t ∷ r ∷ rows else r ∷ insert t rows

  unfoldable pub sort : List Task → List Task
  unfolding insert
  sort [] = []
  sort (t ∷ rows) = insert t (sort rows)

-- `ORDER BY tasks.created_at, tasks.id ASC`
abbrev pub is_older : Task → Task → Bool
is_older t r = ltb t.created_at r.created_at || (t.created_at == r.created_at && ltb t.id r.id)

-- `LIMIT`
unfoldable pub take : ℕ → List Task → List Task
take zero rows = []
take (suc n) [] = []
take (suc n) (r ∷ rows) = r ∷ take n rows

-- A row as it is read: with its baseline and without its comments.
unfoldable pub read_row : TaskStore → Task → Task
unfolding hydrate load_latest_baseline
read_row s r = hydrate (record r { comments = [] }) (load_latest_baseline r.id s.history)

unfoldable pub selected : (Task → Bool) → (Task → Task → Bool) → TaskStore → List Task
unfolding sort retain
selected keep before s = sort before (retain keep s.rows)
