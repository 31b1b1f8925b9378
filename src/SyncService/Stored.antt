-- ===== src/SyncService/Stored.antt =====
-- What is stored of a task, over writes to single columns: crates/infra-sqlite/src/task_repo.rs.
use repo_link.Prelude.{
  Option, some, List, [], ◌∷◌, ◌≡◌, refl, subst, arith, if◌then◌else◌, ◌==◌, nat_eq, find, map,
  Bool-cases, inl, inr,
}
use repo_link.Core.{TaskId}
use repo_link.Task.Snapshot.{TaskSnapshot}
use repo_link.Task.State.{Task}
use repo_link.TaskRepo.{TaskStore, get, hydrate, update_row}
use repo_link.TaskRepo.Saved.{found-some}

-- The task that reads back has a property.
abbrev pub StoredAs {ℓ} : (Task → Type ℓ) → TaskId → TaskStore → Type ℓ
StoredAs P id s = (u : Task) × (get id s ≡ some u) × P u

find-update :
    (id : TaskId) (f : Task → Task) (rows : List Task) (r : Task)
    → ((x : Task) → (f x).id ≡ x.id)
    → find (λ x. x.id == id) rows ≡ some r
    → find (λ x. x.id == id) (map (λ x. if x.id == id then f x else x) rows) ≡ some (f r)
unfolding find
find-update id f [] r k h = cc
find-update id f (x ∷ rows) r k h = elim (Bool-cases (x.id == id)) [
  | inl y ↦ let kept = k x in ground arith
  | inr n ↦ ground (arith, find-update id f rows r k)
]

-- A write to single columns, of which a property of the task before makes one of the task after.
pub update_row-becomes {ℓ} :
    (P Q : Task → Type ℓ) (id : TaskId) (f : Task → Task) (s : TaskStore)
    → ((x : Task) → (f x).id ≡ x.id)
    → ((x : Task) (b : Option TaskSnapshot) → P (hydrate x b) → Q (hydrate (f x) b))
    → StoredAs P id s
    → StoredAs Q id (update_row id f s)
unfolding get update_row repo_link.TaskRepo.found
update_row-becomes P Q id f s k make (u, h, a) =
    let (r, e, d) = found-some (find (λ x. x.id == id) s.rows) _ u h in
    let b = repo_link.TaskRepo.load_latest_baseline id s.history in
    (hydrate (f r) b, rw (find-update id f s.rows r k e) refl, make r b (subst P d a))

-- A write to other columns than a property reads keeps it.
pub update_row-StoredAs {ℓ} :
    (P : Task → Type ℓ) (id : TaskId) (f : Task → Task) (s : TaskStore)
    → ((x : Task) → (f x).id ≡ x.id)
    → ((x : Task) (b : Option TaskSnapshot) → P (hydrate x b) → P (hydrate (f x) b))
    → StoredAs P id s
    → StoredAs P id (update_row id f s)
update_row-StoredAs P id f s k keep h = update_row-becomes P P id f s k keep h
