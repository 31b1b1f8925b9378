-- ===== src/SyncService/Steps.antt =====
-- What a run of steps says of each: crates/application-sync/src/service.rs.
use repo_link.Prelude.{Option, none, some, ◌≡◌, refl, arith}
use repo_link.Core.{TaskId, Timestamp, ok, err}
use repo_link.Task.Snapshot.Source.{SnapshotSource}
use repo_link.Task.State.{Task}
use repo_link.Task.Sync.{Outcome}
use repo_link.TaskRepo.{TaskStore, get, save}
use repo_link.SyncService.{
  SyncError, not_found, Reply, done, failed, Step, proceed, ◌>>=◌, pure, need, write, get_task,
  saving, save_task, moved,
}

pub some_same {ℓ} : {A : Type ℓ} {a b : A} → some a ≡ some b → a ≡ b
some_same h = ground arith

-- A run that succeeds: the tasks after it and its value.
abbrev pub Runs {ℓ} : {A : Type ℓ} → Step A → TaskStore → TaskStore → A → Type ℓ
Runs m s s' a = m s ≡ (s', done a)

proceeded {ℓ κ} :
    {A : Type ℓ} {B : Type κ} (r : TaskStore × Reply A) (k : A → Step B) (s' : TaskStore) (b : B)
    → proceed r k ≡ (s', done b)
    → (u : TaskStore) × (a : A) × (r ≡ (u, done a)) × Runs (k a) u s' b
proceeded (u, done a) k s' b h = (u, a, refl, h)
proceeded (u, failed e) k s' b h = absurd (ground arith)

pub bind_run {ℓ κ} :
    {A : Type ℓ} {B : Type κ} (m : Step A) (k : A → Step B) (s s' : TaskStore) (b : B)
    → Runs (m >>= k) s s' b
    → (u : TaskStore) × (a : A) × Runs m s u a × Runs (k a) u s' b
unfolding ◌>>=◌
bind_run m k s s' b h = proceeded (m s) k s' b h

pub need_run {ℓ} :
    {A : Type ℓ} (e : SyncError) (o : Option A) (s s' : TaskStore) (a : A)
    → Runs (need e o) s s' a
    → (s ≡ s') × (o ≡ some a)
need_run e none s s' a h = absurd (ground arith)
need_run e (some b) s s' a h = ground arith

pub get_run :
    (id : TaskId) (s s' : TaskStore) (t : Task)
    → Runs (get_task id) s s' t
    → (s ≡ s') × (get id s ≡ some t)
unfolding get_task
get_run id s s' t h = need_run not_found (get id s) s s' t h

saving_run :
    (o : Option TaskStore) (s s' : TaskStore) (u : Unit {0}) → Runs (saving o) s s' u → o ≡ some s'
saving_run none s s' u h = absurd (ground arith)
saving_run (some x) s s' u h = ground arith

pub save_run :
    (at : Timestamp) (source : SnapshotSource) (t : Task) (s s' : TaskStore) (u : Unit {0})
    → Runs (save_task at source t) s s' u
    → save at source t s ≡ some s'
unfolding save_task
save_run at source t s s' u h = saving_run (save at source t s) s s' u h

pub moved_run :
    (o : Outcome) (s s' : TaskStore) (t : Task)
    → Runs (moved o) s s' t
    → (s ≡ s') × (o.0 ≡ t) × (o.1 ≡ ok tt)
moved_run (x, ok v) s s' t h = (ground arith, ground arith, ground arith)
moved_run (x, err e) s s' t h = absurd (ground arith)

pub write_run :
    (f : TaskStore → TaskStore) (s s' : TaskStore) (u : Unit {0}) → Runs (write f) s s' u → f s ≡ s'
write_run f s s' u h = ground arith

pub pure_run {ℓ} :
    {A : Type ℓ} (a : A) (s s' : TaskStore) (b : A) → Runs (pure a) s s' b → (s ≡ s') × (a ≡ b)
pure_run a s s' b h = ground arith
