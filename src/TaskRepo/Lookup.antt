-- ===== src/TaskRepo/Lookup.antt =====
-- The lookups by another key find the task that was saved: crates/infra-sqlite/src/task_repo.rs.
use repo_link.Prelude.{
  Bool, true, false, Option, none, some, List, [], ◌∷◌, ◌≡◌, refl, arith, ◌==◌, nat_eq, list_eq,
  option_eq, find, find-all, pairwise, Bool-cases, Option-cases, inl, inr, ◌∙◌, ap,
}
use repo_link.Prelude.Text.{Text, is_empty}
use repo_link.Core.{TaskId, RepoId, Timestamp}
use repo_link.Task.Mirror.{is_dirty}
use repo_link.Task.Mirror.Assignees.{assignees_equal_refl}
use repo_link.Task.Snapshot.{RemoteRef, TaskSnapshot}
use repo_link.Task.Snapshot.Source.{SnapshotSource, push}
use repo_link.Task.State.{Task}
use repo_link.TaskRepo.{
  TaskStore, replaced, same_remote, save, stored, appended, read_snapshot, hydrate, get, tracks,
  find_by_remote, find_by_hash, get_row,
}
use repo_link.TaskRepo.Saved.{written, find-upsert, get_saved}
use repo_link.TaskRepo.Unique.{apart, is_unique, Change-is_unique, saved}

-- A test that a row passes, and no row that is apart from it, finds that row.
pub find-apart :
    (q : Task → Bool) (id : TaskId) (rows : List Task) (x : Task)
    → is_unique rows ≡ true
    → find (λ r. r.id == id) rows ≡ some x
    → q x ≡ true
    → ((y : Task) → apart y x ≡ true → q y ≡ false)
    → find q rows ≡ some x
unfolding find pairwise
find-apart q id [] x u h p f = cc
find-apart q id (r ∷ rows) x u h p f = elim (Bool-cases (r.id == id)) [
  | inl y ↦ ground arith
  | inr n ↦
      let found : find (λ r. r.id == id) rows ≡ some x = ground arith in
      let other : apart r x ≡ true =
        (find-all (apart r) (λ r. r.id == id) rows x (ground arith) found).0 in
      let missed = f r other in ground (arith, find-apart q id rows x)
]

-- The row that a save leaves has the keys of the task.
written_keys :
    (t : Task) (o : Option Task)
    → ((written t o).id ≡ t.id)
      × ((written t o).hash ≡ t.hash)
      × ((written t o).remote ≡ t.remote)
      × ((written t o).filing_repo_id ≡ t.filing_repo_id)
unfolding written replaced
written_keys t none = (refl, refl, refl, refl)
written_keys t (some r) = (refl, refl, refl, refl)

pub same_hash :
    (h : Text) (x y : Task)
    → x.hash ≡ h
    → is_empty h ≡ false
    → apart y x ≡ true
    → (y.hash == h) ≡ false
unfolding apart
same_hash h x y e n k = ground arith

same_tracked_at :
    (f : RepoId) (r b : RemoteRef) (x y : Task)
    → (y.filing_repo_id == x.filing_repo_id) ≡ (y.filing_repo_id == some f)
    → x.remote ≡ some r
    → y.remote ≡ some b
    → apart y x ≡ true
    → tracks f r.provider r.remote_id y ≡ false
unfolding apart same_remote tracks
same_tracked_at f r b x y e n o k = ground arith

same_tracked :
    (f : RepoId) (r : RemoteRef) (x y : Task)
    → x.filing_repo_id ≡ some f
    → x.remote ≡ some r
    → apart y x ≡ true
    → tracks f r.provider r.remote_id y ≡ false
unfolding tracks
same_tracked f r x y e n k = elim (Option-cases y.remote) [
  | inl o ↦ ground arith
  | inr (b, o) ↦ same_tracked_at f r b x y (ap (λ g. y.filing_repo_id == g) e) n o k
]

is_tracked :
    (f : RepoId) (r : RemoteRef) (x : Task)
    → x.filing_repo_id ≡ some f
    → x.remote ≡ some r
    → tracks f r.provider r.remote_id x ≡ true
unfolding tracks
is_tracked f r x e n = ground arith

-- In a store whose rows are apart, a task that is saved with a hash, with an issue and filed in a repo
-- is found by its hash and by its remote issue: both lookups read what `get` reads.
pub find-save :
    (at : Timestamp) (source : SnapshotSource) (t : Task) (s s' : TaskStore) (f : RepoId)
    (r : RemoteRef)
    → is_unique s.rows ≡ true
    → is_empty t.hash ≡ false
    → t.filing_repo_id ≡ some f
    → t.remote ≡ some r
    → save at source t s ≡ some s'
    → (find_by_hash t.hash s' ≡ get t.id s')
      × (find_by_remote f r.provider r.remote_id s' ≡ get t.id s')
unfolding find_by_hash find_by_remote get_row save stored
find-save at source t s s' f r u n a b h =
    let uniq = Change-is_unique (saved at source t s' h) u in
    let x = written t (find (λ r. r.id == t.id) s.rows) in
    let (i, k, m, g) = written_keys t (find (λ r. r.id == t.id) s.rows) in
    let e : find (λ r. r.id == t.id) s'.rows ≡ some x = ground (arith, find-upsert t s.rows) in
    let by_hash =
      find-apart (λ r. r.hash == t.hash) t.id s'.rows x uniq e (rw (k) (ground arith))
        (λ y. same_hash t.hash x y k n) in
    let by_remote =
      find-apart (tracks f r.provider r.remote_id) t.id s'.rows x uniq e
        (is_tracked f r x (g ∙ a) (m ∙ b)) (λ y. same_tracked f r x y (g ∙ a) (m ∙ b)) in
    (rw (n, by_hash, i) refl, rw (by_remote, i) refl)

push_clean :
    (at : Timestamp) (t : Task) (s : TaskStore) (o : Option Task)
    → is_dirty
        (hydrate (written t o) (some (read_snapshot (appended at push t s))))
        (read_snapshot (appended at push t s))
      ≡ false
unfolding is_dirty hydrate written replaced read_snapshot appended
push_clean at t s none = ground (arith, assignees_equal_refl t.assignees)
push_clean at t s (some r) = ground (arith, assignees_equal_refl t.assignees)

-- A task that is saved by a push reads back with its own content as baseline, whatever baseline
-- it carried: no mirrored field of it is dirty.
pub push_rebaselines :
    (at : Timestamp) (t : Task) (s s' : TaskStore)
    → save at push t s ≡ some s'
    → (u : Task) × (b : TaskSnapshot) × (get t.id s' ≡ some u)
      × (u.synced_baseline ≡ some b)
      × (is_dirty u b ≡ false)
unfolding is_dirty repo_link.Task.Snapshot.is_baseline
    repo_link.Task.Snapshot.Source.SnapshotSource-discrete appended hydrate read_snapshot
push_rebaselines at t s s' h =
    let row = written t (find (λ r. r.id == t.id) s.rows) in
    (
      hydrate row (some (read_snapshot (appended at push t s))),
      read_snapshot (appended at push t s),
      get_saved at push t s s' h,
      refl,
      push_clean at t s (find (λ r. r.id == t.id) s.rows),
    )
