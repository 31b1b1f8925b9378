-- ===== src/Poller/Kept.antt =====
-- What the poller may change of the stored tasks: crates/application-sync/src/poller.rs.
pub mod Passes
use repo_link.Prelude.{
  ◌+◌, ℕ, Bool, true, false, not, ◌&&◌, ◌||◌, Option, none, some, List, [], ◌∷◌, ◌≡◌, ◌≢◌, refl,
  sym, ap, ◌∙◌, arith, subst, ltb, if◌then◌else◌, ◌==◌, nat_eq, list_eq, option_eq, Bool-cases, inl,
  inr, ◌⊎◌, length, map,
}
use repo_link.Prelude.Text.{Text}
use repo_link.Core.{TaskId, Timestamp}
use repo_link.Task.Enums.{SyncState, synced, dirty_remote, sync_state_eq, Priority}
use repo_link.Task.State.{Task}
use repo_link.Project.Board.{Project}
use repo_link.Project.Board.FieldIds.{status_field_id}
use repo_link.OutboxRepo.{Table}
use repo_link.TaskRepo.{
  TaskStore, get, update_row, cache_synced_at, cache_project_status, apply_polled_priority,
  mark_remote_dirty,
}
use repo_link.Poller.{
  RemoteProjectItem, PollPage, Seen, drift_found, mark_drift, check_content, polled_priority,
  take_priority, reconcile_priority, cache_status, reconcile_task,
}
use repo_link.Poller.Maps.{entry, put}
use repo_link.Poller.Pass.{
  Env, PollState, watermark, matched, reconcile_item, reconcile_if, stamp_if, poll_query,
  reconcile_items, max_seen, page_end, polled, poll_field, poll_project, poll_projects, is_observed,
  project_of, stamp, stamp_all, started, finish, poll_once,
}

-- A row may change in the columns that the poller caches, and from `Synced` to `DirtyRemote`.
pub record IsObserved (t u : Task) : Type 0 where
  pub columns : u ≡ record t {
    sync = u.sync;
    priority = u.priority;
    project_status_option_id = u.project_status_option_id;
    synced_at = u.synced_at;
  }
  pub moved : (u.sync ≡ t.sync) ⊎ ((t.sync ≡ synced) × (u.sync ≡ dirty_remote))

abbrev pub AreObserved : List Task → List Task → Type 0
AreObserved [] [] = Unit {0}
AreObserved (t ∷ ts) (u ∷ us) = IsObserved t u × AreObserved ts us
AreObserved _ _ = ⊥

-- The store keeps its history and, row by row, all else.
pub record Kept (s s' : TaskStore) : Type 0 where
  pub history : s'.history ≡ s.history
  pub rows : AreObserved s.rows s'.rows

pub IsObserved-refl : (t : Task) → IsObserved t t
IsObserved-refl t = record { columns = refl; moved = inl refl }

IsObserved-trans : (t u v : Task) → IsObserved t u → IsObserved u v → IsObserved t v
IsObserved-trans t u v a b =
    let x = a.moved in
    let y = b.moved in
    record {
      columns =
          b.columns
          ∙ ap
              (λ (z : Task). record z {
                sync = v.sync;
                priority = v.priority;
                project_status_option_id = v.project_status_option_id;
                synced_at = v.synced_at;
              })
              a.columns;
      moved = ground arith;
    }

rows_refl : (ts : List Task) → AreObserved ts ts
rows_refl [] = tt
rows_refl (t ∷ ts) = (IsObserved-refl t, rows_refl ts)

rows_trans : (ts us vs : List Task) → AreObserved ts us → AreObserved us vs → AreObserved ts vs
rows_trans [] [] [] a b = tt
rows_trans (t ∷ ts) (u ∷ us) (v ∷ vs) (a, k) (b, l) =
    (IsObserved-trans t u v a b, rows_trans ts us vs k l)
rows_trans [] (u ∷ us) vs a b = absurd a
rows_trans (t ∷ ts) [] vs a b = absurd a
rows_trans ts (u ∷ us) [] a b = absurd b
rows_trans ts [] (v ∷ vs) a b = absurd b

pub Kept-refl : (s : TaskStore) → Kept s s
Kept-refl s = record { history = refl; rows = rows_refl s.rows }

pub Kept-trans : (s s' s'' : TaskStore) → Kept s s' → Kept s' s'' → Kept s s''
Kept-trans s s' s'' a b = record {
  history = b.history ∙ a.history;
  rows = rows_trans s.rows s'.rows s''.rows a.rows b.rows;
}

IsObserved-if : (t u : Task) (b : Bool) → IsObserved t u → IsObserved t (if b then u else t)
IsObserved-if t u true h = h
IsObserved-if t u false h = IsObserved-refl t

map-AreObserved :
    (id : TaskId) (f : Task → Task)
    → ((t : Task) → IsObserved t (f t))
    → (ts : List Task) → AreObserved ts (map (λ r. if r.id == id then f r else r) ts)
map-AreObserved id f h [] = tt
map-AreObserved id f h (t ∷ ts) =
    (IsObserved-if t (f t) (t.id == id) (h t), map-AreObserved id f h ts)

pub update_row-Kept :
    (id : TaskId) (f : Task → Task)
    → ((t : Task) → IsObserved t (f t))
    → (s : TaskStore) → Kept s (update_row id f s)
unfolding update_row
update_row-Kept id f h s = record { history = refl; rows = map-AreObserved id f h s.rows }
