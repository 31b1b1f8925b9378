-- ===== src/SyncService/Push/Settled.antt =====
-- What a push leaves: crates/application-sync/src/service.rs.
use repo_link.Prelude.{
  ℕ, suc, Bool, true, ◌&&◌, Option, none, some, List, [], ◌∷◌, ◌≡◌, refl, sym, subst, ◌∙◌, arith,
  ◌==◌, nat_eq, list_eq, option_eq, find, retain, any, Bool-cases, inl, inr,
}
use repo_link.Prelude.Text.{Text}
use repo_link.Core.{TaskId, Timestamp}
use repo_link.Task.Enums.{synced, conflict, sync_state_eq}
use repo_link.Task.Snapshot.{RemoteRef, TaskSnapshot, TaskComment}
use repo_link.Task.Snapshot.Source.{push}
use repo_link.Task.State.{Task}
use repo_link.Task.Mirror.{MirrorPatch, diff_against_baseline, full_mirror_patch}
use repo_link.Task.Sync.{confirm_synced_fields, can_confirm, is_patch_source}
use repo_link.Task.Sync.Confirm.{confirm-diff, confirm-full_conflict}
use repo_link.TaskRepo.{TaskStore, get, save, hydrate}
use repo_link.TaskRepo.Saved.{written, get_saved, get-id, baseline_after}
use repo_link.Outbound.{build_update_from_patch}
use repo_link.TaskService.{Directory}
use repo_link.Drainer.Apply.Pushes.{written-sync}
use repo_link.SyncService.{
  unreachable, no_remote, Step, ◌>>=◌, pure, need, write, get_task, save_task, moved, Remote,
  Readings, mark_comment_pushed, filing_canonical_for, Summary, RemoteComment,
}
use repo_link.SyncService.Stored.{StoredAs, update_row-StoredAs}
use repo_link.SyncService.Steps.{
  Runs, some_same, bind_run, need_run, get_run, save_run, moved_run, write_run, pure_run,
}
use repo_link.SyncService.Push.{
  is_snapshot_dirty, push_patch, send, push_snapshot, push_comment, push_comments, push_if,
  is_pending, guarded, summary_of, push_resolved, push_inner,
}

abbrev pub IsSynced : Task → Type 0
IsSynced u = u.sync ≡ synced

-- What is sent is enough to end in step with the remote.
patched-sync :
    (now : Timestamp) (force : Bool) (t : Task) (b : TaskSnapshot)
    → is_snapshot_dirty force t.sync ≡ true
    → t.synced_baseline ≡ some b
    → (confirm_synced_fields now push (push_patch force t) t).0.sync ≡ synced
unfolding is_snapshot_dirty push_patch can_confirm is_patch_source
patched-sync now force t b d e = elim (Bool-cases (force && t.sync == conflict)) [
  | inl y ↦ rw y (confirm-full_conflict now t b (ground arith) e).1
  | inr n ↦ rw n (confirm-diff now push t b e (ground arith) refl).1
]

confirmed-id :
    (now : Timestamp) (p : MirrorPatch) (t : Task)
    → (confirm_synced_fields now push p t).0.id ≡ t.id
unfolding confirm_synced_fields repo_link.Task.Sync.confirm_fields
    repo_link.Task.Mirror.reconcile_dirty_against_baseline
confirmed-id now p t = ground arith

saved-IsSynced :
    (at : Timestamp) (t : Task) (s s' : TaskStore)
    → save at push t s ≡ some s'
    → t.sync ≡ synced
    → StoredAs IsSynced t.id s'
unfolding hydrate
saved-IsSynced at t s s' h i = (
  hydrate (written t (find (λ r. r.id == t.id) s.rows)) (baseline_after at push t s),
  get_saved at push t s s' h,
  written-sync t (find (λ r. r.id == t.id) s.rows) ∙ i,
)

pushed-IsSynced :
    (remote : Remote) (clock : Readings) (canonical number : Text) (force : Bool) (t after : Task)
    (b : TaskSnapshot) (s s' : TaskStore)
    → is_snapshot_dirty force t.sync ≡ true
    → t.synced_baseline ≡ some b
    → Runs (push_snapshot remote clock canonical number (push_patch force t) t) s s' after
    → StoredAs IsSynced t.id s'
unfolding push_snapshot
pushed-IsSynced remote clock canonical number force t after b s s' d e h =
    let patch = push_patch force t in
    let o = confirm_synced_fields clock.touched push patch t in
    let store : Task → Step Task =
      λ confirmed. save_task clock.stored push confirmed >>= (λ _. pure confirmed) in
    let (s₁, v₁, r₁, h₁) =
      bind_run (send remote (build_update_from_patch patch canonical number))
        (λ _. moved o >>= store) s s' after h in
    let (s₂, c, r₂, h₂) = bind_run (moved o) store s₁ s' after h₁ in
    let (s₃, v₃, r₃, h₃) = bind_run (save_task clock.stored push c) (λ _. pure c) s₂ s' after h₂ in
    let value = (moved_run o s₁ s₂ c r₂).1 in
    let settled : c.sync ≡ synced =
      subst (λ (z : Task). z.sync ≡ synced) value (patched-sync clock.touched force t b d e) in
    let named : c.id ≡ t.id =
      subst (λ (z : Task). z.id ≡ t.id) value (confirmed-id clock.touched patch t) in
    subst (StoredAs IsSynced t.id) (pure_run c s₃ s' after h₃).0 (
      subst (λ i. StoredAs IsSynced i s₃) named
        (saved-IsSynced clock.stored c s₂ s₃ (save_run clock.stored push c s₂ s₃ v₃ r₃) settled))

marked-IsSynced :
    (fresh : ℕ → Text) (k : ℕ) (id : TaskId) (local_id : Text) (c : RemoteComment) (s : TaskStore)
    → StoredAs IsSynced id s
    → StoredAs IsSynced id (mark_comment_pushed fresh k id local_id c s)
unfolding mark_comment_pushed hydrate
marked-IsSynced fresh k id local_id c s a =
    update_row-StoredAs IsSynced id _ s (λ x. refl) (λ x b i. i) a

commented-IsSynced :
    (remote : Remote) (clock : Readings) (k : ℕ) (id : TaskId) (canonical number body : Text)
    (rest : Step (Unit {0})) (o : Option Text) (s s' : TaskStore) (v : Unit {0})
    → Runs (push_comment remote clock k id canonical number body rest o) s s' v
    → StoredAs IsSynced id s
    → ((x : TaskStore) → Runs rest x s' v → StoredAs IsSynced id x → StoredAs IsSynced id s')
    → StoredAs IsSynced id s'
unfolding push_comment
commented-IsSynced remote clock k id canonical number body rest none s s' v h a f = f s h a
commented-IsSynced remote clock k id canonical number body rest (some local_id) s s' v h a f =
    let asked = remote.create_comment canonical number body in
    let (s₁, c, r₁, h₁) =
      bind_run (need unreachable asked)
        (λ c. write (mark_comment_pushed clock.fresh k id local_id c) >>= (λ _. rest)) s s' v h in
    let mark = mark_comment_pushed clock.fresh k id local_id c in
    let (s₂, v₂, r₂, h₂) = bind_run (write mark) (λ _. rest) s₁ s' v h₁ in
    f s₂ h₂ (
      subst (StoredAs IsSynced id) (write_run mark s₁ s₂ v₂ r₂) (
        marked-IsSynced clock.fresh k id local_id c s₁
          (subst (StoredAs IsSynced id) (need_run unreachable asked s s₁ c r₁).0 a)))

drained-IsSynced :
    (remote : Remote) (clock : Readings) (k : ℕ) (id : TaskId) (canonical number : Text)
    (cs : List TaskComment) (s s' : TaskStore) (v : Unit {0})
    → Runs (push_comments remote clock k id canonical number cs) s s' v
    → StoredAs IsSynced id s
    → StoredAs IsSynced id s'
unfolding push_comments
drained-IsSynced remote clock k id canonical number [] s s' v h a =
    subst (StoredAs IsSynced id) (pure_run tt s s' v h).0 a
drained-IsSynced remote clock k id canonical number (c ∷ cs) s s' v h a =
    commented-IsSynced remote clock k id canonical number c.body
      (push_comments remote clock (suc k) id canonical number cs) c.local_id s s' v h a
      (λ x r i. drained-IsSynced remote clock (suc k) id canonical number cs x s' v r i)

resolved-IsSynced :
    (remote : Remote) (clock : Readings) (force : Bool) (canonical : Text) (r : RemoteRef)
    (t : Task) (b : TaskSnapshot) (s s' : TaskStore) (out : Summary)
    → is_snapshot_dirty force t.sync ≡ true
    → t.synced_baseline ≡ some b
    → Runs (push_resolved remote clock force t.id canonical r t) s s' out
    → StoredAs IsSynced t.id s'
unfolding push_resolved
resolved-IsSynced remote clock force canonical r t b s s' out d e h =
    let pushed = push_snapshot remote clock canonical r.remote_id (push_patch force t) t in
    let finish : Bool → Task → Step Summary = λ dirty after.
      push_comments remote clock 0 t.id canonical r.remote_id (retain is_pending after.comments)
      >>= (λ _. pure (summary_of t after dirty)) in
    let run : Runs (pushed >>= finish true) s s' out =
      subst
        (λ dirty.
          Runs (guarded dirty (any is_pending t.comments) (push_if dirty pushed t >>= finish dirty))
            s s' out)
        d h in
    let (s₁, after, r₁, h₁) = bind_run pushed (finish true) s s' out run in
    let (s₂, v₂, r₂, h₂) =
      bind_run
        (push_comments remote clock 0 t.id canonical r.remote_id (retain is_pending after.comments))
        (λ _. pure (summary_of t after true)) s₁ s' out h₁ in
    subst (StoredAs IsSynced t.id) (pure_run (summary_of t after true) s₂ s' out h₂).0 (
      drained-IsSynced remote clock 0 t.id canonical r.remote_id (retain is_pending after.comments)
        s₁ s₂ v₂ r₂
        (pushed-IsSynced remote clock canonical r.remote_id force t after b s s₁ d e r₁))

-- A push of a task that its snapshot's axis admits, over a baseline, which succeeds leaves the
-- stored task `Synced`, whichever comments it drained: from `DirtyLocal` or `Staged`, and from
-- `Conflict` when it is forced.
pub push_inner-IsSynced :
    (remote : Remote) (dir : Directory) (clock : Readings) (force : Bool) (id : TaskId) (t : Task)
    (b : TaskSnapshot) (s s' : TaskStore) (out : Summary)
    → get id s ≡ some t
    → is_snapshot_dirty force t.sync ≡ true
    → t.synced_baseline ≡ some b
    → Runs (push_inner remote dir clock force id) s s' out
    → (u : Task) × (get id s' ≡ some u) × (u.sync ≡ synced)
unfolding push_inner
push_inner-IsSynced remote dir clock force id t b s s' out g d e h =
    let (s₁, task, read, h₁) = bind_run (get_task id) _ s s' out h in
    let (s₂, canonical, r₂, h₂) = bind_run (filing_canonical_for dir task) _ s₁ s' out h₁ in
    let (s₃, r, r₃, h₃) = bind_run (need no_remote task.remote) _ s₂ s' out h₂ in
    let got = (get_run id s s₁ task read).1 in
    let same : t ≡ task = some_same (sym g ∙ got) in
    let named : task.id ≡ id = get-id id s task got in
    subst (λ i. StoredAs IsSynced i s') named
      (resolved-IsSynced remote clock force canonical r task b s₃ s' out
        (subst (λ (z : Task). is_snapshot_dirty force z.sync ≡ true) same d)
        (subst (λ (z : Task). z.synced_baseline ≡ some b) same e)
        (subst (λ i. Runs (push_resolved remote clock force i canonical r task) s₃ s' out)
          (sym named) h₃))
