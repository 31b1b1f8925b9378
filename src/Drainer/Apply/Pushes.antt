-- ===== src/Drainer/Apply/Pushes.antt =====
-- How `UpdateRemote` and `AddItem` come out: crates/application-sync/src/drainer.rs.
use repo_link.Prelude.{
  Bool, true, false, Option, none, some, List, [], ◌∷◌, ◌≡◌, ◌≢◌, refl, ◌∙◌, ap, subst, arith,
  if◌then◌else◌, ◌==◌, nat_eq, list_eq, find, Option-cases, inl, inr,
}
use repo_link.Prelude.Text.{Text}
use repo_link.Core.{TaskId, Result, ok, err}
use repo_link.Task.Enums.{synced}
use repo_link.Task.Snapshot.{TaskSnapshot}
use repo_link.Task.Snapshot.Source.{push}
use repo_link.Task.State.{Task}
use repo_link.Task.Mirror.{
  MirrorPatch, MirrorField, differs, diff_against_baseline, assignees_equal,
}
use repo_link.Task.Sync.{can_confirm, confirm_synced_fields, is_patch_source}
use repo_link.Task.Sync.Confirm.{confirm-diff}
use repo_link.Sync.Policy.{assignee_mismatch}
use repo_link.TaskRepo.{TaskStore, get, save, hydrate}
use repo_link.TaskRepo.Saved.{written, get_saved, get-id, baseline_after}
use repo_link.Outbound.{RemoteTaskUpdate, RemoteTaskSnapshot, build_update_from_patch}
use repo_link.Drainer.{ApplyDisposition, stamped, conflicting}
use repo_link.Drainer.Effects.{
  answered, Call, Env, World, done, Act, pure, ◌>>=◌, get_task, save_task,
}
use repo_link.Drainer.Apply.{
  are_confirmed, confirm_outcome, confirm_and_save, push_patch, apply_update_remote,
}
use repo_link.Drainer.Apply.Replay.{Runs, bind_done, ask_stamped, saving_done}

-- A saved task reads back in the sync state that was saved.
pub written-sync : (t : Task) (o : Option Task) → (written t o).sync ≡ t.sync
unfolding written repo_link.TaskRepo.replaced
written-sync t none = refl
written-sync t (some r) = refl

abbrev pub IsSynced : TaskId → TaskStore → Type 0
IsSynced id s = (u : Task) × (get id s ≡ some u) × (u.sync ≡ synced)

saved-IsSynced :
    (env : Env) (t : Task) (w w' : World) (u : Unit {0})
    → t.sync ≡ synced
    → Runs (save_task env push t) w w' u
    → IsSynced t.id w'.tasks
unfolding save_task hydrate
saved-IsSynced env t w w' u i h =
    let e = saving_done (env.not_saved t.id) _ w w' u h in
    (
      hydrate (written t (find (λ r. r.id == t.id) w.tasks.rows))
          (baseline_after env.saved_at push t w.tasks),
      get_saved env.saved_at push t w.tasks w'.tasks e,
      written-sync t (find (λ r. r.id == t.id) w.tasks.rows) ∙ i,
    )

confirm_outcome-IsSynced :
    (env : Env) (t u : Task) (r : Result (Unit {0})) (w w' : World)
    → u.sync ≡ synced
    → Runs (confirm_outcome env t u r) w w' stamped
    → IsSynced u.id w'.tasks
unfolding confirm_outcome
confirm_outcome-IsSynced env t u (err e) w w' s h = absurd (ground arith)
confirm_outcome-IsSynced env t u (ok v) w w' s h =
    let (x, y, saved, rest) = bind_done (save_task env push u) (λ _. pure stamped) w w' stamped h in
    let same = ap (λ (r : World × _). r.0.tasks) rest in
    subst (IsSynced u.id) same (saved-IsSynced env u w x y s saved)

-- Confirming the diff keeps the identifier.
confirm-id :
    (env : Env) (t : Task) (p : MirrorPatch) → (confirm_synced_fields env.now push p t).0.id ≡ t.id
unfolding confirm_synced_fields repo_link.Task.Sync.confirm_fields
    repo_link.Task.Mirror.reconcile_dirty_against_baseline
confirm-id env t p = ground arith

confirm_and_save-IsSynced :
    (env : Env) (t : Task) (b : TaskSnapshot) (w w' : World)
    → t.synced_baseline ≡ some b
    → can_confirm t.sync ≡ true
    → Runs (confirm_and_save env t (diff_against_baseline t)) w w' stamped
    → IsSynced t.id w'.tasks
unfolding confirm_and_save is_patch_source
confirm_and_save-IsSynced env t b w w' e c h =
    let after = confirm_synced_fields env.now push (diff_against_baseline t) t in
    let settled = (confirm-diff env.now push t b e c refl).1 in
    subst (λ i. IsSynced i w'.tasks) (confirm-id env t (diff_against_baseline t))
      (confirm_outcome-IsSynced env t after.0 after.1 w w' settled h)

confirmed_run :
    (b : Bool) (m : Act ApplyDisposition) (w w' : World)
    → Runs (if b then m else pure (conflicting assignee_mismatch)) w w' stamped
    → Runs m w w' stamped
confirmed_run true m w w' h = h
confirmed_run false m w w' h = absurd (ground arith)

push_patch-IsSynced :
    (env : Env) (t : Task) (b : TaskSnapshot) (u : Option RemoteTaskUpdate) (w w' : World)
    → t.synced_baseline ≡ some b
    → can_confirm t.sync ≡ true
    → Runs (push_patch env t (diff_against_baseline t) u) w w' stamped
    → IsSynced t.id w'.tasks
unfolding push_patch
push_patch-IsSynced env t b none w w' e c h = confirm_and_save-IsSynced env t b w w' e c h
push_patch-IsSynced env t b (some u) w w' e c h =
    let confirm = confirm_and_save env t (diff_against_baseline t) in
    let next = λ (snap : RemoteTaskSnapshot).
      if are_confirmed u.assignees snap.assignees
      then confirm
      else pure (conflicting assignee_mismatch) in
    let (x, snap, same, run) =
      ask_stamped (Call.update_remote u) (env.remote.update_remote u) next w w' h in
    confirm_and_save-IsSynced env t b x w' e c
      (confirmed_run (are_confirmed u.assignees snap.assignees) confirm x w' run)

-- An `UpdateRemote` that was stamped, of a task over a baseline and in a state that a push may
-- confirm, leaves the stored task `Synced`.
pub update_remote-IsSynced :
    (env : Env) (id : TaskId) (canonical number : Text) (t : Task) (b : TaskSnapshot) (w w' : World)
    → get id w.tasks ≡ some t
    → t.synced_baseline ≡ some b
    → can_confirm t.sync ≡ true
    → Runs (apply_update_remote env id canonical number) w w' stamped
    → IsSynced id w'.tasks
unfolding apply_update_remote ◌>>=◌ get_task
update_remote-IsSynced env id canonical number t b w w' r e c h =
    let patch = diff_against_baseline t in
    subst (λ i. IsSynced i w'.tasks) (get-id id w.tasks t r)
      (push_patch-IsSynced env t b (build_update_from_patch patch canonical number) w w' e c
        (rw (r, c) at h))

-- The patch that is sent carries the assignees as they are, if they differ.
sent_assignees :
    (t : Task) (b : TaskSnapshot) (canonical number : Text)
    → t.synced_baseline ≡ some b
    → differs MirrorField.assignees t b ≡ true
    → (u : RemoteTaskUpdate) × (build_update_from_patch (diff_against_baseline t) canonical number
        ≡ some u)
      × (u.assignees ≡ some t.assignees)
unfolding build_update_from_patch diff_against_baseline repo_link.Task.Mirror.is_empty
sent_assignees t b canonical number e d =
    elim (Option-cases (build_update_from_patch (diff_against_baseline t) canonical number)) [
      | inl n ↦ absurd (ground arith)
      | inr (u, x) ↦ (u, x, ground arith)
    ]

unconfirmed : (sent got : List Text) → got ≢ sent → are_confirmed (some sent) got ≡ false
unfolding are_confirmed
unconfirmed [] got n = ground arith
unconfirmed (x ∷ sent) got n = ground arith

-- If a task over a baseline, in a state that a push may confirm, has assignees that differ from the
-- baseline's, and the remote answers each update with another list, even with the same members in
-- another order, then an `UpdateRemote` of it comes out as a conflict over the assignees.
pub reordered_assignees :
    (env : Env) (id : TaskId) (canonical number : Text) (t : Task) (b : TaskSnapshot)
    (snap : RemoteTaskSnapshot) (w : World)
    → get id w.tasks ≡ some t
    → t.synced_baseline ≡ some b
    → can_confirm t.sync ≡ true
    → differs MirrorField.assignees t b ≡ true
    → ((u : RemoteTaskUpdate) → env.remote.update_remote u ≡ answered snap)
    → snap.assignees ≢ t.assignees
    → (apply_update_remote env id canonical number w).1 ≡ done (conflicting assignee_mismatch)
unfolding apply_update_remote ◌>>=◌ get_task push_patch
reordered_assignees env id canonical number t b snap w r e c d a n =
    let (u, sent, got) = sent_assignees t b canonical number e d in
    rw (r, c, sent, a u, got, unconfirmed t.assignees snap.assignees n) refl
