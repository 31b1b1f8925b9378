-- ===== src/SyncService/Pull/Errors.antt =====
-- How a pull fails: crates/application-sync/src/service.rs.
use repo_link.Prelude.{
  Bool, true, false, Option, none, some, ◌≡◌, refl, arith, ◌==◌, Bool-cases, inl, inr,
}
use repo_link.Prelude.Text.{Text}
use repo_link.Core.{TaskId, Timestamp, ok, err}
use repo_link.Task.Enums.{not_planned, lifecycle_eq}
use repo_link.Task.Snapshot.Source.{SnapshotSource, pull}
use repo_link.Task.State.{Task}
use repo_link.Task.Sync.{Outcome, can_adopt, adopt_aligned_state}
use repo_link.Sync.Policy.{SyncDecision, noop, push_local, pull_remote, decide}
use repo_link.TaskRepo.{TaskStore, get, save}
use repo_link.Outbound.{RemoteTaskSnapshot, copy_inbound_mirror_from_snap}
use repo_link.TaskService.{Directory, filing_origin}
use repo_link.SyncService.{
  SyncError, domain, not_found, not_saved, unreachable, no_repo, no_remote, archived, Reply, done,
  failed, Step, proceed, ◌>>=◌, pure, need, write, get_task, saving, save_task, moved, Remote,
  Readings, replace_comments, filing_canonical_for, ensure_not_archived, Summary,
}
use repo_link.SyncService.Pull.{
  accept_remote, pull_decision, with_backfill, node_id_backfill, reconcile, backfill,
  mirror_comments, pull_observed, pull_inner,
}

-- The domain refused nothing.
unfoldable pub is_admitted {ℓ} : {A : Type ℓ} → Reply A → Bool
is_admitted (done a) = true
is_admitted (failed (domain e)) = false
is_admitted (failed _) = true

record IsAdmitted {ℓ} {A : Type ℓ} (m : Step A) : Type ℓ where
  admitted : (s : TaskStore) → is_admitted (m s).1 ≡ true

proceed-IsAdmitted {ℓ κ} :
    {A : Type ℓ} {B : Type κ} (r : TaskStore × Reply A) (k : A → Step B)
    → is_admitted r.1 ≡ true
    → ((a : A) → IsAdmitted (k a))
    → is_admitted (proceed r k).1 ≡ true
unfolding is_admitted
proceed-IsAdmitted (s, done a) k h f = (f a).admitted s
proceed-IsAdmitted (s, failed (domain e)) k h f = absurd (ground arith)
proceed-IsAdmitted (s, failed not_found) k h f = refl
proceed-IsAdmitted (s, failed not_saved) k h f = refl
proceed-IsAdmitted (s, failed unreachable) k h f = refl
proceed-IsAdmitted (s, failed no_repo) k h f = refl
proceed-IsAdmitted (s, failed no_remote) k h f = refl
proceed-IsAdmitted (s, failed archived) k h f = refl

bind-IsAdmitted {ℓ κ} :
    {A : Type ℓ} {B : Type κ} (m : Step A) (k : A → Step B)
    → IsAdmitted m
    → ((a : A) → IsAdmitted (k a))
    → IsAdmitted (m >>= k)
unfolding ◌>>=◌
bind-IsAdmitted m k h f = record { admitted = λ s. proceed-IsAdmitted (m s) k (h.admitted s) f }

pure-IsAdmitted {ℓ} : {A : Type ℓ} (a : A) → IsAdmitted (pure a)
unfolding is_admitted
pure-IsAdmitted a = record { admitted = λ s. refl }

write-IsAdmitted : (f : TaskStore → TaskStore) → IsAdmitted (write f)
unfolding is_admitted
write-IsAdmitted f = record { admitted = λ s. refl }

need-IsAdmitted {ℓ} :
    {A : Type ℓ} (e : SyncError) (o : Option A)
    → is_admitted {A = A} (failed e) ≡ true
    → IsAdmitted (need e o)
unfolding is_admitted
need-IsAdmitted e none h = record { admitted = λ s. h }
need-IsAdmitted e (some a) h = record { admitted = λ s. refl }

saving-is_admitted : (o : Option TaskStore) (s : TaskStore) → is_admitted (saving o s).1 ≡ true
unfolding is_admitted
saving-is_admitted none s = refl
saving-is_admitted (some x) s = refl

save-IsAdmitted :
    (at : Timestamp) (source : SnapshotSource) (t : Task) → IsAdmitted (save_task at source t)
unfolding save_task
save-IsAdmitted at source t = record { admitted = λ s. saving-is_admitted (save at source t s) s }

get-IsAdmitted : (id : TaskId) → IsAdmitted (get_task id)
unfolding get_task is_admitted
get-IsAdmitted id = record {
  admitted = λ s. (need-IsAdmitted not_found (get id s) refl).admitted s;
}

moved-IsAdmitted : (o : Outcome) → o.1 ≡ ok tt → IsAdmitted (moved o)
unfolding is_admitted
moved-IsAdmitted (t, ok v) h = record { admitted = λ s. refl }
moved-IsAdmitted (t, err e) h = absurd (ground arith)

-- A pull takes the remote only in a state that can adopt it.
taken-can_adopt :
    (force : Bool) (snap : RemoteTaskSnapshot) (t : Task)
    → pull_decision force snap t ≡ pull_remote
    → can_adopt t.sync ≡ true
unfolding pull_decision accept_remote decide can_adopt
taken-can_adopt force snap t h = ground arith

reconcile-IsAdmitted :
    (clock : Readings) (snap : RemoteTaskSnapshot) (t : Task) (d : SyncDecision)
    → (d ≡ pull_remote → can_adopt t.sync ≡ true)
    → IsAdmitted (reconcile clock snap t d)
unfolding reconcile adopt_aligned_state copy_inbound_mirror_from_snap
    repo_link.Task.Sync.is_adopt_source
reconcile-IsAdmitted clock snap t noop h = pure-IsAdmitted t
reconcile-IsAdmitted clock snap t push_local h = pure-IsAdmitted t
reconcile-IsAdmitted clock snap t pull_remote h =
    let copied = copy_inbound_mirror_from_snap snap.title snap.body snap.assignees snap.closed t in
    let moving = adopt_aligned_state clock.touched clock.captured pull copied in
    let can = h refl in
    bind-IsAdmitted (save_task clock.pre_pulled repo_link.Task.Snapshot.Source.pre_pull t) _
      (save-IsAdmitted clock.pre_pulled repo_link.Task.Snapshot.Source.pre_pull t)
      (λ v. bind-IsAdmitted (moved moving) _ (moved-IsAdmitted moving (ground arith)) (λ adopted.
        bind-IsAdmitted (save_task clock.stored pull adopted) _
          (save-IsAdmitted clock.stored pull adopted) (λ w. pure-IsAdmitted adopted)))

backfill-IsAdmitted : (id : TaskId) (o : Option Text) → IsAdmitted (backfill id o)
backfill-IsAdmitted id none = pure-IsAdmitted tt
backfill-IsAdmitted id (some node_id) = write-IsAdmitted _

mirrored-IsAdmitted :
    (remote : Remote) (clock : Readings) (id : TaskId) (canonical number : Text)
    (node_id : Option Text) (out : Summary)
    → IsAdmitted (mirror_comments remote clock id canonical number node_id out)
unfolding mirror_comments is_admitted
mirrored-IsAdmitted remote clock id canonical number node_id out =
    bind-IsAdmitted (need unreachable (remote.fetch_comments canonical number)) _
      (need-IsAdmitted unreachable (remote.fetch_comments canonical number) refl)
      (λ comments.
        bind-IsAdmitted (write (replace_comments clock.fresh id comments)) _ (write-IsAdmitted _)
          (λ v.
            bind-IsAdmitted (backfill id node_id) _ (backfill-IsAdmitted id node_id)
              (λ w. pure-IsAdmitted out)))

filing-IsAdmitted : (dir : Directory) (t : Task) → IsAdmitted (filing_canonical_for dir t)
unfolding filing_canonical_for is_admitted
filing-IsAdmitted dir t =
    bind-IsAdmitted (need no_repo (filing_origin dir t)) _
      (need-IsAdmitted no_repo (filing_origin dir t) refl)
      (λ id.
        bind-IsAdmitted (need not_found _) _ (need-IsAdmitted not_found _ refl)
          (λ o. pure-IsAdmitted _))

guard-IsAdmitted : (t : Task) → IsAdmitted (ensure_not_archived t)
unfolding ensure_not_archived is_admitted
guard-IsAdmitted t = elim (Bool-cases (t.lifecycle == not_planned)) [
  | inl y ↦ record { admitted = λ s. ground arith }
  | inr n ↦ record { admitted = λ s. ground arith }
]

observed-IsAdmitted :
    (remote : Remote) (clock : Readings) (force : Bool) (id : TaskId) (canonical : Text) (r : _)
    (task : Task) (snap : RemoteTaskSnapshot)
    → IsAdmitted (pull_observed remote clock force id canonical r task snap)
unfolding pull_observed
observed-IsAdmitted remote clock force id canonical r task snap =
    let t = with_backfill (node_id_backfill r snap) task in
    bind-IsAdmitted (write _) _ (write-IsAdmitted _) (λ v.
      bind-IsAdmitted (reconcile clock snap t (pull_decision force snap t)) _
        (reconcile-IsAdmitted clock snap t (pull_decision force snap t)
          (taken-can_adopt force snap t))
        (λ after. mirrored-IsAdmitted remote clock id canonical _ _ _))

-- Whatever the remote answers and the stores hold, the domain refuses nothing of a pull: if it fails,
-- a row, the repo or the issue is missing, the task is archived, the remote fails or a write is
-- refused.
pub pull_inner-is_admitted :
    (remote : Remote) (dir : Directory) (clock : Readings) (force : Bool) (id : TaskId)
    (s : TaskStore)
    → is_admitted (pull_inner remote dir clock force id s).1 ≡ true
unfolding pull_inner is_admitted
pull_inner-is_admitted remote dir clock force id s =
    (bind-IsAdmitted (get_task id) _ (get-IsAdmitted id) (λ task.
        bind-IsAdmitted (ensure_not_archived task) _ (guard-IsAdmitted task) (λ v.
          bind-IsAdmitted (filing_canonical_for dir task) _ (filing-IsAdmitted dir task)
            (λ canonical.
              bind-IsAdmitted (need no_remote task.remote) _
                (need-IsAdmitted no_remote task.remote refl)
                (λ r.
                  bind-IsAdmitted (need unreachable (remote.fetch_remote canonical r.remote_id)) _
                    (need-IsAdmitted unreachable (remote.fetch_remote canonical r.remote_id) refl)
                    (λ snap.
                      observed-IsAdmitted remote clock force id canonical r task snap)))))).admitted
      s
