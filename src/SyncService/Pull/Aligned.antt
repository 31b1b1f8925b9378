-- ===== src/SyncService/Pull/Aligned.antt =====
-- What a pull that takes the remote leaves: crates/application-sync/src/service.rs.
use repo_link.Prelude.{
  Bool, false, Option, none, some, ◌≡◌, refl, sym, subst, ap, ◌∙◌, arith, ◌==◌, nat_eq, list_eq,
  find,
}
use repo_link.Prelude.Text.{Text}
use repo_link.Core.{TaskId, Timestamp, ok}
use repo_link.Task.Enums.{synced}
use repo_link.Task.Snapshot.{RemoteRef, TaskSnapshot, is_baseline}
use repo_link.Task.Snapshot.Source.{pull}
use repo_link.Task.State.{Task, snapshot_view}
use repo_link.Task.Sync.{align, adopt_aligned_state}
use repo_link.Task.Mirror.Assignees.{assignees_equal_refl}
use repo_link.Sync.Policy.{noop, pull_remote, decide}
use repo_link.TaskRepo.{
  TaskStore, get, save, hydrate, update_row, cache_synced_at, cache_remote_node_id, with_node_id,
  appended, read_snapshot,
}
use repo_link.TaskRepo.Saved.{written, get_saved, baseline_after, get-id}
use repo_link.Outbound.{RemoteTaskSnapshot, copy_inbound_mirror_from_snap, inbound_mirrors_baseline}
use repo_link.TaskService.{Directory}
use repo_link.SyncService.{
  unreachable, no_remote, Step, ◌>>=◌, pure, need, write, get_task, save_task, moved, Remote,
  Readings, replace_comments, filing_canonical_for, ensure_not_archived, Summary,
}
use repo_link.SyncService.Stored.{StoredAs, update_row-StoredAs}
use repo_link.SyncService.Steps.{
  Runs, some_same, bind_run, need_run, get_run, save_run, moved_run, write_run, pure_run,
}
use repo_link.SyncService.Pull.{
  remote_changed, accept_remote, pull_decision, node_id_backfill, with_backfill, reconcile,
  backfill, mirror_comments, noted, pull_observed, pull_inner,
}

-- A task in step with what the remote answered.
pub record IsAligned (snap : RemoteTaskSnapshot) (u : Task) : Type 0 where
  pub sync : u.sync ≡ synced
  pub title : u.title ≡ snap.title
  pub body : u.body ≡ snap.body
  pub assignees : u.assignees ≡ snap.assignees
  pub baseline : remote_changed snap u.synced_baseline ≡ false

abbrev pub StoredAligned : RemoteTaskSnapshot → TaskId → TaskStore → Type 0
StoredAligned snap = StoredAs (IsAligned snap)

adopted_align :
    (now at : Timestamp) (t : Task)
    → (adopt_aligned_state now at pull t).1 ≡ ok tt
    → (adopt_aligned_state now at pull t).0 ≡ align now at pull t
unfolding adopt_aligned_state
adopted_align now at t h = ground arith

-- What is saved of a copied snapshot reads back in step with it.
written-IsAligned :
    (snap : RemoteTaskSnapshot) (now at stored : Timestamp) (t : Task) (o : Option Task)
    (s : TaskStore)
    → let c = copy_inbound_mirror_from_snap snap.title snap.body snap.assignees snap.closed t in
      let u = align now at pull c in
      IsAligned snap (hydrate (written u o) (baseline_after stored pull u s))
unfolding copy_inbound_mirror_from_snap align written hydrate remote_changed
    inbound_mirrors_baseline snapshot_view repo_link.TaskRepo.replaced appended read_snapshot
    is_baseline
written-IsAligned snap now at stored t none s = record {
  sync = refl;
  title = refl;
  body = refl;
  assignees = refl;
  baseline = ground (arith, assignees_equal_refl snap.assignees);
}
written-IsAligned snap now at stored t (some r) s = record {
  sync = refl;
  title = refl;
  body = refl;
  assignees = refl;
  baseline = ground (arith, assignees_equal_refl snap.assignees);
}

backfill-StoredAligned :
    (snap : RemoteTaskSnapshot) (id : TaskId) (node_id : Option Text) (s s' : TaskStore)
    (v : Unit {0})
    → Runs (backfill id node_id) s s' v
    → StoredAligned snap id s
    → StoredAligned snap id s'
unfolding cache_remote_node_id with_node_id hydrate
backfill-StoredAligned snap id none s s' v h a =
    subst (StoredAligned snap id) (ap (λ (r : TaskStore × _). r.0) h) a
backfill-StoredAligned snap id (some node_id) s s' v h a =
    subst (StoredAligned snap id) (ap (λ (r : TaskStore × _). r.0) h) (
      update_row-StoredAs (IsAligned snap) id (with_node_id node_id) s (λ x. ground arith)
        (λ x b i. record {
          sync = ground (arith, i.sync);
          title = ground (arith, i.title);
          body = ground (arith, i.body);
          assignees = ground (arith, i.assignees);
          baseline = i.baseline;
        })
        a)

replace_comments-StoredAligned :
    (snap : RemoteTaskSnapshot) (id : TaskId) (fresh : _) (cs : _) (s : TaskStore)
    → StoredAligned snap id s
    → StoredAligned snap id (replace_comments fresh id cs s)
unfolding replace_comments hydrate
replace_comments-StoredAligned snap id fresh cs s a =
    update_row-StoredAs (IsAligned snap) id _ s (λ x. refl)
      (λ x b i. record {
        sync = i.sync;
        title = i.title;
        body = i.body;
        assignees = i.assignees;
        baseline = i.baseline;
      })
      a

saved-StoredAligned :
    (snap : RemoteTaskSnapshot) (clock : Readings) (t : Task) (s s' : TaskStore)
    → let c = copy_inbound_mirror_from_snap snap.title snap.body snap.assignees snap.closed t in
      save clock.stored pull (align clock.touched clock.captured pull c) s ≡ some s'
      → StoredAligned snap t.id s'
unfolding align copy_inbound_mirror_from_snap
saved-StoredAligned snap clock t s s' h =
    let c = copy_inbound_mirror_from_snap snap.title snap.body snap.assignees snap.closed t in
    let u = align clock.touched clock.captured pull c in
    (
      hydrate (written u (find (λ x. x.id == u.id) s.rows)) (baseline_after clock.stored pull u s),
      get_saved clock.stored pull u s s' h,
      written-IsAligned snap clock.touched clock.captured clock.stored t _ s,
    )

reconciled-StoredAligned :
    (clock : Readings) (snap : RemoteTaskSnapshot) (t after : Task) (s s' : TaskStore)
    → Runs (reconcile clock snap t pull_remote) s s' after
    → StoredAligned snap t.id s'
unfolding reconcile
reconciled-StoredAligned clock snap t after s s' h =
    let copied = copy_inbound_mirror_from_snap snap.title snap.body snap.assignees snap.closed t in
    let moving = adopt_aligned_state clock.touched clock.captured pull copied in
    let (a, u, pre, g) =
      bind_run (save_task clock.pre_pulled repo_link.Task.Snapshot.Source.pre_pull t) _ s s' after
        h in
    let (b, adopted, m, k) = bind_run (moved moving) _ a s' after g in
    let (c, v, saved, rest) = bind_run (save_task clock.stored pull adopted) _ b s' after k in
    let (same, value, admitted) = moved_run moving a b adopted m in
    let is = adopted_align clock.touched clock.captured copied admitted in
    let stored = save_run clock.stored pull adopted b c v saved in
    let (end, result) = pure_run adopted c s' after rest in
    subst (StoredAligned snap t.id) end (
      saved-StoredAligned snap clock t b c
        (subst (λ z. save clock.stored pull z b ≡ some c) (sym value ∙ is) stored))

-- The task that is reconciled is the one that was read.
with_backfill-id : (o : Option Text) (t : Task) → (with_backfill o t).id ≡ t.id
unfolding with_backfill with_node_id
with_backfill-id none t = refl
with_backfill-id (some node_id) t = ground arith

aligned-noop :
    (again : Bool) (snap : RemoteTaskSnapshot) (u : Task)
    → IsAligned snap u
    → pull_decision again snap u ≡ noop
unfolding pull_decision accept_remote decide
aligned-noop again snap u i = rw (i.sync, i.baseline) (ground arith)

mirrored-StoredAligned :
    (remote : Remote) (clock : Readings) (snap : RemoteTaskSnapshot) (id : TaskId)
    (canonical number : Text) (node_id : Option Text) (out got : Summary) (s s' : TaskStore)
    → Runs (mirror_comments remote clock id canonical number node_id out) s s' got
    → StoredAligned snap id s
    → StoredAligned snap id s'
unfolding mirror_comments
mirrored-StoredAligned remote clock snap id canonical number node_id out got s s' h a =
    let (s₁, comments, r₁, h₁) =
      bind_run (need unreachable (remote.fetch_comments canonical number)) _ s s' got h in
    let (s₂, v₂, r₂, h₂) =
      bind_run (write (replace_comments clock.fresh id comments)) _ s₁ s' got h₁ in
    let (s₃, v₃, r₃, h₃) = bind_run (backfill id node_id) (λ _. pure out) s₂ s' got h₂ in
    let (end, result) = pure_run out s₃ s' got h₃ in
    let same : s ≡ s₁ =
      (need_run unreachable (remote.fetch_comments canonical number) s s₁ comments r₁).0 in
    let written : replace_comments clock.fresh id comments s₁ ≡ s₂ =
      write_run (replace_comments clock.fresh id comments) s₁ s₂ v₂ r₂ in
    let commented : StoredAligned snap id s₂ = subst (StoredAligned snap id) written (
      replace_comments-StoredAligned snap id clock.fresh comments s₁
        (subst (StoredAligned snap id) same a)) in
    subst (StoredAligned snap id) end (backfill-StoredAligned snap id node_id s₂ s₃ v₃ r₃ commented)

-- What a summary says was decided is what was done.
mirrored-decision :
    (remote : Remote) (clock : Readings) (id : TaskId) (canonical number : Text)
    (node_id : Option Text) (out got : Summary) (s s' : TaskStore)
    → Runs (mirror_comments remote clock id canonical number node_id out) s s' got
    → out ≡ got
unfolding mirror_comments
mirrored-decision remote clock id canonical number node_id out got s s' h =
    let (s₁, comments, r₁, h₁) =
      bind_run (need unreachable (remote.fetch_comments canonical number)) _ s s' got h in
    let (s₂, v₂, r₂, h₂) =
      bind_run (write (replace_comments clock.fresh id comments)) _ s₁ s' got h₁ in
    let (s₃, v₃, r₃, h₃) = bind_run (backfill id node_id) (λ _. pure out) s₂ s' got h₂ in
    (pure_run out s₃ s' got h₃).1

observed-StoredAligned :
    (remote : Remote) (clock : Readings) (force : Bool) (id : TaskId) (canonical : Text)
    (r : RemoteRef) (task : Task) (snap : RemoteTaskSnapshot) (s s' : TaskStore) (out : Summary)
    → task.id ≡ id
    → Runs (pull_observed remote clock force id canonical r task snap) s s' out
    → out.decision ≡ pull_remote
    → StoredAligned snap id s'
unfolding pull_observed
observed-StoredAligned remote clock force id canonical r task snap s s' out named h d =
    let node_id = node_id_backfill r snap in
    let t = with_backfill node_id task in
    let decision = pull_decision force snap t in
    let said : Task → Summary = λ after. record {
      previous = task.sync;
      task = after;
      decision = decision;
      superseded = noted decision t snap;
    } in
    let finish : Task → Step Summary =
      λ after. mirror_comments remote clock id canonical r.remote_id node_id (said after) in
    let (s₁, v₁, r₁, h₁) =
      bind_run (write (cache_synced_at id clock.fetched))
        (λ _. reconcile clock snap t decision >>= finish) s s' out h in
    let (s₂, after, r₂, h₂) = bind_run (reconcile clock snap t decision) finish s₁ s' out h₁ in
    let decided : decision ≡ pull_remote =
      ap (λ (o : Summary). o.decision)
        (mirrored-decision remote clock id canonical r.remote_id node_id (said after) out s₂ s' h₂)
      ∙ d in
    let pulled : StoredAligned snap t.id s₂ =
      reconciled-StoredAligned clock snap t after s₁ s₂
        (subst (λ x. Runs (reconcile clock snap t x) s₁ s₂ after) decided r₂) in
    mirrored-StoredAligned remote clock snap id canonical r.remote_id node_id (said after) out s₂ s'
      h₂ (subst (λ i. StoredAligned snap i s₂) (with_backfill-id node_id task ∙ named) pulled)

-- A pull that decides to take the remote and succeeds leaves the stored task `Synced`, with the title,
-- the body and the assignees that the remote answered and a baseline in step with them. Until the
-- remote changes, another pull of it, forced or not, has nothing to do.
pub pull_inner-settles :
    (remote : Remote) (dir : Directory) (clock : Readings) (force again : Bool) (id : TaskId)
    (snap : RemoteTaskSnapshot) (s s' : TaskStore) (out : Summary)
    → ((canonical number : Text) → remote.fetch_remote canonical number ≡ some snap)
    → Runs (pull_inner remote dir clock force id) s s' out
    → out.decision ≡ pull_remote
    → (u : Task) × (get id s' ≡ some u) × IsAligned snap u × (pull_decision again snap u ≡ noop)
unfolding pull_inner
pull_inner-settles remote dir clock force again id snap s s' out fetch h d =
    let (s₁, task, read, h₁) = bind_run (get_task id) _ s s' out h in
    let (s₂, v₂, r₂, h₂) = bind_run (ensure_not_archived task) _ s₁ s' out h₁ in
    let (s₃, canonical, r₃, h₃) = bind_run (filing_canonical_for dir task) _ s₂ s' out h₂ in
    let (s₄, r, r₄, h₄) = bind_run (need no_remote task.remote) _ s₃ s' out h₃ in
    let (s₅, got, r₅, h₅) =
      bind_run (need unreachable (remote.fetch_remote canonical r.remote_id)) _ s₄ s' out h₄ in
    let same : got ≡ snap = some_same (
      sym (need_run unreachable (remote.fetch_remote canonical r.remote_id) s₄ s₅ got r₅).1
      ∙ fetch canonical r.remote_id) in
    let named : task.id ≡ id = get-id id s task (get_run id s s₁ task read).1 in
    let (u, stored, i) =
      observed-StoredAligned remote clock force id canonical r task got s₅ s' out named h₅ d in
    let aligned = subst (λ z. IsAligned z u) same i in
    (u, stored, aligned, aligned-noop again snap u aligned)
