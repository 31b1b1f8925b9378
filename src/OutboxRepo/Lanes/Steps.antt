-- ===== src/OutboxRepo/Lanes/Steps.antt =====
-- Each statement is a step of a lane: crates/infra-sqlite/src/outbox_repo.rs.
use repo_link.Prelude.{
  Bool, true, false, not, ◌&&◌, ◌||◌, [], ◌∷◌, map, ◌≡◌, refl, arith, if◌then◌else◌, ◌==◌, nat_eq,
  ℕ_discrete, list_eq, retain, Bool-cases, Option-cases, inl, inr,
}
use repo_link.Prelude.Text.{codes}
use repo_link.Core.{TaskId, Timestamp}
use repo_link.Sync.Outbox.{OutboxEntry, OutboxMutation, pending, inflight, kind, outbox_status_eq}
use repo_link.OutboxRepo.{
  Table, enqueue, enqueue_if_absent, claim_next_eligible, mark_succeeded, mark_failed, record_retry,
  requeue_orphaned_inflight, delete_pending_add_items, select,
}
use repo_link.OutboxRepo.Order.{select-IsPick}
use repo_link.OutboxRepo.Serial.{
  is_terminal, is_queue, Step, enqueued, enqueued_if_absent, claimed, marked_succeeded,
  marked_failed, retried, requeued, deleted, eligible_head, inflight_head,
}
use repo_link.OutboxRepo.Fifo.{flip, eligible_pending}
use repo_link.OutboxRepo.Lanes.{
  Lane, is_open, view, lane, LaneStep, kept, taken, finished, given_back, cancelled, restarted,
  lane-snoc, at_head, waiting_head, held_head,
}

-- A held head that is resolved is finished, one that waits again is given back.
resolved-LaneStep :
    (r r' : OutboxEntry) (a : Table)
    → r.status ≡ inflight
    → is_terminal r'.status ≡ true
    → LaneStep (lane r.task_id (r ∷ a)) (lane r.task_id (r' ∷ a))
unfolding lane
resolved-LaneStep r r' a s q =
    let left : lane r.task_id (r' ∷ a) ≡ lane r.task_id a = ground arith in
    rw left (finished r.mutation (lane r.task_id a) (held_head r a s))

retried-LaneStep :
    (r r' : OutboxEntry) (a : Table)
    → r.status ≡ inflight
    → r'.status ≡ pending
    → r'.task_id ≡ r.task_id
    → r'.mutation ≡ r.mutation
    → LaneStep (lane r.task_id (r ∷ a)) (lane r.task_id (r' ∷ a))
unfolding lane
retried-LaneStep r r' a s q k m =
    let left : lane r.task_id (r' ∷ a) ≡ (r.mutation, false) ∷ lane r.task_id a = ground arith in
    rw left (given_back r.mutation (lane r.task_id a) (held_head r a s))

claim-LaneStep :
    (t : TaskId) (now at : Timestamp) (rows : Table)
    → is_queue rows ≡ true
    → LaneStep (lane t rows) (lane t (claim_next_eligible now at rows).0)
unfolding claim_next_eligible
claim-LaneStep t now at rows h = elim (Option-cases (select now [] rows)) [
  | inl n ↦ rw (n, claim_next_eligible) kept
  | inr (p, e) ↦
      let pick = select-IsPick now [] rows p e in
      let (waits, _) = eligible_pending now p.before p.row p.after pick.admitted in
      let head = eligible_head now p.before p.row p.after (rw pick.placed at h) pick.admitted in
      rw (e, claim_next_eligible)
        (at_head t (flip at) p.before p.row p.after rows pick.placed h refl head (
          rw (held_head (flip at p.row) p.after refl)
            (taken p.row.mutation (lane p.row.task_id p.after) (waiting_head p.row p.after waits))))
]

requeue-lane :
    (t : TaskId) (now : Timestamp) (rows : Table)
    → lane t (requeue_orphaned_inflight now rows).0 ≡ map (λ x. (x.0, false)) (lane t rows)
unfolding lane requeue_orphaned_inflight
requeue-lane t now [] = refl
requeue-lane t now (e ∷ rows) = ground (arith, requeue-lane t now rows)

lane-retain_other :
    (t : TaskId) (q : OutboxEntry → Bool) (rows : Table)
    → ((e : OutboxEntry) → is_open t e ≡ true → q e ≡ true)
    → lane t (retain q rows) ≡ lane t rows
unfolding lane retain
lane-retain_other t q [] f = refl
lane-retain_other t q (e ∷ rows) f = ground (arith, f e, lane-retain_other t q rows f)

lane-retain :
    (t : TaskId) (q : OutboxEntry → Bool) (p : OutboxMutation × Bool → Bool) (rows : Table)
    → ((e : OutboxEntry) → is_open t e ≡ true → q e ≡ p (view e))
    → lane t (retain q rows) ≡ retain p (lane t rows)
unfolding lane retain
lane-retain t q p [] f = refl
lane-retain t q p (e ∷ rows) f = elim (Bool-cases (is_open t e)) [
  | inl o ↦ ground (arith, f e o, lane-retain t q p rows f)
  | inr c ↦ ground (arith, lane-retain t q p rows f)
]

abbrev survives : OutboxMutation × Bool → Bool
survives x = x.1 || not (kind x.0 == codes "add_item")

-- What the deletion leaves of the task itself.
delete-survives :
    (t task_id : TaskId) (e : OutboxEntry)
    → task_id ≡ t
    → is_open t e ≡ true
    → not (e.task_id == task_id && e.status == pending && kind e.mutation == codes "add_item")
      ≡ survives (view e)
delete-survives t task_id e y o = ground arith

delete_spares :
    (t task_id : TaskId) (e : OutboxEntry)
    → ¬ (task_id ≡ t)
    → is_open t e ≡ true
    → not (e.task_id == task_id && e.status == pending && kind e.mutation == codes "add_item")
      ≡ true
delete_spares t task_id e n o = ground arith

delete-LaneStep :
    (t task_id : TaskId) (rows : Table)
    → LaneStep (lane t rows) (lane t (delete_pending_add_items task_id rows).0)
unfolding delete_pending_add_items
delete-LaneStep t task_id rows = elim (ℕ_discrete task_id t) [
  | yes y ↦
      rw (lane-retain t _ survives rows (λ (e : OutboxEntry). delete-survives t task_id e y))
        cancelled
  | no n ↦ rw (lane-retain_other t _ rows (λ (e : OutboxEntry). delete_spares t task_id e n)) kept
]

-- A guarded insertion is the insertion or nothing.
step_either :
    (t : TaskId) (b : Bool) (l : Lane) (rows rows' : Table)
    → LaneStep l (lane t rows)
    → LaneStep l (lane t rows')
    → LaneStep l (lane t (if b then rows else rows'))
      × LaneStep l (lane t (if◌then◌else◌ {A = Table × Bool} b (rows, true) (rows', false)).0)
step_either t true l rows rows' p q = (p, p)
step_either t false l rows rows' p q = (q, q)

enqueue-LaneStep :
    (t : TaskId) (e : OutboxEntry) (rows : Table)
    → e.status ≡ pending
    → LaneStep (lane t rows) (lane t (enqueue e rows))
      × LaneStep (lane t rows) (lane t (enqueue_if_absent e rows).0)
unfolding enqueue enqueue_if_absent
enqueue-LaneStep t e rows p =
    let step = lane-snoc t e rows p in
    ((step_either t _ _ _ _ step kept).0, (step_either t _ _ _ _ step kept).1)

-- Each statement on a queue is, for each task, a step of the lane of the task.
pub Step-LaneStep :
    (t : TaskId) {rows rows' : Table}
    → Step rows rows'
    → is_queue rows ≡ true
    → LaneStep (lane t rows) (lane t rows')
unfolding mark_succeeded mark_failed record_retry
Step-LaneStep t {rows} (enqueued e f p) h = (enqueue-LaneStep t e rows p).0
Step-LaneStep t {rows} (enqueued_if_absent e f p) h = (enqueue-LaneStep t e rows p).1
Step-LaneStep t {rows} (claimed now at) h = claim-LaneStep t now at rows h
Step-LaneStep t {rows} (marked_succeeded now b r a e s) h =
    at_head t _ b r a rows e h refl (inflight_head b r a (rw e at h) s)
      (resolved-LaneStep r _ a s refl)
Step-LaneStep t {rows} (marked_failed now error b r a e s) h =
    at_head t _ b r a rows e h refl (inflight_head b r a (rw e at h) s)
      (resolved-LaneStep r _ a s refl)
Step-LaneStep t {rows} (retried now at error b r a e s) h =
    at_head t _ b r a rows e h refl (inflight_head b r a (rw e at h) s)
      (retried-LaneStep r _ a s refl refl refl)
Step-LaneStep t {rows} (requeued now) h = rw (requeue-lane t now rows) restarted
Step-LaneStep t {rows} (deleted task_id) h = delete-LaneStep t task_id rows
