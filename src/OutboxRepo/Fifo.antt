-- ===== src/OutboxRepo/Fifo.antt =====
-- Per-task order of the outbox, after any statements: crates/infra-sqlite/src/outbox_repo.rs.
use repo_link.Prelude.{
  true, not, ◌&&◌, ◌||◌, [], ◌∷◌, ◌++◌, ◌≡◌, ◌≢◌, refl, arith, leb, ◌==◌, nat_eq, all, all_mono,
  pairwise, pairwise-retain, pairwise_middle, pairwise-map, Option-cases, inl, inr,
}
use repo_link.Core.{TaskId, Timestamp}
use repo_link.Sync.Outbox.{OutboxEntry, pending, inflight, outbox_status_eq}
use repo_link.OutboxRepo.{
  Table, is_due, is_eligible, enqueue, enqueue_if_absent, claim_next_eligible, mark_succeeded,
  mark_failed, record_retry, requeue_orphaned_inflight, delete_pending_add_items, select,
}
use repo_link.OutboxRepo.Order.{select-IsPick}
use repo_link.OutboxRepo.Serial.{
  is_terminal, follows, is_queue, Step, enqueued, enqueued_if_absent, claimed, marked_succeeded,
  marked_failed, retried, requeued, deleted, snoc-is_queue, update-is_queue, eligible_head,
  inflight_head,
}

abbrev pub flip : Timestamp → OutboxEntry → OutboxEntry
flip at e = record e { status = inflight; updated_at = at }

pub eligible_pending :
    (now : Timestamp) (b : Table) (r : OutboxEntry) (a : Table)
    → is_eligible now b r a ≡ true
    → (r.status ≡ pending) × (is_due now r.next_attempt_at ≡ true)
unfolding is_eligible
eligible_pending now b r a h = ground arith

claim-is_queue :
    (now at : Timestamp) (rows : Table)
    → is_queue rows ≡ true
    → is_queue (claim_next_eligible now at rows).0 ≡ true
unfolding claim_next_eligible
claim-is_queue now at rows h = elim (Option-cases (select now [] rows)) [
  | inl n ↦ rw (n, claim_next_eligible) h
  | inr (p, e) ↦
      let pick = select-IsPick now [] rows p e in
      let (waits, _) = eligible_pending now p.before p.row p.after pick.admitted in
      rw (e, claim_next_eligible)
        (update-is_queue (flip at) p.before p.row p.after rows pick.placed h refl refl refl
          (rw waits) (eligible_head now p.before p.row p.after (rw pick.placed at h) pick.admitted))
]

enqueue-is_queue :
    (e : OutboxEntry) (rows : Table)
    → all (λ s. not (s.id == e.id) && leb s.enqueued_at e.enqueued_at) rows ≡ true
    → e.status ≡ pending
    → is_queue rows ≡ true
    → (is_queue (enqueue e rows) ≡ true) × (is_queue (enqueue_if_absent e rows).0 ≡ true)
unfolding enqueue enqueue_if_absent
enqueue-is_queue e rows f p h =
    (ground (arith, snoc-is_queue e rows f p h), ground (arith, snoc-is_queue e rows f p h))

requeue-is_queue :
    (now : Timestamp) (rows : Table)
    → is_queue rows ≡ true
    → is_queue (requeue_orphaned_inflight now rows).0 ≡ true
unfolding requeue_orphaned_inflight follows
requeue-is_queue now rows h = pairwise-map follows _ rows (λ e s k. ground arith) h

delete-is_queue :
    (task_id : TaskId) (rows : Table)
    → is_queue rows ≡ true
    → is_queue (delete_pending_add_items task_id rows).0 ≡ true
unfolding delete_pending_add_items
delete-is_queue task_id rows h = pairwise-retain follows _ rows h

pub Step-is_queue :
    {rows rows' : Table} → Step rows rows' → is_queue rows ≡ true → is_queue rows' ≡ true
unfolding mark_succeeded mark_failed record_retry
Step-is_queue {rows} (enqueued e f p) h = (enqueue-is_queue e rows f p h).0
Step-is_queue {rows} (enqueued_if_absent e f p) h = (enqueue-is_queue e rows f p h).1
Step-is_queue {rows} (claimed now at) h = claim-is_queue now at rows h
Step-is_queue {rows} (marked_succeeded now b r a e s) h =
    update-is_queue _ b r a rows e h refl refl refl (rw s) (inflight_head b r a (rw e at h) s)
Step-is_queue {rows} (marked_failed now error b r a e s) h =
    update-is_queue _ b r a rows e h refl refl refl (rw s) (inflight_head b r a (rw e at h) s)
Step-is_queue {rows} (retried now at error b r a e s) h =
    update-is_queue _ b r a rows e h refl refl refl (rw s) (inflight_head b r a (rw e at h) s)
Step-is_queue {rows} (requeued now) h = requeue-is_queue now rows h
Step-is_queue {rows} (deleted task_id) h = delete-is_queue task_id rows h

-- The tables that statements make from the empty one.
pub data Reach : Table → Type 0 where
  start : Reach []
  next : {rows rows' : Table} → Reach rows → Step rows rows' → Reach rows'

Reach-is_queue : {rows : Table} → Reach rows → is_queue rows ≡ true
unfolding pairwise
Reach-is_queue start = refl
Reach-is_queue (next r st) = Step-is_queue st (Reach-is_queue r)

-- In every table that the statements make of the empty one, a row that does not wait any more stands
-- behind resolved rows of its task only: the mutations of one task start in the order in which they
-- were enqueued.
pub Reach-is_fifo :
    {rows : Table} (b : Table) (r : OutboxEntry) (a : Table)
    → Reach rows
    → rows ≡ b ++ r ∷ a
    → r.status ≢ pending
    → all (λ e. not (e.task_id == r.task_id) || is_terminal e.status) b ≡ true
unfolding follows
Reach-is_fifo b r a reach e s =
    all_mono _ _ b (λ e p. ground arith)
      (pairwise_middle follows b r a (rw e at (Reach-is_queue reach))).0
