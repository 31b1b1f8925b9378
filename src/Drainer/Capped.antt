-- ===== src/Drainer/Capped.antt =====
-- The attempts that an entry may take: crates/application-sync/src/drainer.rs.
use repo_link.Prelude.{
  ◌≤◌, Bool, true, not, ◌&&◌, ◌||◌, List, [], ◌∷◌, ◌++◌, ◌≡◌, refl, arith, leb, ltb, ◌==◌, nat_eq,
  all, all-append, all-map, all-retain, all_mono, pairwise, Option-cases, inl, inr,
}
use repo_link.Core.{TaskId, Timestamp, OutboxEntryId}
use repo_link.Task.State.{Task}
use repo_link.Sync.Outbox.{OutboxEntry, OutboxMutation, inflight, outbox_status_eq, new}
use repo_link.OutboxRepo.{
  Table, enqueue, enqueue_if_absent, claim_next_eligible, requeue_orphaned_inflight,
  delete_pending_add_items, select,
}
use repo_link.OutboxRepo.Serial.{
  is_terminal, is_queue, Step, update_middle, enqueued, enqueued_if_absent, claimed, requeued,
  deleted,
}
use repo_link.OutboxRepo.Fifo.{flip, Step-is_queue, eligible_pending}
use repo_link.OutboxRepo.Order.{select-IsPick}
use repo_link.Drainer.{BackoffSchedule, Applied, settle}
use repo_link.Drainer.Turns.{is_capped, settle-row, settle-Step, settled_row-is_capped}

abbrev pub are_capped : BackoffSchedule → Table → Bool
are_capped s rows = all (is_capped s.max_attempts) rows

-- What happens to the outbox: a new entry, a claim, the rest of a turn of an inflight entry,
-- the reset at startup, and the deletion of waiting board items.
pub data Turn (s : BackoffSchedule) (rows : Table) : Table → Type 0 where
  enqueuing :
      (id : OutboxEntryId) (now : Timestamp) (task_id : TaskId) (m : OutboxMutation)
      → all (λ e. not (e.id == id) && leb e.enqueued_at now) rows ≡ true
      → Turn s rows (enqueue (new id now task_id m) rows)
  enqueuing_if_absent :
      (id : OutboxEntryId) (now : Timestamp) (task_id : TaskId) (m : OutboxMutation)
      → all (λ e. not (e.id == id) && leb e.enqueued_at now) rows ≡ true
      → Turn s rows (enqueue_if_absent (new id now task_id m) rows).0
  claiming : (now flip_at : Timestamp) → Turn s rows (claim_next_eligible now flip_at rows).0
  settling :
      (at now : Timestamp) (res : Applied) (ts : List Task) (b : Table) (r : OutboxEntry)
      (a : Table)
      → rows ≡ b ++ r ∷ a
      → r.status ≡ inflight
      → Turn s rows (settle s at now r res (record { outbox = rows; tasks = ts })).outbox
  requeuing : (now : Timestamp) → Turn s rows (requeue_orphaned_inflight now rows).0
  deleting : (task_id : TaskId) → Turn s rows (delete_pending_add_items task_id rows).0

-- Each of these is a statement that keeps the order of the outbox.
pub Turn-Step : {s : BackoffSchedule} {rows rows' : Table} → Turn s rows rows' → Step rows rows'
unfolding new
Turn-Step (enqueuing id now task_id m f) = enqueued (new id now task_id m) f refl
Turn-Step (enqueuing_if_absent id now task_id m f) =
    enqueued_if_absent (new id now task_id m) f refl
Turn-Step (claiming now at) = claimed now at
Turn-Step {s} {rows} (settling at now res ts b r a e i) = settle-Step s at now res ts rows b r a e i
Turn-Step (requeuing now) = requeued now
Turn-Step (deleting task_id) = deleted task_id

replaced_capped :
    (s : BackoffSchedule) (b : Table) (r r' : OutboxEntry) (a : Table)
    → are_capped s (b ++ r ∷ a) ≡ true
    → is_capped s.max_attempts r' ≡ true
    → are_capped s (b ++ r' ∷ a) ≡ true
unfolding all
replaced_capped s b r r' a h k = ground (
  arith,
  all-append (is_capped s.max_attempts) b (r ∷ a),
  all-append (is_capped s.max_attempts) b (r' ∷ a),
)

pub middle_capped :
    (s : BackoffSchedule) (b : Table) (r : OutboxEntry) (a : Table)
    → are_capped s (b ++ r ∷ a) ≡ true
    → is_capped s.max_attempts r ≡ true
unfolding all
middle_capped s b r a h = ground (arith, all-append (is_capped s.max_attempts) b (r ∷ a))

claim_capped :
    (s : BackoffSchedule) (now at : Timestamp) (rows : Table)
    → is_queue rows ≡ true
    → are_capped s rows ≡ true
    → are_capped s (claim_next_eligible now at rows).0 ≡ true
unfolding claim_next_eligible is_capped
claim_capped s now at rows q h = elim (Option-cases (select now [] rows)) [
  | inl n ↦ rw (n, claim_next_eligible) h
  | inr (p, e) ↦
      let pick = select-IsPick now [] rows p e in
      let (waits, _) = eligible_pending now p.before p.row p.after pick.admitted in
      let row = middle_capped s p.before p.row p.after (rw pick.placed at h) in
      rw (e, claim_next_eligible)
        (rw (pick.placed, update_middle (flip at) p.before p.row p.after (rw pick.placed at q))
          (replaced_capped s p.before p.row (flip at p.row) p.after (rw pick.placed at h)
            (ground arith)))
]

snoc_capped :
    (s : BackoffSchedule) (id : OutboxEntryId) (now : Timestamp) (task_id : TaskId)
    (m : OutboxMutation) (rows : Table)
    → 1 ≤ s.max_attempts
    → are_capped s rows ≡ true
    → are_capped s (rows ++ new id now task_id m ∷ []) ≡ true
unfolding new all is_capped
snoc_capped s id now task_id m rows o h =
    ground (arith, all-append (is_capped s.max_attempts) rows (new id now task_id m ∷ []))

pub Turn-are_capped :
    {s : BackoffSchedule} {rows rows' : Table}
    → 1 ≤ s.max_attempts
    → Turn s rows rows'
    → is_queue rows ≡ true
    → are_capped s rows ≡ true
    → are_capped s rows' ≡ true
unfolding enqueue enqueue_if_absent requeue_orphaned_inflight delete_pending_add_items is_capped
Turn-are_capped {s} {rows} o (enqueuing id now task_id m f) q h =
    ground (arith, snoc_capped s id now task_id m rows)
Turn-are_capped {s} {rows} o (enqueuing_if_absent id now task_id m f) q h =
    ground (arith, snoc_capped s id now task_id m rows)
Turn-are_capped {s} {rows} o (claiming now at) q h = claim_capped s now at rows q h
Turn-are_capped {s} {rows} o (settling at now res ts b r a e i) q h =
    rw (e, settle-row s at now res ts b r a (rw e at q))
      (replaced_capped s b r _ a (rw e at h)
        (settled_row-is_capped s at now res r (middle_capped s b r a (rw e at h)) i))
Turn-are_capped {s} {rows} o (requeuing now) q h = all-map _ _ _ rows (λ e k. ground arith) h
Turn-are_capped {s} {rows} o (deleting task_id) q h = all-retain _ _ rows h

-- The outboxes that come of an empty one.
pub data Drained (s : BackoffSchedule) : Table → Type 0 where
  empty : Drained s []
  and_then : {rows rows' : Table} → Drained s rows → Turn s rows rows' → Drained s rows'

Drained-sound :
    {s : BackoffSchedule} {rows : Table}
    → 1 ≤ s.max_attempts
    → Drained s rows
    → (is_queue rows ≡ true) × (are_capped s rows ≡ true)
unfolding all pairwise
Drained-sound o empty = (refl, refl)
Drained-sound o (and_then d t) =
    let (q, h) = Drained-sound o d in (Step-is_queue (Turn-Step t) q, Turn-are_capped o t q h)

-- Whatever the remote answers, and however often the daemon restarts: under a schedule of at
-- least one attempt, no entry is ever attempted more often than the schedule allows, and an entry
-- that is not resolved has an attempt left.
pub Drained-are_capped :
    (s : BackoffSchedule) {rows : Table}
    → 1 ≤ s.max_attempts
    → Drained s rows
    → all
        (λ e.
          leb e.attempts s.max_attempts && (is_terminal e.status || ltb e.attempts s.max_attempts))
        rows
      ≡ true
unfolding is_capped
Drained-are_capped s {rows} o d = all_mono _ _ rows (λ e k. ground arith) (Drained-sound o d).1
