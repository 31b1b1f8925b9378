-- ===== src/OutboxRepo/Serial.antt =====
-- The queue invariant of the outbox: crates/infra-sqlite/src/outbox_repo.rs.
use repo_link.Prelude.{
  Bool, true, false, not, ◌&&◌, ◌||◌, [], ◌∷◌, ◌++◌, ◌≡◌, refl, arith, leb, ◌==◌, nat_eq, all,
  all-append, all-not-any, all_mono, all_mono₂, pairwise, pairwise-snoc, pairwise_middle,
  pairwise_replace,
}
use repo_link.Prelude.Text.{Text}
use repo_link.Core.{TaskId, Timestamp}
use repo_link.Sync.Outbox.{
  OutboxEntry, OutboxStatus, pending, inflight, succeeded, failed, outbox_status_eq,
}
use repo_link.OutboxRepo.{
  Table, is_eligible, holds_back, update, enqueue, enqueue_if_absent, claim_next_eligible,
  mark_succeeded, mark_failed, record_retry, requeue_orphaned_inflight, delete_pending_add_items,
}

abbrev pub is_terminal : OutboxStatus → Bool
is_terminal succeeded = true
is_terminal failed = true
is_terminal _ = false

-- How a row may stand to one behind it: another identifier, no later time of enqueueing, and if
-- both are of one task, then the first is resolved or the second still waits.
unfoldable pub follows : OutboxEntry → OutboxEntry → Bool
follows e s =
    not (e.id == s.id)
    && leb e.enqueued_at s.enqueued_at
    && (not (e.task_id == s.task_id) || is_terminal e.status || s.status == pending)

abbrev pub is_queue : Table → Bool
is_queue rows = pairwise follows rows

-- An update by identifier, in a queue, changes the row in its place and no other.
update_absent :
    (f : OutboxEntry → OutboxEntry) (r : OutboxEntry) (rows : Table)
    → all (follows r) rows ≡ true
    → update r.id f rows ≡ rows
unfolding update all follows
update_absent f r [] h = refl
update_absent f r (e ∷ rows) h = ground (arith, update_absent f r rows)

pub update_middle :
    (f : OutboxEntry → OutboxEntry) (b : Table) (r : OutboxEntry) (a : Table)
    → is_queue (b ++ r ∷ a) ≡ true
    → update r.id f (b ++ r ∷ a) ≡ b ++ f r ∷ a
unfolding update pairwise follows
update_middle f [] r a h = ground (arith, update_absent f r a)
update_middle f (e ∷ b) r a h =
    ground (arith, update_middle f b r a, all-append (follows e) b (r ∷ a))

-- An unresolved row that keeps its identifier, task and time may take any status, if the rows of
-- its task before it are resolved.
replace_fits :
    (b : Table) (r r' : OutboxEntry) (a : Table)
    → is_queue (b ++ r ∷ a) ≡ true
    → r'.id ≡ r.id
    → r'.task_id ≡ r.task_id
    → r'.enqueued_at ≡ r.enqueued_at
    → is_terminal r.status ≡ false
    → all (λ e. not (e.task_id == r.task_id) || is_terminal e.status) b ≡ true
    → is_queue (b ++ r' ∷ a) ≡ true
unfolding follows
replace_fits b r r' a h i t n s c =
    let (before, behind) = pairwise_middle follows b r a h in
    pairwise_replace follows b r r' a h (all_mono₂ _ _ _ b (λ e p q. ground arith) before c)
      (all_mono _ _ a (λ e p. ground arith) behind)

-- The rows of its task before one that is inflight are resolved.
pub inflight_head :
    (b : Table) (r : OutboxEntry) (a : Table)
    → is_queue (b ++ r ∷ a) ≡ true
    → r.status ≡ inflight
    → all (λ e. not (e.task_id == r.task_id) || is_terminal e.status) b ≡ true
unfolding follows
inflight_head b r a h s = all_mono _ _ b (λ e p. ground arith) (pairwise_middle follows b r a h).0

-- And so are those before one that may be claimed.
pub eligible_head :
    (now : Timestamp) (b : Table) (r : OutboxEntry) (a : Table)
    → is_queue (b ++ r ∷ a) ≡ true
    → is_eligible now b r a ≡ true
    → all (λ e. not (e.task_id == r.task_id) || is_terminal e.status) b ≡ true
unfolding follows is_eligible
eligible_head now b r a h k =
    all_mono₂ _ _ _ b (λ e p q. held e p q) (pairwise_middle follows b r a h).0
      (all-not-any (holds_back r true) b (ground arith))
  where
    held :
        (e : OutboxEntry)
        → follows e r ≡ true
        → not (holds_back r true e) ≡ true
        → (not (e.task_id == r.task_id) || is_terminal e.status) ≡ true
    held e p q = ground arith

-- The statements that the program runs on the table. A new entry has a fresh identifier, is
-- pending and is not older than the rows there; only an entry that was claimed is resolved.
pub data Step (rows : Table) : Table → Type 0 where
  enqueued :
      (e : OutboxEntry)
      → all (λ s. not (s.id == e.id) && leb s.enqueued_at e.enqueued_at) rows ≡ true
      → e.status ≡ pending
      → Step rows (enqueue e rows)
  enqueued_if_absent :
      (e : OutboxEntry)
      → all (λ s. not (s.id == e.id) && leb s.enqueued_at e.enqueued_at) rows ≡ true
      → e.status ≡ pending
      → Step rows (enqueue_if_absent e rows).0
  claimed : (now flip_at : Timestamp) → Step rows (claim_next_eligible now flip_at rows).0
  marked_succeeded :
      (now : Timestamp) (b : Table) (r : OutboxEntry) (a : Table)
      → rows ≡ b ++ r ∷ a
      → r.status ≡ inflight
      → Step rows (mark_succeeded now r.id rows)
  marked_failed :
      (now : Timestamp) (error : Text) (b : Table) (r : OutboxEntry) (a : Table)
      → rows ≡ b ++ r ∷ a
      → r.status ≡ inflight
      → Step rows (mark_failed now r.id error rows)
  retried :
      (now at : Timestamp) (error : Text) (b : Table) (r : OutboxEntry) (a : Table)
      → rows ≡ b ++ r ∷ a
      → r.status ≡ inflight
      → Step rows (record_retry now r.id error at rows)
  requeued : (now : Timestamp) → Step rows (requeue_orphaned_inflight now rows).0
  deleted : (task_id : TaskId) → Step rows (delete_pending_add_items task_id rows).0

pub snoc-is_queue :
    (e : OutboxEntry) (rows : Table)
    → all (λ s. not (s.id == e.id) && leb s.enqueued_at e.enqueued_at) rows ≡ true
    → e.status ≡ pending
    → is_queue rows ≡ true
    → is_queue (rows ++ e ∷ []) ≡ true
unfolding follows
snoc-is_queue e rows f p h =
    pairwise-snoc follows rows e h (all_mono _ _ rows (λ s q. ground arith) f)

pub update-is_queue :
    (f : OutboxEntry → OutboxEntry) (b : Table) (r : OutboxEntry) (a rows : Table)
    → rows ≡ b ++ r ∷ a
    → is_queue rows ≡ true
    → (f r).id ≡ r.id
    → (f r).task_id ≡ r.task_id
    → (f r).enqueued_at ≡ r.enqueued_at
    → is_terminal r.status ≡ false
    → all (λ e. not (e.task_id == r.task_id) || is_terminal e.status) b ≡ true
    → is_queue (update r.id f rows) ≡ true
update-is_queue f b r a rows e h i t n s c =
    let h' = rw e at h in
    rw e (rw (update_middle f b r a h') (replace_fits b r (f r) a h' i t n s c))
