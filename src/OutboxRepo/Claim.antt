-- ===== src/OutboxRepo/Claim.antt =====
-- What `claim_next_eligible` returns: crates/infra-sqlite/src/outbox_repo.rs.
use repo_link.Prelude.{
  ◌≤◌, true, false, not, ◌||◌, some, [], ◌∷◌, ◌++◌, ◌≡◌, arith, ◌==◌, nat_eq, all, any, all-any_not,
  pairwise_middle, Option-cases, inl, inr,
}
use repo_link.Core.{Timestamp}
use repo_link.Sync.Outbox.{OutboxEntry, pending, outbox_status_eq}
use repo_link.OutboxRepo.{Table, is_due, is_eligible, holds_back, claim_next_eligible, select}
use repo_link.OutboxRepo.Order.{select-IsPick, select-none, select_earliest}
use repo_link.OutboxRepo.Serial.{is_terminal, follows, is_queue, eligible_head, update_middle}
use repo_link.OutboxRepo.Fifo.{flip, eligible_pending}

-- A claim of a row: where it stood, that it waited and was due, that the rows of its task before
-- it are resolved, and that it alone has changed, to inflight.
pub record IsClaim (now at : Timestamp) (rows rows' : Table) (e : OutboxEntry) : Type 0 where
  pub before : Table
  pub row : OutboxEntry
  pub after : Table
  pub stood : rows ≡ before ++ row ∷ after
  pub waited : row.status ≡ pending
  pub due : is_due now row.next_attempt_at ≡ true
  pub head : all (λ s. not (s.task_id == row.task_id) || is_terminal s.status) before ≡ true
  pub given : e ≡ flip at row
  pub left : rows' ≡ before ++ e ∷ after

-- In a queue, a claim gives the first unresolved row of its task, and only if it is due; the row
-- becomes inflight and no other row changes.
pub claim_next_eligible-IsClaim :
    (now at : Timestamp) (rows : Table) (e : OutboxEntry)
    → is_queue rows ≡ true
    → (claim_next_eligible now at rows).1 ≡ some e
    → IsClaim now at rows (claim_next_eligible now at rows).0 e
unfolding claim_next_eligible
claim_next_eligible-IsClaim now at rows e h k = elim (Option-cases (select now [] rows)) [
  | inl n ↦ absurd (ground arith)
  | inr (p, s) ↦
      let pick = select-IsPick now [] rows p s in
      let (waits, due) = eligible_pending now p.before p.row p.after pick.admitted in
      let queue = rw pick.placed at h in
      let given : e ≡ flip at p.row = ground arith in
      record {
        before = p.before;
        row = p.row;
        after = p.after;
        stood = pick.placed;
        waited = waits;
        due = due;
        head = eligible_head now p.before p.row p.after queue pick.admitted;
        given = given;
        left =
            rw (s, claim_next_eligible)
              (rw (given, pick.placed) (update_middle (flip at) p.before p.row p.after queue));
      }
]

not_held :
    (b : Table) (r : OutboxEntry) (a : Table)
    → is_queue (b ++ r ∷ a) ≡ true
    → all (λ s. not (s.task_id == r.task_id) || is_terminal s.status) b ≡ true
    → r.status ≡ pending
    → (any (holds_back r true) b ≡ false) × (any (holds_back r false) a ≡ false)
unfolding holds_back follows
not_held b r a h c w =
    let (_, behind) = pairwise_middle follows b r a h in
    (all-any_not _ _ b (λ s p. ground arith) c, all-any_not _ _ a (λ s p. ground arith) behind)

-- No task starves: if the first unresolved row of some task waits and is due, a claim gives a row,
-- and one that was not enqueued later.
pub claim_progress :
    (now at : Timestamp) (b : Table) (r : OutboxEntry) (a : Table)
    → is_queue (b ++ r ∷ a) ≡ true
    → all (λ s. not (s.task_id == r.task_id) || is_terminal s.status) b ≡ true
    → r.status ≡ pending
    → is_due now r.next_attempt_at ≡ true
    → (e : OutboxEntry) × ((claim_next_eligible now at (b ++ r ∷ a)).1 ≡ some e)
      × (e.enqueued_at ≤ r.enqueued_at)
unfolding claim_next_eligible is_eligible
claim_progress now at b r a h c w d =
    let (n, m) = not_held b r a h c w in
    let admitted : is_eligible now b r a ≡ true = ground arith in
    elim (Option-cases (select now [] (b ++ r ∷ a))) [
      | inl none_left ↦ absurd (ground (arith, select-none now [] b r a none_left))
      | inr (p, s) ↦ (flip at p.row, ground arith, select_earliest now [] b r a p s admitted)
    ]
