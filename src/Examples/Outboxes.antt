-- ===== src/Examples/Outboxes.antt =====
-- The theorems on the outbox and its drain at sample inputs.
use repo_link.Prelude.{
  ◌+◌, ◌≤◌, true, not, ◌&&◌, ◌||◌, some, [], ◌∷◌, ◌≡◌, refl, leb, ltb, ◌==◌, nat_eq, all, pairwise,
  any, arith, ℕ_discrete, List-discrete,
}
use repo_link.Prelude.Text.{codes}
use repo_link.Sync.Outbox.{OutboxEntry, new, add_item, OutboxStatus-discrete}
use repo_link.OutboxRepo.{enqueue, claim_next_eligible, select, is_eligible, is_due}
use repo_link.OutboxRepo.Serial.{is_terminal, is_queue, enqueued, claimed}
use repo_link.OutboxRepo.Fifo.{Reach, start, next, Reach-is_fifo}
use repo_link.OutboxRepo.Lanes.{lane, LaneStep}
use repo_link.OutboxRepo.Lanes.Steps.{Step-LaneStep}
use repo_link.OutboxRepo.Claim.{IsClaim, claim_next_eligible-IsClaim, claim_progress}
use repo_link.Drainer.{standard, Store, applied, stamped, settle}
use repo_link.Drainer.Turns.{is_capped}
use repo_link.Drainer.Capped.{enqueuing, Drained, empty, and_then, are_capped, Drained-are_capped}
use repo_link.Drainer.Passes.{Pass, turn, rest, potential, Pass-bounded}
use repo_link.Examples.Fixtures.{waiting, taken}

-- One entry was enqueued and claimed.
one_claimed : Reach (claim_next_eligible 20 20 (enqueue waiting [])).0
unfolding all
one_claimed = next (next start (enqueued waiting refl refl)) (claimed 20 20)

one_queue : is_queue (waiting ∷ []) ≡ true
unfolding pairwise all
one_queue = refl

one_taken :
    ((claim_next_eligible 20 20 (enqueue waiting [])).0 ≡ taken ∷ [])
    × ((claim_next_eligible 20 20 (waiting ∷ [])).1 ≡ some taken)
unfolding claim_next_eligible enqueue select is_eligible any List-discrete ℕ_discrete
    OutboxStatus-discrete
one_taken = (refl, refl)

Reach-is_fifo_example :
    all (λ (e : OutboxEntry). not (e.task_id == taken.task_id) || is_terminal e.status) [] ≡ true
Reach-is_fifo_example = Reach-is_fifo [] taken [] one_claimed one_taken.0 (λ e. cc)

claim_next_eligible-IsClaim_example :
    IsClaim 20 20 (waiting ∷ []) (claim_next_eligible 20 20 (waiting ∷ [])).0 taken
claim_next_eligible-IsClaim_example =
    claim_next_eligible-IsClaim 20 20 (waiting ∷ []) taken one_queue one_taken.1

claim_progress_example :
    (e : OutboxEntry) × ((claim_next_eligible 20 20 (waiting ∷ [])).1 ≡ some e)
    × (e.enqueued_at ≤ 10)
unfolding all is_due
claim_progress_example = claim_progress 20 20 [] waiting [] one_queue refl refl refl

Drained-one : Drained standard (enqueue (new 1 10 1 (add_item (codes "P") (codes "I"))) [])
unfolding all
Drained-one = and_then empty (enqueuing 1 10 1 (add_item (codes "P") (codes "I")) refl)

Drained-are_capped_example :
    all
      (λ (e : OutboxEntry). leb e.attempts 5 && (is_terminal e.status || ltb e.attempts 5))
      (enqueue (new 1 10 1 (add_item (codes "P") (codes "I"))) [])
    ≡ true
Drained-are_capped_example = Drained-are_capped standard (omega arith) Drained-one

-- The entry is claimed, applied and marked as succeeded.
abbrev before : Store
before = record { outbox = waiting ∷ []; tasks = [] }

abbrev after : Store
unfolding settle claim_next_eligible
after =
    settle standard 21 22 taken (applied stamped)
      (record before { outbox = (claim_next_eligible 20 20 before.outbox).0 })

one-Pass : Pass standard 1 before after
unfolding after settle
one-Pass = turn 20 20 21 22 (applied stamped) before taken one_taken.1 (rest after)

one_capped : are_capped standard before.outbox ≡ true
unfolding all is_capped
one_capped = refl

Pass-bounded_example : 1 + potential 5 after.outbox ≤ potential 5 before.outbox
Pass-bounded_example =
    Pass-bounded standard 1 before after (omega arith) one_queue one_capped one-Pass

-- The claim takes the head of the lane of task 1.
Step-LaneStep_example :
    LaneStep (lane 1 (waiting ∷ [])) (lane 1 (claim_next_eligible 20 20 (waiting ∷ [])).0)
Step-LaneStep_example = Step-LaneStep 1 (claimed 20 20) one_queue
