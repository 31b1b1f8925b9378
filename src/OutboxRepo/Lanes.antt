-- ===== src/OutboxRepo/Lanes.antt =====
-- The abstract contract of the outbox, one first-in-first-out lane for each task, and that the
-- statements of crates/infra-sqlite/src/outbox_repo.rs implement it.
pub mod Steps
use repo_link.Prelude.{
  Bool, true, false, not, ◌&&◌, ◌||◌, List, [], ◌∷◌, ◌++◌, map, ◌≡◌, refl, sym, subst, arith,
  if◌then◌else◌, ◌==◌, nat_eq, ℕ_discrete, list_eq, all, retain, Bool-cases, Option-cases, none,
  some, inl, inr,
}
use mathlib.Core.List.{append-nil}
use repo_link.Prelude.Text.{Text, codes}
use repo_link.Core.{TaskId, Timestamp}
use repo_link.Sync.Outbox.{
  OutboxEntry, OutboxMutation, pending, inflight, succeeded, failed, kind, outbox_status_eq,
}
use repo_link.OutboxRepo.{
  Table, is_due, is_eligible, update, enqueue, enqueue_if_absent, claim_next_eligible,
  mark_succeeded, mark_failed, record_retry, requeue_orphaned_inflight, delete_pending_add_items,
  select,
}
use repo_link.OutboxRepo.Order.{select-IsPick}
use repo_link.OutboxRepo.Serial.{
  is_terminal, is_queue, Step, enqueued, enqueued_if_absent, claimed, marked_succeeded,
  marked_failed, retried, requeued, deleted, eligible_head, inflight_head, update_middle,
}
use repo_link.OutboxRepo.Fifo.{flip, eligible_pending}

-- What a task still has to do, in order: each mutation, and whether a drainer holds it.
abbrev pub Lane : Type 0
Lane = List (OutboxMutation × Bool)

abbrev pub is_open : TaskId → OutboxEntry → Bool
is_open t e = e.task_id == t && not (is_terminal e.status)

abbrev pub view : OutboxEntry → OutboxMutation × Bool
view e = (e.mutation, e.status == inflight)

unfoldable pub lane : TaskId → Table → Lane
lane t [] = []
lane t (e ∷ rows) = let rest = lane t rows in if is_open t e then view e ∷ rest else rest

-- The operations of a lane: an entry is pushed at its back; only its head is taken, and only a
-- head that is held is finished or given back; entries of the board that nobody holds can be
-- cancelled, and a restart gives everything back.
pub data LaneStep (l : Lane) : Lane → Type 0 where
  kept : LaneStep l l
  pushed : (m : OutboxMutation) → LaneStep l (l ++ (m, false) ∷ [])
  taken : (m : OutboxMutation) (rest : Lane) → l ≡ (m, false) ∷ rest → LaneStep l ((m, true) ∷ rest)
  finished : (m : OutboxMutation) (rest : Lane) → l ≡ (m, true) ∷ rest → LaneStep l rest
  given_back :
      (m : OutboxMutation) (rest : Lane) → l ≡ (m, true) ∷ rest → LaneStep l ((m, false) ∷ rest)
  cancelled : LaneStep l (retain (λ x. x.1 || not (kind x.0 == codes "add_item")) l)
  restarted : LaneStep l (map (λ x. (x.0, false)) l)

pub lane-append : (t : TaskId) (xs ys : Table) → lane t (xs ++ ys) ≡ lane t xs ++ lane t ys
unfolding lane
lane-append t [] ys = refl
lane-append t (e ∷ xs) ys = ground (arith, lane-append t xs ys)

lane_resolved :
    (t : TaskId) (b : Table)
    → all (λ e. not (e.task_id == t) || is_terminal e.status) b ≡ true
    → lane t b ≡ []
unfolding lane all
lane_resolved t [] h = refl
lane_resolved t (e ∷ b) h = ground (arith, lane_resolved t b)

-- A row whose task has nothing open before it is the head of its lane.
pub lane_head :
    (t : TaskId) (b : Table) (r : OutboxEntry) (a : Table)
    → all (λ e. not (e.task_id == t) || is_terminal e.status) b ≡ true
    → lane t (b ++ r ∷ a) ≡ lane t (r ∷ a)
lane_head t b r a c = rw (lane-append t b (r ∷ a), lane_resolved t b c) refl

lane_other :
    (t : TaskId) (b : Table) (r r' : OutboxEntry) (a : Table)
    → (r.task_id == t) ≡ false
    → r'.task_id ≡ r.task_id
    → lane t (b ++ r' ∷ a) ≡ lane t (b ++ r ∷ a)
unfolding lane
lane_other t b r r' a n s = ground (arith, lane-append t b (r ∷ a), lane-append t b (r' ∷ a))

pub lane-snoc :
    (t : TaskId) (e : OutboxEntry) (rows : Table)
    → e.status ≡ pending
    → LaneStep (lane t rows) (lane t (rows ++ e ∷ []))
unfolding lane
lane-snoc t e rows p = elim (Bool-cases (e.task_id == t)) [
  | inl y ↦
      let new : lane t (rows ++ e ∷ []) ≡ lane t rows ++ (e.mutation, false) ∷ [] =
        ground (arith, lane-append t rows (e ∷ [])) in
      rw new (pushed e.mutation)
  | inr n ↦
      let new : lane t (rows ++ e ∷ []) ≡ lane t rows =
        ground (arith, lane-append t rows (e ∷ []), append-nil (lane t rows)) in
      rw new kept
]

-- An update of the first open row of a task, by identifier, is a step of the head of its lane and
-- leaves the other lanes alone.
pub at_head :
    (t : TaskId) (f : OutboxEntry → OutboxEntry) (b : Table) (r : OutboxEntry) (a rows : Table)
    → rows ≡ b ++ r ∷ a
    → is_queue rows ≡ true
    → (f r).task_id ≡ r.task_id
    → all (λ e. not (e.task_id == r.task_id) || is_terminal e.status) b ≡ true
    → LaneStep (lane r.task_id (r ∷ a)) (lane r.task_id (f r ∷ a))
    → LaneStep (lane t rows) (lane t (update r.id f rows))
at_head t f b r a rows e h s c step =
    let moved = update_middle f b r a (rw e at h) in
    elim (ℕ_discrete r.task_id t) [
      | yes y ↦
          subst (λ u. LaneStep (lane u rows) (lane u (update r.id f rows))) y
            (rw (e) (rw (moved, lane_head r.task_id b r a c, lane_head r.task_id b (f r) a c) step))
      | no n ↦ rw (e) (rw (moved, lane_other t b r (f r) a (ground arith) s) kept)
    ]

-- The head of its lane, written out.
pub waiting_head :
    (r : OutboxEntry) (a : Table)
    → r.status ≡ pending
    → lane r.task_id (r ∷ a) ≡ (r.mutation, false) ∷ lane r.task_id a
unfolding lane
waiting_head r a o = ground arith

pub held_head :
    (r : OutboxEntry) (a : Table)
    → r.status ≡ inflight
    → lane r.task_id (r ∷ a) ≡ (r.mutation, true) ∷ lane r.task_id a
unfolding lane
held_head r a o = ground arith
