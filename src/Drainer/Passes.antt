-- ===== src/Drainer/Passes.antt =====
-- A pass of `drain_once` ends: crates/application-sync/src/drainer.rs.
use repo_link.Prelude.{
  ℕ, suc, ◌+◌, ◌-◌, ◌≤◌, ◌<◌, true, some, [], ◌∷◌, ◌++◌, ◌≡◌, refl, arith, if◌then◌else◌,
}
use repo_link.Core.{Timestamp}
use repo_link.Sync.Outbox.{OutboxEntry, inflight}
use repo_link.OutboxRepo.{Table, claim_next_eligible}
use repo_link.OutboxRepo.Serial.{is_terminal, is_queue}
use repo_link.OutboxRepo.Claim.{claim_next_eligible-IsClaim}
use repo_link.OutboxRepo.Fifo.{Step-is_queue}
use repo_link.Drainer.{
  BackoffSchedule, Applied, applied, raised, stamped, retry, conflicting, Store, settle,
}
use repo_link.Drainer.Turns.{is_capped, settled_row, failed_row, settle-row}
use repo_link.Drainer.Capped.{
  are_capped, Turn, claiming, settling, Turn-Step, Turn-are_capped, middle_capped,
}

-- The attempts that a row has left, and those of a table.
unfoldable pub left_of : ℕ → OutboxEntry → ℕ
left_of cap e = if is_terminal e.status then 0 else cap - e.attempts

unfoldable pub potential : ℕ → Table → ℕ
unfolding left_of
potential cap [] = 0
potential cap (e ∷ rows) = left_of cap e + potential cap rows

potential-append :
    (cap : ℕ) (xs ys : Table) → potential cap (xs ++ ys) ≡ potential cap xs + potential cap ys
unfolding potential
potential-append cap [] ys = omega arith
potential-append cap (x ∷ xs) ys = ground (arith, potential-append cap xs ys)

settled_row-left :
    (s : BackoffSchedule) (at now : Timestamp) (res : Applied) (r : OutboxEntry)
    → is_capped s.max_attempts r ≡ true
    → r.status ≡ inflight
    → left_of s.max_attempts (settled_row s at now res r) < left_of s.max_attempts r
unfolding settled_row failed_row is_capped left_of
settled_row-left s at now (applied stamped) r h i = ground arith
settled_row-left s at now (applied (conflicting k)) r h i = ground arith
settled_row-left s at now (applied (retry m)) r h i = ground arith
settled_row-left s at now (raised m) r h i = ground arith

-- A pass of `n` turns: each claims an entry and settles it by what the remote gave, at any
-- readings of the clock.
pub data Pass (s : BackoffSchedule) : ℕ → Store → Store → Type 0 where
  rest : (st : Store) → Pass s 0 st st
  turn :
      {n : ℕ} {st' : Store} (now flip_at at settled_at : Timestamp) (res : Applied) (st : Store)
      (e : OutboxEntry)
      → (claim_next_eligible now flip_at st.outbox).1 ≡ some e
      → Pass s n
          (settle s at settled_at e res
            (record st { outbox = (claim_next_eligible now flip_at st.outbox).0 }))
          st'
      → Pass s (suc n) st st'

turn-potential :
    (s : BackoffSchedule) (o : 1 ≤ s.max_attempts) (now flip_at at settled_at : Timestamp)
    (res : Applied) (st : Store) (e : OutboxEntry)
    → is_queue st.outbox ≡ true
    → are_capped s st.outbox ≡ true
    → (claim_next_eligible now flip_at st.outbox).1 ≡ some e
    → potential s.max_attempts
        (settle s at settled_at e res
          (record st { outbox = (claim_next_eligible now flip_at st.outbox).0 })).outbox
      < potential s.max_attempts st.outbox
unfolding potential left_of
turn-potential s o now flip_at at settled_at res st e q h k =
    let c = claim_next_eligible-IsClaim now flip_at st.outbox e q k in
    let claim : Turn s st.outbox (claim_next_eligible now flip_at st.outbox).0 =
      claiming now flip_at in
    let queue = rw c.left at (Step-is_queue (Turn-Step claim) q) in
    let row_capped =
      middle_capped s c.before e c.after (rw c.left at (Turn-are_capped o claim q h)) in
    rw (c.left, settle-row s at settled_at res st.tasks c.before e c.after queue)
      (ground (
        arith,
        c.stood,
        c.given,
        c.waited,
        settled_row-left s at settled_at res e row_capped,
        potential-append s.max_attempts c.before (settled_row s at settled_at res e ∷ c.after),
        potential-append s.max_attempts c.before (c.row ∷ c.after),
      ))

-- A pass over a queue within the cap ends: it has no more turns than its unresolved entries have
-- attempts left.
pub Pass-bounded :
    (s : BackoffSchedule) (n : ℕ) (st st' : Store)
    → 1 ≤ s.max_attempts
    → is_queue st.outbox ≡ true
    → are_capped s st.outbox ≡ true
    → Pass s n st st'
    → n + potential s.max_attempts st'.outbox ≤ potential s.max_attempts st.outbox
Pass-bounded s n st st' o q h (rest _) = omega arith
Pass-bounded s n st st' o q h (turn now flip_at at settled_at res _ e k p) =
    let c = claim_next_eligible-IsClaim now flip_at st.outbox e q k in
    let claim : Turn s st.outbox (claim_next_eligible now flip_at st.outbox).0 =
      claiming now flip_at in
    let queue = Step-is_queue (Turn-Step claim) q in
    let capped = Turn-are_capped o claim q h in
    let after : Turn s _ _ =
      settling at settled_at res st.tasks c.before e c.after c.left (rw c.given refl) in
    omega (
      arith,
      Pass-bounded s _ _ st' o (Step-is_queue (Turn-Step after) queue)
          (Turn-are_capped o after queue capped) p,
      turn-potential s o now flip_at at settled_at res st e q h k,
    )
