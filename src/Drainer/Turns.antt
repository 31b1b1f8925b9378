-- ===== src/Drainer/Turns.antt =====
-- What a turn does to the row of its entry: crates/application-sync/src/drainer.rs.
use repo_link.Prelude.{
  ℕ, ◌+◌, Bool, true, some, none, List, ◌∷◌, ◌++◌, ◌≡◌, arith, leb, ltb, nat_eq, if◌then◌else◌,
  Bool-cases, inl, inr,
}
use repo_link.Prelude.Text.{Text}
use repo_link.Core.{Timestamp}
use repo_link.Task.State.{Task}
use repo_link.Sync.Outbox.{OutboxEntry, pending, inflight, succeeded, failed, outbox_status_eq}
use repo_link.OutboxRepo.{Table, mark_succeeded, mark_failed, record_retry}
use repo_link.OutboxRepo.Serial.{
  is_terminal, is_queue, update_middle, Step, marked_succeeded, marked_failed, retried,
}
use repo_link.Drainer.{
  BackoffSchedule, Applied, applied, raised, stamped, retry, conflicting, fail_entry, settle,
  conflict_message, delay_for,
}

-- A row within the cap: an unresolved one has an attempt left.
unfoldable pub is_capped : ℕ → OutboxEntry → Bool
is_capped cap e = if is_terminal e.status then leb e.attempts cap else ltb e.attempts cap

unfoldable pub failed_row :
    BackoffSchedule → Timestamp → Timestamp → Text → OutboxEntry → OutboxEntry
unfolding delay_for
failed_row s at now m r =
    if ltb (r.attempts + 1) s.max_attempts
    then record r {
      status = pending;
      last_error = some m;
      attempts = r.attempts + 1;
      next_attempt_at = some (at + delay_for s (r.attempts + 1));
      updated_at = now;
    }
    else record r {
      status = failed;
      last_error = some m;
      attempts = r.attempts + 1;
      updated_at = now;
    }

-- What a turn makes of the row of its entry.
unfoldable pub settled_row :
    BackoffSchedule → Timestamp → Timestamp → Applied → OutboxEntry → OutboxEntry
unfolding conflict_message failed_row
settled_row s at now (applied stamped) r = record r {
  status = succeeded;
  last_error = none;
  updated_at = now;
}
settled_row s at now (applied (conflicting k)) r = record r {
  status = failed;
  last_error = some (conflict_message k);
  attempts = r.attempts + 1;
  updated_at = now;
}
settled_row s at now (applied (retry m)) r = failed_row s at now m r
settled_row s at now (raised m) r = failed_row s at now m r

fail_entry-row :
    (s : BackoffSchedule) (at now : Timestamp) (m : Text) (b : Table) (r : OutboxEntry) (a : Table)
    → is_queue (b ++ r ∷ a) ≡ true
    → fail_entry s at now r m (b ++ r ∷ a) ≡ b ++ failed_row s at now m r ∷ a
unfolding fail_entry failed_row record_retry mark_failed
fail_entry-row s at now m b r a q = elim (Bool-cases (ltb (r.attempts + 1) s.max_attempts)) [
  | inl t ↦ rw (t, failed_row) (update_middle _ b r a q)
  | inr f ↦ rw (f, failed_row) (update_middle _ b r a q)
]

-- A turn changes the row of its entry and no other row.
pub settle-row :
    (s : BackoffSchedule) (at now : Timestamp) (res : Applied) (ts : List Task) (b : Table)
    (r : OutboxEntry) (a : Table)
    → is_queue (b ++ r ∷ a) ≡ true
    → (settle s at now r res (record { outbox = b ++ r ∷ a; tasks = ts })).outbox
      ≡ b ++ settled_row s at now res r ∷ a
unfolding settle settled_row mark_succeeded mark_failed
settle-row s at now (applied stamped) ts b r a q = update_middle _ b r a q
settle-row s at now (applied (conflicting k)) ts b r a q = update_middle _ b r a q
settle-row s at now (applied (retry m)) ts b r a q = fail_entry-row s at now m b r a q
settle-row s at now (raised m) ts b r a q = fail_entry-row s at now m b r a q

pub settled_row-is_capped :
    (s : BackoffSchedule) (at now : Timestamp) (res : Applied) (r : OutboxEntry)
    → is_capped s.max_attempts r ≡ true
    → r.status ≡ inflight
    → is_capped s.max_attempts (settled_row s at now res r) ≡ true
unfolding settled_row failed_row is_capped
settled_row-is_capped s at now (applied stamped) r h i = ground arith
settled_row-is_capped s at now (applied (conflicting k)) r h i = ground arith
settled_row-is_capped s at now (applied (retry m)) r h i = ground arith
settled_row-is_capped s at now (raised m) r h i = ground arith

fail-Step :
    (s : BackoffSchedule) (at now : Timestamp) (m : Text) (rows b : Table) (r : OutboxEntry)
    (a : Table)
    → rows ≡ b ++ r ∷ a
    → r.status ≡ inflight
    → Step rows (fail_entry s at now r m rows)
unfolding fail_entry
fail-Step s at now m rows b r a e i = elim (Bool-cases (ltb (r.attempts + 1) s.max_attempts)) [
  | inl t ↦ rw (t) (retried now (at + delay_for s (r.attempts + 1)) m b r a e i)
  | inr f ↦ rw (f) (marked_failed now m b r a e i)
]

-- A turn of an inflight entry runs one statement on the outbox.
pub settle-Step :
    (s : BackoffSchedule) (at now : Timestamp) (res : Applied) (ts : List Task) (rows b : Table)
    (r : OutboxEntry) (a : Table)
    → rows ≡ b ++ r ∷ a
    → r.status ≡ inflight
    → Step rows (settle s at now r res (record { outbox = rows; tasks = ts })).outbox
unfolding settle fail_entry
settle-Step s at now (applied stamped) ts rows b r a e i = marked_succeeded now b r a e i
settle-Step s at now (applied (conflicting k)) ts rows b r a e i =
    marked_failed now (conflict_message k) b r a e i
settle-Step s at now (applied (retry m)) ts rows b r a e i = fail-Step s at now m rows b r a e i
settle-Step s at now (raised m) ts rows b r a e i = fail-Step s at now m rows b r a e i
