-- ===== src/OutboxRepo/Order.antt =====
-- What the `SELECT` of `claim_next_eligible` picks: crates/infra-sqlite/src/outbox_repo.rs.
use repo_link.Prelude.{
  ◌≤◌, true, false, none, some, [], ◌∷◌, ◌++◌, ◌≡◌, arith, Option-cases, inl, inr,
}
use mathlib.Core.List.{append_assoc, append-nil}
use repo_link.Core.{Timestamp}
use repo_link.Sync.Outbox.{OutboxEntry}
use repo_link.OutboxRepo.{Table, Pick, is_eligible, first_of_two, select}

-- A pick is a row of the table, in its place, that the `WHERE` clause admits.
pub record IsPick (now : Timestamp) (rows : Table) (p : Pick) : Type 0 where
  pub placed : rows ≡ p.before ++ p.row ∷ p.after
  pub admitted : is_eligible now p.before p.row p.after ≡ true

snoc-append : (xs : Table) (y : OutboxEntry) (ys : Table) → (xs ++ y ∷ []) ++ ys ≡ xs ++ y ∷ ys
snoc-append xs y ys = append_assoc xs (y ∷ []) ys

pub select-IsPick :
    (now : Timestamp) (before rows : Table) (p : Pick)
    → select now before rows ≡ some p
    → IsPick now (before ++ rows) p
unfolding select first_of_two
select-IsPick now before [] p h = cc
select-IsPick now before (o ∷ after) p h =
    let ih = select-IsPick now (before ++ o ∷ []) after in
    ground (arith, snoc-append before o after, ih p)

-- Nothing is picked only if the `WHERE` clause admits no row.
pub select-none :
    (now : Timestamp) (before b : Table) (o : OutboxEntry) (a : Table)
    → select now before (b ++ o ∷ a) ≡ none
    → is_eligible now (before ++ b) o a ≡ false
unfolding select
select-none now before [] o a h = rw append-nil (ground arith)
select-none now before (x ∷ b) o a h =
    let ih = select-none now (before ++ x ∷ []) b o a in
    rw (← snoc-append before x b) (ih (ground arith))

-- No row that the clause admits was enqueued before the one that is picked.
pub select_earliest :
    (now : Timestamp) (before b : Table) (o : OutboxEntry) (a : Table) (p : Pick)
    → select now before (b ++ o ∷ a) ≡ some p
    → is_eligible now (before ++ b) o a ≡ true
    → p.row.enqueued_at ≤ o.enqueued_at
unfolding select first_of_two
select_earliest now before [] o a p h k = ground (arith, append-nil before)
select_earliest now before (x ∷ b) o a p h k =
    let ih = select_earliest now (before ++ x ∷ []) b o a in
    let none_left = select-none now (before ++ x ∷ []) b o a in
    elim (Option-cases (select now (before ++ x ∷ []) (b ++ o ∷ a))) [
      | inl n ↦ absurd (ground (arith, none_left n, snoc-append before x b))
      | inr (q, e) ↦ ground (arith, ih q e (rw snoc-append k))
    ]
