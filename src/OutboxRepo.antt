-- ===== src/OutboxRepo.antt =====
-- crates/infra-sqlite/src/outbox_repo.rs: the table `outbox_entries` and its statements.
-- The table is the list of its rows in the order of their `rowid`, which is that of insertion.
-- Each statement runs in one transaction. Equal payloads have equal JSON, and other payloads other
-- JSON, so a test on `payload_json` is a test on the mutation.
pub mod Order
pub mod Serial
pub mod Fifo
pub mod Claim
pub mod Lanes
use repo_link.Prelude.{
  ℕ, suc, ◌+◌, Bool, true, false, not, ◌&&◌, ◌||◌, Option, none, some, List, [], ◌∷◌, ◌++◌, map,
  ltb, leb, if◌then◌else◌, ◌==◌, nat_eq, list_eq, any, retain, length,
}
use repo_link.Prelude.Text.{Text, codes}
use repo_link.Core.{TaskId, OutboxEntryId, Timestamp}
use repo_link.Sync.Outbox.{
  OutboxEntry, OutboxMutation, OutboxStatus, pending, inflight, succeeded, failed, kind,
  outbox_status_eq, outbox_mutation_eq,
}

abbrev pub Table : Type 0
Table = List OutboxEntry

-- The kinds whose insertion is guarded.
unfoldable pub is_type_kind : OutboxMutation → Bool
unfolding kind
is_type_kind m = kind m == codes "set_issue_type" || kind m == codes "set_project_type"

-- A row that the guard of `insert_outbox_in_tx` finds.
unfoldable pub blocks_type : OutboxEntry → OutboxEntry → Bool
unfolding kind
blocks_type e s =
    s.task_id == e.task_id
    && kind s.mutation == kind e.mutation
    && (s.status == pending
        || s.status == inflight
        || (s.status == failed && s.mutation == e.mutation))

-- `insert_outbox_in_tx`, and so `enqueue`
unfoldable pub enqueue : OutboxEntry → Table → Table
unfolding is_type_kind blocks_type
enqueue e rows =
    if not (is_type_kind e.mutation) || not (any (blocks_type e) rows)
    then rows ++ (e ∷ [])
    else rows

-- `status IN ('pending', 'inflight', 'failed')`
unfoldable pub is_unresolved : OutboxStatus → Bool
is_unresolved succeeded = false
is_unresolved _ = true

-- `enqueue_if_absent`: whether a row was inserted.
unfoldable pub enqueue_if_absent : OutboxEntry → Table → Table × Bool
unfolding is_unresolved
enqueue_if_absent e rows =
    if not (any (λ s. s.task_id == e.task_id && is_unresolved s.status) rows)
    then (rows ++ (e ∷ []), true)
    else (rows, false)

-- `next_attempt_at IS NULL OR next_attempt_at <= now`
unfoldable pub is_due : Timestamp → Option Timestamp → Bool
is_due now none = true
is_due now (some at) = leb at now

-- A sibling that holds a row back. `older` says that its `rowid` is below the row's.
unfoldable pub holds_back : OutboxEntry → Bool → OutboxEntry → Bool
holds_back o older s =
    s.task_id == o.task_id
    && (s.status == inflight
        || (s.status == pending
            && (ltb s.enqueued_at o.enqueued_at || (s.enqueued_at == o.enqueued_at && older))))

-- The `WHERE` clause of the claim, for the row `o` between those with smaller and larger `rowid`.
unfoldable pub is_eligible : Timestamp → Table → OutboxEntry → Table → Bool
unfolding is_due holds_back
is_eligible now before o after =
    o.status == pending
    && is_due now o.next_attempt_at
    && not (any (holds_back o true) before || any (holds_back o false) after)

-- A row that is picked, between the rows before it and those behind it.
pub record Pick : Type 0 where
  pub before : Table
  pub row : OutboxEntry
  pub after : Table

-- `ORDER BY enqueued_at ASC, rowid ASC LIMIT 1` on the better of a row and a later one.
unfoldable pub first_of_two : Pick → Option Pick → Pick
first_of_two p none = p
first_of_two p (some q) = if ltb q.row.enqueued_at p.row.enqueued_at then q else p

-- The `SELECT` of `claim_next_eligible`; `before` are the rows that were passed over.
unfoldable pub select : Timestamp → Table → Table → Option Pick
unfolding is_eligible first_of_two
select now before [] = none
select now before (o ∷ after) =
    let rest = select now (before ++ (o ∷ [])) after in
    if is_eligible now before o after
    then some (first_of_two (record { before = before; row = o; after = after }) rest)
    else rest

-- `UPDATE outbox_entries SET … WHERE id = ?`
unfoldable pub update : OutboxEntryId → (OutboxEntry → OutboxEntry) → Table → Table
update id f [] = []
update id f (e ∷ rows) = (if e.id == id then f e else e) ∷ update id f rows

-- `claim_next_eligible`; `flip_at` is the reading of the clock for the update.
unfoldable pub claim_next_eligible : Timestamp → Timestamp → Table → Table × Option OutboxEntry
unfolding select update
claim_next_eligible now flip_at rows = elim (select now [] rows) [
  | none ↦ (rows, none)
  | some p ↦
      let flip = λ (e : OutboxEntry). record e { status = inflight; updated_at = flip_at } in
      (update p.row.id flip rows, some (flip p.row))
]

-- `mark_succeeded`, `mark_failed` and `record_retry`
unfoldable pub mark_succeeded : Timestamp → OutboxEntryId → Table → Table
unfolding update
mark_succeeded now id rows =
    update id (λ e. record e { status = succeeded; last_error = none; updated_at = now }) rows

unfoldable pub mark_failed : Timestamp → OutboxEntryId → Text → Table → Table
unfolding update
mark_failed now id error rows =
    update id
      (λ e. record e {
        status = failed;
        last_error = some error;
        attempts = e.attempts + 1;
        updated_at = now;
      })
      rows

unfoldable pub record_retry : Timestamp → OutboxEntryId → Text → Timestamp → Table → Table
unfolding update
record_retry now id error next_attempt_at rows =
    update id
      (λ e. record e {
        status = pending;
        last_error = some error;
        attempts = e.attempts + 1;
        next_attempt_at = some next_attempt_at;
        updated_at = now;
      })
      rows

-- `requeue_orphaned_inflight`: the table, and the count of the rows that were reset.
unfoldable pub requeue_orphaned_inflight : Timestamp → Table → Table × ℕ
requeue_orphaned_inflight now rows = (
  map
      (λ e.
        if e.status == inflight
        then record e { status = pending; next_attempt_at = none; updated_at = now }
        else e)
      rows,
  length (retain (λ e. e.status == inflight) rows),
)

-- `delete_pending_add_items`: the table, and the count of the rows that were deleted.
unfoldable pub delete_pending_add_items : TaskId → Table → Table × ℕ
unfolding kind
delete_pending_add_items task_id rows =
    let is_doomed = λ (e : OutboxEntry).
      e.task_id == task_id && e.status == pending && kind e.mutation == codes "add_item" in
    (retain (λ e. not (is_doomed e)) rows, length (retain is_doomed rows))
