-- ===== src/Poller/Agrees.antt =====
-- What the reconciliation of an item comes to: crates/application-sync/src/poller.rs.
use repo_link.Prelude.{
  Bool, true, false, Option, none, some, ◌≡◌, refl, sym, ap, ◌∙◌, arith, if◌then◌else◌, ◌==◌,
  nat_eq, list_eq, option_eq, Bool-cases, inl, inr,
}
use repo_link.Prelude.Text.{Text}
use repo_link.Task.Enums.{Priority, synced, dirty_remote, sync_state_eq}
use repo_link.Task.Snapshot.{TaskSnapshot}
use repo_link.Task.State.{Task}
use repo_link.Project.Board.{Project, resolved_priority_option_id_for, priority_for_option_id}
use repo_link.Project.Board.FieldIds.{priority_field_id}
use repo_link.Project.Board.Valid.{IsValid}
use repo_link.Project.Board.Resolve.{priority-roundtrip}
use repo_link.OutboxRepo.{Table}
use repo_link.Outbound.Enqueue.{and_then}
use repo_link.TaskRepo.{
  get, hydrate, mark_remote_dirty, apply_polled_priority, cache_project_status,
}
use repo_link.SyncService.Stored.{StoredAs, update_row-becomes, update_row-StoredAs}
use repo_link.Poller.{
  RemoteProjectItem, Seen, drift_found, mark_drift, check_content, has_pending_priority_push,
  from_option, polled_priority, take_priority, reconcile_priority, cache_status, reconcile_task,
}
use repo_link.Poller.Maps.{entry}

take_id : (o : Option Priority) (s : Seen) → (take_priority o s).task.id ≡ s.task.id
unfolding take_priority
take_id none s = refl
take_id (some priority) s = refl

status_id : (item : RemoteProjectItem) (s : Seen) → (cache_status item s).task.id ≡ s.task.id
unfolding cache_status
status_id item s = elim (Bool-cases (s.task.project_status_option_id == item.status_option_id)) [
  | inl y ↦ rw (y) refl
  | inr n ↦ rw (n) refl
]

drift_task :
    (b : Bool) (s : Seen)
    → ((mark_drift b s).task.id ≡ s.task.id) × ((mark_drift b s).task.priority ≡ s.task.priority)
unfolding mark_drift
drift_task true s = (refl, refl)
drift_task false s = (refl, refl)

status_task :
    (item : RemoteProjectItem) (s : Seen)
    → ((cache_status item s).task.priority ≡ s.task.priority)
      × ((cache_status item s).task.project_status_option_id ≡ item.status_option_id)
unfolding cache_status
status_task item s = elim (Bool-cases (s.task.project_status_option_id == item.status_option_id)) [
  | inl y ↦
      let e : s.task.project_status_option_id ≡ item.status_option_id = ground arith in
      (rw (y) refl, rw (y) e)
  | inr n ↦ (rw (n) refl, rw (n) refl)
]

-- The board's option, once it is taken or agrees.
taken_option :
    (outbox : Table) (p : Project) (option_id : Text) (priority : Priority) (s : Seen)
    → IsValid p
    → priority_for_option_id p option_id ≡ some priority
    → has_pending_priority_push outbox s.task.id ≡ false
    → resolved_priority_option_id_for p
        (take_priority (from_option outbox p option_id s.task) s).task.priority
      ≡ some option_id
unfolding from_option take_priority
taken_option outbox p option_id priority s v e n =
    elim (Bool-cases (resolved_priority_option_id_for p s.task.priority == some option_id)) [
      | inl y ↦
          let agreed : resolved_priority_option_id_for p s.task.priority ≡ some option_id =
            ground arith in
          rw (y) agreed
      | inr d ↦ rw (d, e, n) (priority-roundtrip p option_id priority v e)
    ]

reconcile_task-id :
    (outbox : Table) (p : Project) (item : RemoteProjectItem) (s : Seen)
    → (reconcile_task outbox p item s).task.id ≡ s.task.id
unfolding reconcile_task reconcile_priority check_content
reconcile_task-id outbox p item s =
    status_id item _ ∙ take_id _ _ ∙ (drift_task (drift_found item (get s.task.id s.tasks)) s).0

seen-agrees :
    (outbox : Table) (p : Project) (item : RemoteProjectItem) (field_id option_id : Text)
    (priority : Priority) (s : Seen)
    → IsValid p
    → priority_field_id p ≡ some field_id
    → entry field_id item.single_select_options ≡ some option_id
    → priority_for_option_id p option_id ≡ some priority
    → has_pending_priority_push outbox s.task.id ≡ false
    → let u = (reconcile_task outbox p item s).task in
      (resolved_priority_option_id_for p u.priority ≡ some option_id)
      × (u.project_status_option_id ≡ item.status_option_id)
unfolding reconcile_task reconcile_priority check_content polled_priority
seen-agrees outbox p item field_id option_id priority s v f o e n =
    let a = check_content item s in
    let b = reconcile_priority outbox p item a in
    let free : has_pending_priority_push outbox a.task.id ≡ false =
      ap (has_pending_priority_push outbox)
        (drift_task (drift_found item (get s.task.id s.tasks)) s).0
      ∙ n in
    let chosen : polled_priority outbox p item a.task ≡ from_option outbox p option_id a.task =
      rw (f, o) refl in
    let shown : resolved_priority_option_id_for p b.task.priority ≡ some option_id =
      ap (λ c. resolved_priority_option_id_for p (take_priority c a).task.priority) chosen
      ∙ taken_option outbox p option_id priority a v e free in
    (ap (resolved_priority_option_id_for p) (status_task item b).0 ∙ shown, (status_task item b).1)

-- The stored task has the priority and the status of the indexed one.
abbrev InStep : Seen → Type 0
InStep s =
    StoredAs
      (λ x.
        (x.priority ≡ s.task.priority)
        × (x.project_status_option_id ≡ s.task.project_status_option_id))
      s.task.id s.tasks

dirtied-InStep :
    (x : Task) (b : Option TaskSnapshot) (priority : Priority) (option_id : Option Text)
    → ((hydrate x b).priority ≡ priority) × ((hydrate x b).project_status_option_id ≡ option_id)
    → let y = hydrate (if x.sync == synced then record x { sync = dirty_remote } else x) b in
      (y.priority ≡ priority) × (y.project_status_option_id ≡ option_id)
unfolding hydrate
dirtied-InStep x b priority option_id a = elim (Bool-cases (x.sync == synced)) [
  | inl y ↦ rw (y) a
  | inr n ↦ rw (n) a
]

drift-InStep : (b : Bool) (s : Seen) → InStep s → InStep (mark_drift b s)
unfolding mark_drift mark_remote_dirty
drift-InStep false s h = h
drift-InStep true s h =
    update_row-StoredAs _ s.task.id _ s.tasks (λ x. ground arith)
      (λ x b a. dirtied-InStep x b _ _ a) h

take-InStep : (o : Option Priority) (s : Seen) → InStep s → InStep (take_priority o s)
unfolding take_priority apply_polled_priority hydrate
take-InStep none s h = h
take-InStep (some priority) s h =
    update_row-becomes _ _ s.task.id _ s.tasks (λ x. refl) (λ x b a. (refl, a.1)) h

status-InStep : (item : RemoteProjectItem) (s : Seen) → InStep s → InStep (cache_status item s)
unfolding cache_status cache_project_status hydrate
status-InStep item s h =
    elim (Bool-cases (s.task.project_status_option_id == item.status_option_id)) [
      | inl y ↦ rw (y) h
      | inr n ↦
          rw (n) (update_row-becomes _ _ s.task.id _ s.tasks (λ x. refl) (λ x b a. (a.0, refl)) h)
    ]

reconciled-InStep :
    (outbox : Table) (p : Project) (item : RemoteProjectItem) (s : Seen)
    → InStep s
    → InStep (reconcile_task outbox p item s)
unfolding reconcile_task reconcile_priority check_content
reconciled-InStep outbox p item s h =
    status-InStep item _
      (take-InStep _ _ (drift-InStep (drift_found item (get s.task.id s.tasks)) s h))

-- On a valid board, let an item with a priority that is mapped be reconciled with its task, as the
-- index holds it with the stored priority and status, and let no priority of the task wait to be
-- pushed. Then the priority of the stored task is the one that the board shows, up to the options
-- that several priorities share, and its stored status is the item's.
pub reconcile_task-agrees :
    (outbox : Table) (p : Project) (item : RemoteProjectItem) (field_id option_id : Text)
    (priority : Priority) (s : Seen) (x : Task)
    → IsValid p
    → priority_field_id p ≡ some field_id
    → entry field_id item.single_select_options ≡ some option_id
    → priority_for_option_id p option_id ≡ some priority
    → has_pending_priority_push outbox s.task.id ≡ false
    → get s.task.id s.tasks ≡ some x
    → x.priority ≡ s.task.priority
    → x.project_status_option_id ≡ s.task.project_status_option_id
    → (u : Task) × (get s.task.id (reconcile_task outbox p item s).tasks ≡ some u)
      × (resolved_priority_option_id_for p u.priority ≡ some option_id)
      × (u.project_status_option_id ≡ item.status_option_id)
reconcile_task-agrees outbox p item field_id option_id priority s x v f o e n g same_priority
      same_status =
    let (u, h, (a, b)) = reconciled-InStep outbox p item s (x, g, (same_priority, same_status)) in
    let (c, d) = seen-agrees outbox p item field_id option_id priority s v f o e n in
    (
      u,
      ap (λ id. get id (reconcile_task outbox p item s).tasks)
            (sym (reconcile_task-id outbox p item s))
          ∙ h,
      ap (resolved_priority_option_id_for p) a ∙ c,
      b ∙ d,
    )

and_then-none {ℓ κ} :
    {A : Type ℓ} {B : Type κ} (o : Option A) (f : A → Option B)
    → ((a : A) → f a ≡ none)
    → and_then o f ≡ none
and_then-none none f h = refl
and_then-none (some a) f h = h a

unless_none :
    (b c : Bool) (o : Option Priority)
    → c ≡ true
    → (if b then none else and_then o (λ priority. if c then none else some priority)) ≡ none
unless_none true c o h = refl
unless_none false c none h = refl
unless_none false c (some priority) h = rw (h) refl

pending_none :
    (outbox : Table) (p : Project) (item : RemoteProjectItem) (t : Task)
    → has_pending_priority_push outbox t.id ≡ true
    → polled_priority outbox p item t ≡ none
unfolding polled_priority from_option
pending_none outbox p item t h = and_then-none (priority_field_id p) _ (λ field_id.
    and_then-none (entry field_id item.single_select_options) _ (λ option_id.
      unless_none (resolved_priority_option_id_for p t.priority == some option_id)
        (has_pending_priority_push outbox t.id) (priority_for_option_id p option_id) h))

-- A priority that waits to be pushed wins over the board: neither the stored tasks nor the indexed
-- one take the board's.
reconcile_priority-pending :
    (outbox : Table) (p : Project) (item : RemoteProjectItem) (s : Seen)
    → has_pending_priority_push outbox s.task.id ≡ true
    → reconcile_priority outbox p item s ≡ s
unfolding reconcile_priority take_priority
reconcile_priority-pending outbox p item s h =
    ap (λ o. take_priority o s) (pending_none outbox p item s.task h)
