-- ===== src/Drainer/Sweep/Settles.antt =====
-- A sweep that is repeated: crates/application-sync/src/drainer.rs.
use repo_link.Prelude.{
  ℕ, suc, Bool, true, false, ◌||◌, Option, none, some, List, [], ◌∷◌, ◌++◌, ◌≡◌, refl, sym, arith,
  subst, ap, ◌∙◌, nat_eq, list_eq, any, any-append, map, Bool-cases, inl, inr,
}
use repo_link.Core.{TaskId, OutboxEntryId, Timestamp}
use repo_link.Task.State.{Task}
use repo_link.Task.Edits.{is_mirror}
use repo_link.Prelude.Text.{Text}
use repo_link.Project.Board.{Project}
use repo_link.Project.Board.FieldIds.{OrgIssueTypeRegistry}
use repo_link.Sync.Outbox.{
  OutboxEntry, OutboxMutation, new, kind, set_project_type, set_issue_type, outbox_status_eq,
}
use repo_link.OutboxRepo.{Table, enqueue, is_type_kind, blocks_type}
use repo_link.TaskRepo.{TaskStore}
use repo_link.TaskRepo.Listing.{is_older, selected, read_row}
use repo_link.Outbound.Plan.Rails.{TakesRail, taken_rail}
use repo_link.Drainer.Effects.{Env}
use repo_link.Drainer.Apply.Arms.{resolve_project_tolerant}
use repo_link.Drainer.Sweep.{
  Bindings, planned, owed, enqueue_owed, sweep, enqueue_pending_issue_types,
}

rail_kind :
    (p : Option Project) (rs : List OrgIssueTypeRegistry) (owner : Option Text) (t : Task)
    (m : OutboxMutation)
    → TakesRail p rs owner t m
    → is_type_kind m ≡ true
unfolding is_type_kind kind
rail_kind p rs owner t (set_project_type board item field option_id name recorded) h = ground arith
rail_kind p rs owner t (set_issue_type node type_id name recorded) h = ground arith
rail_kind p rs owner t (OutboxMutation.update_remote a b c d e) h = absurd h
rail_kind p rs owner t (OutboxMutation.add_item a b) h = absurd h
rail_kind p rs owner t (OutboxMutation.create_draft_issue a b c) h = absurd h
rail_kind p rs owner t (OutboxMutation.update_draft_issue a b c) h = absurd h
rail_kind p rs owner t (OutboxMutation.convert_draft_to_issue a b) h = absurd h
rail_kind p rs owner t (OutboxMutation.set_project_status a b c d) h = absurd h
rail_kind p rs owner t (OutboxMutation.set_project_priority a b c d) h = absurd h
rail_kind p rs owner t (OutboxMutation.add_sub_issue a b c d) h = absurd h
rail_kind p rs owner t (OutboxMutation.remove_sub_issue a b c d) h = absurd h
rail_kind p rs owner t (OutboxMutation.add_blocked_by a b c d) h = absurd h
rail_kind p rs owner t (OutboxMutation.remove_blocked_by a b c d) h = absurd h

owed_kind :
    (env : Env) (b : Bindings) (t : Task) (m : OutboxMutation)
    → owed env b t ≡ some m
    → is_type_kind m ≡ true
unfolding owed planned
owed_kind env b t m h = elim (Bool-cases (is_mirror t)) [
  | inl y ↦
      let p : planned env b t ≡ some m = ground arith in
      rail_kind (resolve_project_tolerant env t) env.registries _ t m
        (taken_rail (resolve_project_tolerant env t) env.registries _ t m p)
  | inr n ↦ absurd (ground arith)
]

last_any :
    (q : OutboxEntry → Bool) (e : OutboxEntry) (b : Bool)
    → q e ≡ true
    → (b || any q (e ∷ [])) ≡ true
unfolding any
last_any q e true h = refl
last_any q e false h = rw (h) refl

enqueue_blocked :
    (e : OutboxEntry) (rows : Table)
    → is_type_kind e.mutation ≡ true
    → any (blocks_type e) rows ≡ true
    → enqueue e rows ≡ rows
unfolding enqueue
enqueue_blocked e rows k h = ground arith

enqueue_free :
    (e : OutboxEntry) (rows : Table)
    → any (blocks_type e) rows ≡ false
    → enqueue e rows ≡ rows ++ e ∷ []
unfolding enqueue
enqueue_free e rows h = ground arith

-- A new row keeps out another of its task and mutation.
blocks_same :
    (f g : OutboxEntryId × Timestamp) (id : TaskId) (m : OutboxMutation)
    → blocks_type (new g.0 g.1 id m) (new f.0 f.1 id m) ≡ true
unfolding blocks_type new
blocks_same f g id m = ground arith

-- An entry that is made again finds the row that the first one made, or the row that kept it out.
blocked_again :
    (f g : OutboxEntryId × Timestamp) (id : TaskId) (m : OutboxMutation) (rows : Table)
    → is_type_kind m ≡ true
    → any (blocks_type (new g.0 g.1 id m)) (enqueue (new f.0 f.1 id m) rows) ≡ true
unfolding blocks_type new
blocked_again f g id m rows k =
    let e = new f.0 f.1 id m in
    let q = blocks_type (new g.0 g.1 id m) in
    elim (Bool-cases (any (blocks_type e) rows)) [
      | inl y ↦ subst (λ r. any q r ≡ true) (sym (enqueue_blocked e rows k y)) y
      | inr n ↦
          subst (λ r. any q r ≡ true) (sym (enqueue_free e rows n))
            (any-append q rows (e ∷ []) ∙ last_any q e (any q rows) (blocks_same f g id m))
    ]

-- What is found in the table is still found after an entry is made.
enqueue-any :
    (q : OutboxEntry → Bool) (e : OutboxEntry) (rows : Table)
    → any q rows ≡ true
    → any q (enqueue e rows) ≡ true
unfolding enqueue
enqueue-any q e rows h = ground (arith, any-append q rows (e ∷ []))

owed_any :
    (q : OutboxEntry → Bool) (f : OutboxEntryId × Timestamp) (id : TaskId)
    (o : Option OutboxMutation) (rows : Table)
    → any q rows ≡ true
    → any q (enqueue_owed f id o rows) ≡ true
unfolding enqueue_owed
owed_any q f id none rows h = h
owed_any q f id (some m) rows h = enqueue-any q (new f.0 f.1 id m) rows h

sweep-any :
    (q : OutboxEntry → Bool) (fresh : ℕ → OutboxEntryId × Timestamp) (env : Env) (b : Bindings)
    (k : ℕ) (ts : List Task) (rows : Table)
    → any q rows ≡ true
    → any q (sweep fresh env b k ts rows) ≡ true
unfolding sweep
sweep-any q fresh env b k [] rows h = h
sweep-any q fresh env b k (t ∷ ts) rows h =
    sweep-any q fresh env b (suc k) ts _ (owed_any q (fresh k) t.id (owed env b t) rows h)

-- What a task is owed is kept out by a row that is there, or nothing is owed.
AreSettled : Env → Bindings → List Task → Table → Type 0
AreSettled env b [] rows = Unit {0}
AreSettled env b (t ∷ ts) rows =
    ((m : OutboxMutation)
      → owed env b t ≡ some m
      → (g : OutboxEntryId × Timestamp) → any (blocks_type (new g.0 g.1 t.id m)) rows ≡ true)
    × AreSettled env b ts rows

sweep-AreSettled :
    (fresh : ℕ → OutboxEntryId × Timestamp) (env : Env) (b : Bindings) (k : ℕ) (ts : List Task)
    (rows : Table)
    → AreSettled env b ts (sweep fresh env b k ts rows)
unfolding sweep AreSettled enqueue_owed
sweep-AreSettled fresh env b k [] rows = tt
sweep-AreSettled fresh env b k (t ∷ ts) rows = (
  λ m o g. sweep-any (blocks_type (new g.0 g.1 t.id m)) fresh env b (suc k) ts _ (
      subst
        (λ p. any (blocks_type (new g.0 g.1 t.id m)) (enqueue_owed (fresh k) t.id p rows) ≡ true)
        (sym o) (blocked_again (fresh k) g t.id m rows (owed_kind env b t m o))),
  sweep-AreSettled fresh env b (suc k) ts (enqueue_owed (fresh k) t.id (owed env b t) rows),
)

settled_owed :
    (f : OutboxEntryId × Timestamp) (env : Env) (b : Bindings) (t : Task) (rows : Table)
    (o : Option OutboxMutation)
    → owed env b t ≡ o
    → ((m : OutboxMutation)
        → owed env b t ≡ some m
        → (g : OutboxEntryId × Timestamp) → any (blocks_type (new g.0 g.1 t.id m)) rows ≡ true)
    → enqueue_owed f t.id o rows ≡ rows
unfolding enqueue_owed new
settled_owed f env b t rows none e h = refl
settled_owed f env b t rows (some m) e h =
    enqueue_blocked (new f.0 f.1 t.id m) rows (owed_kind env b t m e) (h m e f)

settled_sweep :
    (fresh : ℕ → OutboxEntryId × Timestamp) (env : Env) (b : Bindings) (k : ℕ) (ts : List Task)
    (rows : Table)
    → AreSettled env b ts rows
    → sweep fresh env b k ts rows ≡ rows
unfolding sweep AreSettled
settled_sweep fresh env b k [] rows h = refl
settled_sweep fresh env b k (t ∷ ts) rows (h, hs) =
    ap (sweep fresh env b (suc k) ts) (settled_owed (fresh k) env b t rows (owed env b t) refl h)
    ∙ settled_sweep fresh env b (suc k) ts rows hs

-- A sweep that is repeated over the same tasks, boards and registries makes no entry.
pub enqueue_pending_issue_types_again :
    (fresh again : ℕ → OutboxEntryId × Timestamp) (env : Env) (b : Bindings) (s : TaskStore)
    (rows : Table)
    → let swept = enqueue_pending_issue_types fresh env b s rows in
      enqueue_pending_issue_types again env b s swept ≡ swept
unfolding enqueue_pending_issue_types
enqueue_pending_issue_types_again fresh again env b s rows =
    let ts = map (read_row s) (selected (λ t. t.issue_type_pending) is_older s) in
    settled_sweep again env b 0 ts (sweep fresh env b 0 ts rows)
      (sweep-AreSettled fresh env b 0 ts rows)
