-- ===== src/Outbound/Plan/Justified.antt =====
-- What a planned mutation rests on: crates/application-sync/src/enqueue.rs.
use repo_link.Prelude.{
  map, if◌then◌else◌, Bool, true, Option, none, some, List, [], ◌∷◌, ◌++◌, ◌≡◌, refl, arith, nat_eq,
  list_eq, Option-cases, subst, sym, Bool-cases, inl, inr,
}
use repo_link.Prelude.Text.{Text}
use repo_link.Task.Enums.{RelationKind, inverse, is_open}
use repo_link.Task.Snapshot.{RemoteRef}
use repo_link.Task.State.{Task}
use repo_link.Task.Edits.{is_mirror}
use repo_link.Sync.Outbox.{
  OutboxMutation, kind, update_remote, add_item, create_draft_issue, update_draft_issue,
  set_project_status,
}
use repo_link.Project.Board.{Project}
use repo_link.Project.Board.FieldIds.{status_field_id}
use repo_link.Outbound.Enqueue.{
  Address, relation_mutation, oriented, node_of, is_draft_backed, set_project_status_mutation,
  and_then,
}
use repo_link.Outbound.{board_option_for_lifecycle}
use repo_link.Outbound.Plan.Kinds.{owed_kinds, planned_kinds}
use repo_link.Outbound.Plan.{optional, plan_content, plan_filing, plan_board, plan_mutations}

-- Both ends of an edge owe the remote one and the same mutation.
relation_mutation-inverse :
    (k : RelationKind) (add : Bool) (this other : Address)
    → relation_mutation (inverse k) add other this ≡ relation_mutation k add this other
unfolding relation_mutation inverse oriented
relation_mutation-inverse k add this other = ground arith

-- What each kind of mutation rests on, for a task with its board and its filing repo: where it
-- goes, and all that it carries.
abbrev pub Justified : Task → Option Project → Option Text → Bool → OutboxMutation → Type 0
Justified t p f c (update_remote canonical number title body closed) =
    ((r : RemoteRef) × (t.remote ≡ some r) × (number ≡ r.remote_id))
    × (f ≡ some canonical)
    × (title ≡ some t.title)
    × (body ≡ some t.body)
    × (closed ≡ none)
Justified t p f c (update_draft_issue item title body) =
    (t.remote ≡ none)
    × (t.project_item_id ≡ some item)
    × (c ≡ true)
    × (title ≡ some t.title)
    × (body ≡ some t.body)
Justified t p f c (add_item board issue) =
    (t.project_item_id ≡ none)
    × (node_of t ≡ some issue)
    × ((q : Project) × (p ≡ some q) × (q.id ≡ board))
Justified t p f c (create_draft_issue board title body) =
    (t.project_item_id ≡ none)
    × (t.remote ≡ none)
    × (title ≡ t.title)
    × (body ≡ t.body)
    × ((q : Project) × (p ≡ some q) × (q.id ≡ board))
Justified t p f c (set_project_status board item field option_id) =
    (t.project_item_id ≡ some item)
    × ((q : Project) × (p ≡ some q)
        × (q.id ≡ board)
        × (status_field_id q ≡ some field)
        × (board_option_for_lifecycle q (is_open t.lifecycle) ≡ some option_id))
Justified t p f c _ = ⊥

abbrev pub AllJustified : Task → Option Project → Option Text → Bool → List OutboxMutation → Type 0
AllJustified t p f c [] = Unit
AllJustified t p f c (m ∷ ms) = Justified t p f c m × AllJustified t p f c ms

AllJustified-append :
    (t : Task) (p : Option Project) (f : Option Text) (c : Bool) (ms ns : List OutboxMutation)
    → AllJustified t p f c ms
    → AllJustified t p f c ns
    → AllJustified t p f c (ms ++ ns)
AllJustified-append t p f c [] ns h k = k
AllJustified-append t p f c (m ∷ ms) ns (j, h) k = (j, AllJustified-append t p f c ms ns h k)

-- A list that is computed as another one is justified as that one is.
planned :
    (t : Task) (p : Option Project) (f : Option Text) (c : Bool) {ms ns : List OutboxMutation}
    → ms ≡ ns
    → AllJustified t p f c ns
    → AllJustified t p f c ms
planned t p f c e h = subst (AllJustified t p f c) (sym e) h

draft_justified :
    (t : Task) (p : Option Project) (f : Option Text) (c : Bool)
    → t.remote ≡ none
    → AllJustified t p f c (plan_content t f c)
unfolding plan_content is_draft_backed
draft_justified t p f c o = elim (Option-cases t.project_item_id) [
  | inl i ↦ planned t p f c {ns = []} (ground arith) tt
  | inr (item, i) ↦ elim (Bool-cases c) [
    | inl y ↦
        planned t p f c {ns = update_draft_issue item (some t.title) (some t.body) ∷ []}
          (ground arith) ((o, i, y, refl, refl), tt)
    | inr n ↦ planned t p f c {ns = []} (ground arith) tt
  ]
]

issue_justified :
    (t : Task) (p : Option Project) (f : Option Text) (c : Bool) (r : RemoteRef)
    → t.remote ≡ some r
    → AllJustified t p f c (plan_content t f c)
unfolding plan_content
issue_justified t p f c r o = elim (Option-cases f) [
  | inl n ↦ planned t p f c {ns = []} (ground arith) tt
  | inr (canonical, e) ↦
      planned t p f c
        {ns = update_remote canonical r.remote_id (some t.title) (some t.body) none ∷ []}
        (ground arith) (((r, o, refl), e, refl, refl, refl), tt)
]

content_justified :
    (t : Task) (p : Option Project) (f : Option Text) (c : Bool)
    → AllJustified t p f c (plan_content t f c)
content_justified t p f c = elim (Option-cases t.remote) [
  | inl o ↦ draft_justified t p f c o
  | inr (r, o) ↦ issue_justified t p f c r o
]

filing_justified :
    (t : Task) (p : Project) (f : Option Text) (c : Bool)
    → t.project_item_id ≡ none
    → AllJustified t (some p) f c (plan_filing p t)
unfolding plan_filing
filing_justified t p f c h = elim (Option-cases (node_of t)) [
  | inl o ↦ elim (Option-cases t.remote) [
    | inl i ↦
        planned t (some p) f c {ns = create_draft_issue p.id t.title t.body ∷ []}
          (rw (o, plan_filing, i) refl) ((h, i, refl, refl, (p, refl, refl)), tt)
    | inr (r, i) ↦ planned t (some p) f c {ns = []} (rw (o, plan_filing, i) refl) tt
  ]
  | inr (node, o) ↦
      planned t (some p) f c {ns = add_item p.id node ∷ []} (rw (o, plan_filing) refl)
        ((h, o, (p, refl, refl)), tt)
]

status_justified :
    (t : Task) (p : Project) (f : Option Text) (c : Bool) (item : Text)
    (field option_id : Option Text)
    → t.project_item_id ≡ some item
    → status_field_id p ≡ field
    → board_option_for_lifecycle p (is_open t.lifecycle) ≡ option_id
    → AllJustified t (some p) f c (
        optional (
          and_then field
            (λ field. and_then option_id (λ o. some (set_project_status p.id item field o)))))
status_justified t p f c item none o h e d = tt
status_justified t p f c item (some field) none h e d = tt
status_justified t p f c item (some field) (some o) h e d = ((h, (p, refl, refl, e, d)), tt)

board_justified :
    (t : Task) (p : Option Project) (f : Option Text) (c : Bool)
    → AllJustified t p f c (plan_board p t)
unfolding plan_board set_project_status_mutation
board_justified t none f c = tt
board_justified t (some p) f c = elim (Option-cases t.project_item_id) [
  | inl i ↦
      planned t (some p) f c {ns = plan_filing p t} (ground arith) (filing_justified t p f c i)
  | inr (item, i) ↦ planned t (some p) f c (ground arith) (
      status_justified t p f c item (status_field_id p)
        (board_option_for_lifecycle p (is_open t.lifecycle)) i refl refl)
]

-- Every planned mutation is justified: an update goes to the task's own issue or draft, with its
-- title and body and without closing it; an item or a draft goes to the task's board, while the
-- task has no item there; and a status is the option of the board for the task's lifecycle. What
-- a mirror owes is planned: an update of an issue with a filing repo, or of a draft whose content
-- changed; and on a board, the adding of an issue with a node or the making of a draft, until
-- there is an item, and then its status, if the board has a field and an option for it. Another
-- task owes nothing.
pub plan_mutations-AllJustified :
    (t : Task) (p : Option Project) (f : Option Text) (c : Bool)
    → AllJustified t p f c (plan_mutations t p f c)
      × (map kind (plan_mutations t p f c) ≡ (if is_mirror t then owed_kinds t p f c else []))
unfolding plan_mutations
plan_mutations-AllJustified t p f c = elim (Bool-cases (is_mirror t)) [
  | inl m ↦ (
    rw (m) (AllJustified-append t p f c _ _ (content_justified t p f c) (board_justified t p f c)),
    rw (m) (planned_kinds t p f c),
  )
  | inr n ↦ (rw (n) tt, rw (n) refl)
]
