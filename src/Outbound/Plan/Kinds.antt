-- ===== src/Outbound/Plan/Kinds.antt =====
-- Which kinds of mutations a mirror owes: crates/application-sync/src/enqueue.rs.
use repo_link.Prelude.{
  Bool, true, false, Option, none, some, List, [], ◌∷◌, ◌++◌, ◌≡◌, refl, map, Option-cases,
  Bool-cases, inl, inr, ap, ◌∙◌,
}
use mathlib.Core.List.{append-nil}
use repo_link.Prelude.Text.{Text, codes}
use repo_link.Task.Enums.{is_open}
use repo_link.Task.Snapshot.{RemoteRef}
use repo_link.Task.State.{Task}
use repo_link.Sync.Outbox.{OutboxMutation, kind}
use repo_link.Project.Board.{Project}
use repo_link.Project.Board.FieldIds.{status_field_id}
use repo_link.Outbound.Enqueue.{node_of, is_draft_backed, set_project_status_mutation}
use repo_link.Outbound.{board_option_for_lifecycle}
use repo_link.Outbound.Plan.{plan_content, plan_filing, plan_board}

-- The kinds that the content of a mirror owes, for its issue, its item, its filing repo and whether
-- the content changed.
abbrev pub content_kinds : Option RemoteRef → Option Text → Option Text → Bool → List Text
content_kinds (some r) item (some canonical) c = codes "update_remote" ∷ []
content_kinds (some r) item none c = []
content_kinds none (some item) f true = codes "update_draft_issue" ∷ []
content_kinds none (some item) f false = []
content_kinds none none f c = []

-- The kinds that the board owes, for the item of a mirror, its node, its issue, and the field and
-- the option of its status.
abbrev pub board_kinds :
    Option Text → Option Text → Option RemoteRef → Option Text → Option Text → List Text
board_kinds none (some id) r field option_id = codes "add_item" ∷ []
board_kinds none none none field option_id = codes "create_draft_issue" ∷ []
board_kinds none none (some r) field option_id = []
board_kinds (some item) o r (some field) (some option_id) = codes "set_project_status" ∷ []
board_kinds (some item) o r (some field) none = []
board_kinds (some item) o r none option_id = []

abbrev pub owed_kinds : Task → Option Project → Option Text → Bool → List Text
owed_kinds t none f c = content_kinds t.remote t.project_item_id f c
owed_kinds t (some p) f c =
    content_kinds t.remote t.project_item_id f c
    ++ board_kinds t.project_item_id (node_of t) t.remote (status_field_id p)
        (board_option_for_lifecycle p (is_open t.lifecycle))

plan_content-kinds :
    (t : Task) (f : Option Text) (c : Bool)
    → map kind (plan_content t f c) ≡ content_kinds t.remote t.project_item_id f c
unfolding plan_content is_draft_backed kind
plan_content-kinds t f c = elim (Option-cases t.remote) [
  | inl o ↦ elim (Option-cases t.project_item_id) [
    | inl i ↦ rw (o, i) refl
    | inr (item, i) ↦ elim (Bool-cases c) [ inl y ↦ rw (o, i, y) refl | inr n ↦ rw (o, i, n) refl ]
  ]
  | inr (r, o) ↦ elim (Option-cases f) [
    | inl n ↦ rw (o, n) refl
    | inr (canonical, e) ↦ rw (o, e) refl
  ]
]

plan_board-kinds :
    (p : Project) (t : Task)
    → map kind (plan_board (some p) t)
      ≡ board_kinds t.project_item_id
          (node_of t)
          t.remote
          (status_field_id p)
          (board_option_for_lifecycle p (is_open t.lifecycle))
unfolding plan_board plan_filing set_project_status_mutation kind
plan_board-kinds p t = elim (Option-cases t.project_item_id) [
  | inl i ↦ elim (Option-cases (node_of t)) [
    | inl o ↦ elim (Option-cases t.remote) [
      | inl r ↦ rw (i, o, r) refl
      | inr (x, r) ↦ rw (i, o, plan_filing, r) refl
    ]
    | inr (node, o) ↦ rw (o, plan_filing, i) refl
  ]
  | inr (item, i) ↦ elim (Option-cases (status_field_id p)) [
    | inl n ↦ rw (i, n) refl
    | inr (field, e) ↦ elim (Option-cases (board_option_for_lifecycle p (is_open t.lifecycle))) [
      | inl n ↦ rw (i, e, n) refl
      | inr (option_id, d) ↦ rw (i, e, d) refl
    ]
  ]
]

kinds-append : (ms ns : List OutboxMutation) → map kind (ms ++ ns) ≡ map kind ms ++ map kind ns
kinds-append [] ns = refl
kinds-append (m ∷ ms) ns = ap (λ ks. kind m ∷ ks) (kinds-append ms ns)

pub planned_kinds :
    (t : Task) (p : Option Project) (f : Option Text) (c : Bool)
    → map kind (plan_content t f c ++ plan_board p t) ≡ owed_kinds t p f c
unfolding plan_board
planned_kinds t none f c =
    ap (map kind) (append-nil (plan_content t f c)) ∙ plan_content-kinds t f c
planned_kinds t (some p) f c =
    rw
      (
        kinds-append (plan_content t f c) (plan_board (some p) t),
        plan_content-kinds t f c,
        plan_board-kinds p t,
      )
      refl
