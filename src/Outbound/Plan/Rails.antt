-- ===== src/Outbound/Plan/Rails.antt =====
-- The rail of an issue type: crates/application-sync/src/enqueue.rs.
use repo_link.Prelude.{
  true, false, Option, none, some, List, ◌≡◌, refl, arith, nat_eq, list_eq, Option-cases, subst,
  sym, Bool-cases, inl, inr,
}
use repo_link.Prelude.Text.{Text}
use repo_link.Task.State.{Task}
use repo_link.Sync.Outbox.{OutboxMutation, set_project_type, set_issue_type}
use repo_link.Project.Board.{Project, resolved_type_option_id_for}
use repo_link.Project.Board.FieldIds.{OrgIssueTypeRegistry}
use repo_link.Outbound.Enqueue.{
  node_of, set_project_type_mutation, set_issue_type_mutation, resolve_native,
}
use repo_link.Outbound.Plan.{
  has_custom_rail, custom, resolve_type_projection, resolve_issue_type_projection, project_set_type,
  of_resolution,
}
use repo_link.Prelude.{find}
use repo_link.Prelude.Text.{eq_ignore_ascii_case}
use repo_link.Task.IssueType.{IssueType, display}
use repo_link.Project.Board.FieldIds.{OrgIssueType, type_field_id, is_available, registry_of}
use repo_link.Outbound.Enqueue.{
  type_name, type_option, mutation, unmapped, no_node, IssueTypeResolution,
}
use repo_link.Outbound.Plan.{native}
use repo_link.Outbound.Plan.LeftOut.{IsLeftOut, custom-IsLeftOut, native-IsLeftOut}

-- The option of the board for a type: none for no type, and else the one that is mapped.
abbrev pub IsOption : Project → Option IssueType → Option Text → Type 0
IsOption q none option_id = option_id ≡ none
IsOption q (some it) option_id =
    (id : Text) × (resolved_type_option_id_for q it ≡ some id) × (option_id ≡ some id)

-- The native type for a type: none for no type, and else the one of that name, in any case, that
-- the owner's registry holds.
abbrev pub IsNative :
    List OrgIssueTypeRegistry → Option Text → Option IssueType → Option Text → Type 0
IsNative rs owner none type_id = type_id ≡ none
IsNative rs owner (some it) type_id =
    (login : Text) × (o : OrgIssueType) × (owner ≡ some login)
    × (is_available (registry_of rs login) ≡ true)
    × (find (λ (x : OrgIssueType). eq_ignore_ascii_case x.name (display it))
          (registry_of rs login).types
        ≡ some o)
    × (type_id ≡ some o.issue_type_id)

type_option-IsOption :
    (p : Project) (it : Option IssueType) (option_id : Option Text)
    → type_option p it ≡ some option_id
    → IsOption p it option_id
unfolding type_option
type_option-IsOption p none option_id h = ground arith
type_option-IsOption p (some it) option_id h =
    elim (Option-cases (resolved_type_option_id_for p it)) [
      | inl n ↦ absurd (ground arith)
      | inr (id, e) ↦ (id, e, ground arith)
    ]

custom_form :
    (p : Option Project) (t : Task) (m : OutboxMutation)
    → custom p t ≡ some m
    → (q : Project) × (item field : Text) × (option_id : Option Text) × (p ≡ some q)
      × (t.project_item_id ≡ some item)
      × (type_field_id q ≡ some field)
      × (type_option q t.issue_type ≡ some option_id)
      × (m ≡ set_project_type q.id item field option_id (type_name t.issue_type) true)
unfolding custom set_project_type_mutation
custom_form none t m h = absurd (ground arith)
custom_form (some p) t m h = elim (Option-cases t.project_item_id) [
  | inl i ↦ absurd (ground arith)
  | inr (item, i) ↦ elim (Option-cases (type_field_id p)) [
    | inl f ↦ absurd (ground arith)
    | inr (field, f) ↦ elim (Option-cases (type_option p t.issue_type)) [
      | inl o ↦ absurd (ground arith)
      | inr (option_id, o) ↦ (p, item, field, option_id, refl, i, f, o, ground arith)
    ]
  ]
]

resolve_native_form :
    (r : OrgIssueTypeRegistry) (node : Text) (it : IssueType) (m : OutboxMutation)
    → resolve_native r node (some it) ≡ mutation m
    → (o : OrgIssueType) × (find
          (λ (x : OrgIssueType). eq_ignore_ascii_case x.name (display it))
          r.types
        ≡ some o)
      × (m ≡ set_issue_type node (some o.issue_type_id) (type_name (some it)) true)
unfolding resolve_native
resolve_native_form r node it m h =
    elim (Option-cases
      (find (λ (t : OrgIssueType). eq_ignore_ascii_case t.name (display it)) r.types)) [
        | inl n ↦ absurd (ground arith)
        | inr (t, e) ↦ (t, e, ground arith)
      ]

resolved_form :
    (r : OrgIssueTypeRegistry) (t : Task) (it : IssueType) (m : OutboxMutation)
    → t.issue_type ≡ some it
    → set_issue_type_mutation r t ≡ mutation m
    → (node : Text) × (o : OrgIssueType) × (node_of t ≡ some node)
      × (find (λ (x : OrgIssueType). eq_ignore_ascii_case x.name (display it)) r.types ≡ some o)
      × (m ≡ set_issue_type node (some o.issue_type_id) (type_name (some it)) true)
unfolding set_issue_type_mutation
resolved_form r t it m u h = elim (Option-cases (node_of t)) [
  | inl o ↦ absurd (ground (arith, rw (o, set_issue_type_mutation) at h))
  | inr (node, o) ↦
      let (x, e, d) = resolve_native_form r node it m (rw (o, u, set_issue_type_mutation) at h) in
      (node, x, o, e, d)
]

of_resolution_form :
    (owner : Text) (x : IssueTypeResolution) (m : OutboxMutation)
    → native (of_resolution owner x) ≡ some m
    → x ≡ mutation m
unfolding of_resolution
of_resolution_form owner (mutation n) m h = ground arith
of_resolution_form owner unmapped m h = absurd (ground arith)
of_resolution_form owner no_node m h = absurd (ground arith)

set_form :
    (rs : List OrgIssueTypeRegistry) (owner : Option Text) (t : Task) (m : OutboxMutation)
    → native (project_set_type rs owner t) ≡ some m
    → (login : Text) × (owner ≡ some login)
      × (is_available (registry_of rs login) ≡ true)
      × (set_issue_type_mutation (registry_of rs login) t ≡ mutation m)
unfolding project_set_type
set_form rs none t m h = absurd (ground arith)
set_form rs (some owner) t m h = elim (Bool-cases (is_available (registry_of rs owner))) [
  | inl y ↦ (owner, refl, y, of_resolution_form owner _ m (rw (y) at h))
  | inr n ↦ absurd (ground (arith, rw (n) at h))
]

native_form :
    (rs : List OrgIssueTypeRegistry) (owner : Option Text) (t : Task) (m : OutboxMutation)
    → native (resolve_issue_type_projection rs owner t) ≡ some m
    → (node : Text) × (type_id : Option Text) × (node_of t ≡ some node)
      × IsNative rs owner t.issue_type type_id
      × (m ≡ set_issue_type node type_id (type_name t.issue_type) true)
unfolding resolve_issue_type_projection
native_form rs owner t m h = elim (Option-cases t.issue_type) [
  | inl u ↦ elim (Option-cases (node_of t)) [
    | inl o ↦ absurd (ground arith)
    | inr (node, o) ↦ (node, none, o, rw (u) refl, ground arith)
  ]
  | inr (it, u) ↦
      let (login, l, a, d) = set_form rs owner t m (ground arith) in
      let (node, x, o, e, c) = resolved_form (registry_of rs login) t it m u d in
      (node, some x.issue_type_id, o, rw (u) (login, x, l, a, e, refl), rw (u) c)
]

-- The one rail that the type of a task may take, where it goes there, and what it carries.
abbrev pub TakesRail :
    Option Project → List OrgIssueTypeRegistry → Option Text → Task → OutboxMutation → Type 0
TakesRail p rs owner t (set_project_type board item field option_id name recorded) =
    (has_custom_rail p ≡ true)
    × ((q : Project) × (p ≡ some q)
        × (board ≡ q.id)
        × (type_field_id q ≡ some field)
        × IsOption q t.issue_type option_id)
    × (t.project_item_id ≡ some item)
    × (name ≡ type_name t.issue_type)
    × (recorded ≡ true)
TakesRail p rs owner t (set_issue_type node type_id name recorded) =
    (has_custom_rail p ≡ false)
    × (node_of t ≡ some node)
    × IsNative rs owner t.issue_type type_id
    × (name ≡ type_name t.issue_type)
    × (recorded ≡ true)
TakesRail p rs owner t _ = ⊥

pub taken_rail :
    (p : Option Project) (rs : List OrgIssueTypeRegistry) (owner : Option Text) (t : Task)
    (m : OutboxMutation)
    → resolve_type_projection p rs owner t ≡ some m
    → TakesRail p rs owner t m
unfolding resolve_type_projection
taken_rail p rs owner t m h = elim (Bool-cases (has_custom_rail p)) [
  | inl y ↦
      let (q, item, field, option_id, c, i, f, o, e) = custom_form p t m (ground arith) in
      let d = type_option-IsOption q t.issue_type option_id o in
      subst (TakesRail p rs owner t) (sym e) (y, (q, c, refl, f, d), i, refl, refl)
  | inr n ↦
      let (node, type_id, i, d, e) = native_form rs owner t m (ground arith) in
      subst (TakesRail p rs owner t) (sym e) (n, i, d, refl, refl)
]

left_out :
    (p : Option Project) (rs : List OrgIssueTypeRegistry) (owner : Option Text) (t : Task)
    → resolve_type_projection p rs owner t ≡ none
    → IsLeftOut (has_custom_rail p) p rs owner t
unfolding resolve_type_projection
left_out p rs owner t h = elim (Bool-cases (has_custom_rail p)) [
  | inl y ↦ rw (y) (custom-IsLeftOut p rs owner t y (rw (y) at h))
  | inr n ↦ rw (n) (native-IsLeftOut p rs owner t (rw (n) at h))
]

-- What is owed for the type of a task, or why nothing is.
abbrev pub IsResolved :
    Option Project → List OrgIssueTypeRegistry → Option Text → Task → Option OutboxMutation → Type 0
IsResolved p rs owner t none = IsLeftOut (has_custom_rail p) p rs owner t
IsResolved p rs owner t (some m) = TakesRail p rs owner t m

-- The type of a task goes out on one rail only, in either case with the name of the type and as
-- recorded. Where the board has just one type field, it goes to the task's item on that field of
-- that board, with the option that is mapped for the type; nothing is sent only if the task has no
-- item or the type no option. Else it goes to the task's issue, with the native type of that name
-- from the available registry of the owner; nothing is sent only if the issue has no node or there
-- is no owner or no such type. Without a type, the option or the native type is cleared.
pub resolve_type_projection-TakesRail :
    (p : Option Project) (rs : List OrgIssueTypeRegistry) (owner : Option Text) (t : Task)
    → IsResolved p rs owner t (resolve_type_projection p rs owner t)
resolve_type_projection-TakesRail p rs owner t =
    elim (Option-cases (resolve_type_projection p rs owner t)) [
      | inl n ↦ subst (IsResolved p rs owner t) (sym n) (left_out p rs owner t n)
      | inr (m, e) ↦ subst (IsResolved p rs owner t) (sym e) (taken_rail p rs owner t m e)
    ]
