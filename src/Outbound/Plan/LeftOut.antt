-- ===== src/Outbound/Plan/LeftOut.antt =====
-- When the type of a task is not sent: crates/application-sync/src/enqueue.rs.
use repo_link.Prelude.{
  Bool, true, false, Option, none, some, List, [], ◌∷◌, ◌≡◌, ◌≢◌, ◌⊎◌, refl, arith, nat_eq, list_eq,
  find, Option-cases, Bool-cases, inl, inr,
}
use repo_link.Prelude.Text.{Text, eq_ignore_ascii_case}
use repo_link.Task.IssueType.{IssueType, display}
use repo_link.Task.State.{Task}
use repo_link.Project.Board.{Project, resolved_type_option_id_for}
use repo_link.Project.Board.FieldIds.{
  OrgIssueType, OrgIssueTypeRegistry, type_field_id, is_available, registry_of,
}
use repo_link.Outbound.Enqueue.{
  node_of, type_option, set_project_type_mutation, set_issue_type_mutation, resolve_native,
}
use repo_link.Outbound.Plan.{
  has_custom_rail, custom, project_set_type, of_resolution, resolve_issue_type_projection, native,
}

-- The owner has no native type of the name, or there is no owner.
abbrev pub HasNoNative : List OrgIssueTypeRegistry → Option Text → IssueType → Type 0
HasNoNative rs none it = Unit {0}
HasNoNative rs (some login) it =
    find (λ (x : OrgIssueType). eq_ignore_ascii_case x.name (display it))
      (registry_of rs login).types
    ≡ none

-- Why nothing is sent on the field of the board, and natively.
abbrev pub IsLeftOut :
    Bool → Option Project → List OrgIssueTypeRegistry → Option Text → Task → Type 0
IsLeftOut true p rs owner t =
    (t.project_item_id ≡ none)
    ⊎ ((q : Project) × (it : IssueType) × (p ≡ some q)
        × (t.issue_type ≡ some it)
        × (resolved_type_option_id_for q it ≡ none))
IsLeftOut false p rs owner t =
    (node_of t ≡ none) ⊎ ((it : IssueType) × (t.issue_type ≡ some it) × HasNoNative rs owner it)

unmapped_type :
    (p : Project) (o : Option IssueType)
    → type_option p o ≡ none
    → (it : IssueType) × (o ≡ some it) × (resolved_type_option_id_for p it ≡ none)
unfolding type_option
unmapped_type p none h = absurd (ground arith)
unmapped_type p (some it) h = elim (Option-cases (resolved_type_option_id_for p it)) [
  | inl n ↦ (it, refl, n)
  | inr (id, e) ↦ absurd (ground arith)
]

pub custom-IsLeftOut :
    (p : Option Project) (rs : List OrgIssueTypeRegistry) (owner : Option Text) (t : Task)
    → has_custom_rail p ≡ true
    → custom p t ≡ none
    → IsLeftOut true p rs owner t
unfolding has_custom_rail custom set_project_type_mutation
custom-IsLeftOut none rs owner t r h = absurd (ground arith)
custom-IsLeftOut (some p) rs owner t r h = elim (Option-cases t.project_item_id) [
  | inl i ↦ inl i
  | inr (item, i) ↦ elim (Option-cases (type_field_id p)) [
    | inl f ↦ absurd (ground arith)
    | inr (field, f) ↦ elim (Option-cases (type_option p t.issue_type)) [
      | inl o ↦ let (it, u, n) = unmapped_type p t.issue_type o in inr (p, it, refl, u, n)
      | inr (option_id, o) ↦ absurd (ground arith)
    ]
  ]
]

none_found :
    (ts : List OrgIssueType) (f : OrgIssueType → Bool)
    → elim ts [ [] ↦ false | t ∷ ts ↦ true ] ≡ false
    → find f ts ≡ none
unfolding find
none_found [] f h = refl
none_found (t ∷ ts) f h = absurd (ground arith)

unavailable_none :
    (r : OrgIssueTypeRegistry) (f : OrgIssueType → Bool)
    → is_available r ≡ false
    → find f r.types ≡ none
unfolding is_available
unavailable_none r f h = none_found r.types f h

found_native :
    (owner : Text) (r : OrgIssueTypeRegistry) (node : Text) (it : IssueType) (x : OrgIssueType)
    → find (λ (x : OrgIssueType). eq_ignore_ascii_case x.name (display it)) r.types ≡ some x
    → native (of_resolution owner (resolve_native r node (some it))) ≢ none
unfolding of_resolution resolve_native
found_native owner r node it x e h = ground arith

resolved_left_out :
    (owner : Text) (r : OrgIssueTypeRegistry) (t : Task) (it : IssueType)
    → t.issue_type ≡ some it
    → native (of_resolution owner (set_issue_type_mutation r t)) ≡ none
    → (node_of t ≡ none)
      ⊎ (find (λ (x : OrgIssueType). eq_ignore_ascii_case x.name (display it)) r.types ≡ none)
unfolding set_issue_type_mutation
resolved_left_out owner r t it u h = elim (Option-cases (node_of t)) [
  | inl o ↦ inl o
  | inr (node, o) ↦
      elim (Option-cases
        (find (λ (x : OrgIssueType). eq_ignore_ascii_case x.name (display it)) r.types)) [
          | inl n ↦ inr n
          | inr (x, e) ↦
              absurd (found_native owner r node it x e (rw (o, u, set_issue_type_mutation) at h))
        ]
]

set_left_out :
    (rs : List OrgIssueTypeRegistry) (owner : Option Text) (t : Task) (it : IssueType)
    → t.issue_type ≡ some it
    → native (project_set_type rs owner t) ≡ none
    → (node_of t ≡ none) ⊎ HasNoNative rs owner it
unfolding project_set_type
set_left_out rs none t it u h = inr tt
set_left_out rs (some owner) t it u h = elim (Bool-cases (is_available (registry_of rs owner))) [
  | inl y ↦ resolved_left_out owner (registry_of rs owner) t it u (rw (y) at h)
  | inr n ↦ inr (unavailable_none (registry_of rs owner) _ n)
]

pub native-IsLeftOut :
    (p : Option Project) (rs : List OrgIssueTypeRegistry) (owner : Option Text) (t : Task)
    → native (resolve_issue_type_projection rs owner t) ≡ none
    → IsLeftOut false p rs owner t
unfolding resolve_issue_type_projection
native-IsLeftOut p rs owner t h = elim (Option-cases t.issue_type) [
  | inl u ↦ elim (Option-cases (node_of t)) [
    | inl o ↦ inl o
    | inr (node, o) ↦ absurd (ground arith)
  ]
  | inr (it, u) ↦ elim (set_left_out rs owner t it u (ground arith)) [
    | inl o ↦ inl o
    | inr n ↦ inr (it, u, n)
  ]
]
