-- ===== src/Examples/Plans.antt =====
-- The theorems on what an edit owes the remote, at a sample task and board.
use repo_link.Prelude.{
  map, if◌then◌else◌, list_eq, ◌||◌, ◌==◌, true, none, some, [], ◌∷◌, ◌≡◌, refl, retain,
}
use repo_link.Prelude.Text.{codes}
use repo_link.Task.Edits.{is_mirror}
use repo_link.Task.State.{Task}
use repo_link.Task.IssueType.{bug}
use repo_link.Project.Board.FieldIds.{OrgIssueTypeRegistry}
use repo_link.Sync.Outbox.{OutboxMutation, kind, set_issue_type}
use repo_link.Outbound.{copy_inbound_mirror_from_snap}
use repo_link.Outbound.Plan.{plan_mutations, resolve_type_projection}
use repo_link.Outbound.Plan.Kinds.{owed_kinds}
use repo_link.Outbound.Plan.Justified.{AllJustified, plan_mutations-AllJustified}
use repo_link.Outbound.Plan.Rails.{IsResolved, resolve_type_projection-TakesRail}
use repo_link.Examples.Fixtures.{mirrored, board}

abbrev renamed : Task
renamed =
    copy_inbound_mirror_from_snap (codes "New") (codes "Body") (codes "eve" ∷ []) true mirrored

plan_mutations-AllJustified_example :
    AllJustified mirrored
      (some board)
      (some (codes "github.com/o/r"))
      true
      (plan_mutations mirrored (some board) (some (codes "github.com/o/r")) true)
    × (map kind (plan_mutations mirrored (some board) (some (codes "github.com/o/r")) true) ≡ (
        if is_mirror mirrored
        then owed_kinds mirrored (some board) (some (codes "github.com/o/r")) true
        else []))
plan_mutations-AllJustified_example =
    plan_mutations-AllJustified mirrored (some board) (some (codes "github.com/o/r")) true

-- The sample task with the node of its issue.
abbrev addressed : Task
addressed = record mirrored {
  remote =
      some (record {
        provider = codes "github";
        remote_id = codes "42";
        node_id = some (codes "I_1");
      });
}

-- That task with a type, and a registry that has it.
abbrev typed : Task
typed = record addressed { issue_type = some bug }

abbrev registry : OrgIssueTypeRegistry
registry = record {
  owner_login = codes "octo";
  types = record { issue_type_id = codes "IT_1"; name = codes "Bug" } ∷ [];
}

abbrev projected : OutboxMutation
projected = set_issue_type (codes "I_1") (some (codes "IT_1")) (some (codes "bug")) true

is_projected :
    resolve_type_projection (some board) (registry ∷ []) (some (codes "octo")) typed
    ≡ some projected
unfolding resolve_type_projection retain repo_link.Project.Field.ProjectFieldKind-discrete
    repo_link.Prelude.find repo_link.Prelude.List-discrete repo_link.Prelude.ℕ_discrete
is_projected = refl

resolve_type_projection-TakesRail_example :
    IsResolved
      (some board)
      (registry ∷ [])
      (some (codes "octo"))
      typed
      (resolve_type_projection (some board) (registry ∷ []) (some (codes "octo")) typed)
resolve_type_projection-TakesRail_example =
    resolve_type_projection-TakesRail (some board) (registry ∷ []) (some (codes "octo")) typed
