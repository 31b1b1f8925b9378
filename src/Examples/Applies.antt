-- ===== src/Examples/Applies.antt =====
-- The theorems on the application of an entry, at a sample world.
use repo_link.Prelude.{
  ℕ, ◌+◌, true, false, none, some, List, [], ◌∷◌, ◌≡◌, ◌≢◌, refl, arith, List-discrete, ℕ_discrete,
  find, retain, contains, any, all, pairwise, Option-discrete,
}
use repo_link.Prelude.Text.{Text, codes, is_empty}
use repo_link.Task.Enums.{dirty_local, SyncState-discrete, Lifecycle-discrete}
use repo_link.Task.State.{Task}
use repo_link.Task.Mirror.{MirrorField, differs}
use repo_link.Workspace.{Workspace, active}
use repo_link.Sync.Policy.{assignee_mismatch}
use repo_link.Sync.Outbox.{OutboxEntry, create_draft_issue, convert_draft_to_issue, set_issue_type}
use repo_link.TaskRepo.{get, hydrate, read_snapshot}
use repo_link.Outbound.{RemoteTaskSnapshot}
use repo_link.Drainer.{stamped, conflicting}
use repo_link.Drainer.Effects.{Remote, Env, World, Call, answered, done}
use repo_link.Drainer.Apply.{apply_update_remote, apply_add_item}
use repo_link.Drainer.Apply.Arms.{apply, apply_mutation}
use repo_link.Drainer.Apply.Filed.{Filed, apply_add_item-Filed}
use repo_link.Drainer.Apply.Calls.{AsksOnce, apply-AsksOnce}
use repo_link.Drainer.Apply.Idempotent.{draft_replayed, convert_replayed}
use repo_link.Drainer.Apply.Outcomes.{clearing_fails, StaysOffAxis, apply-StaysOffAxis}
use repo_link.Drainer.Apply.Pushes.{IsSynced, update_remote-IsSynced, reordered_assignees}
use repo_link.Examples.Fixtures.{mirrored, observed, board, waiting}

abbrev digits : ℕ → Text
digits n = b'7' ∷ []

-- What the remote shows of the issue, with the assignees given.
abbrev shown : List Text → RemoteTaskSnapshot
shown who = record {
  remote_id = codes "42";
  node_id = none;
  title = codes "Fix it";
  body = codes "Steps";
  closed = false;
  updated_at = 30;
  assignees = who;
  labels = [];
}

abbrev remote_with : List Text → Remote
remote_with who = record {
  update_remote = λ u. answered (shown who);
  add_item = λ p i. answered (codes "PVTI_1");
  create_draft_issue = λ p t b. answered (codes "PVTI_2");
  update_draft_issue = λ i t b. answered tt;
  convert_draft_to_issue = λ i r. answered (codes "I_9", 7);
  set_single_select_option = λ p i f o. answered o;
  set_issue_type = λ i t. answered tt;
  add_sub_issue = λ a b c d. answered tt;
  remove_sub_issue = λ a b c d. answered tt;
  add_blocked_by = λ a b c d. answered tt;
  remove_blocked_by = λ a b c d. answered tt;
}

-- The workspace of the sample task, on the sample board.
abbrev home : Workspace
home = record {
  id = 7;
  name = codes "home";
  description = none;
  status = active;
  local_only = false;
  project_id = some (codes "B");
  filing_repo_id = none;
  default_issue_type = none;
  default_sub_issue_type = none;
  created_at = 1;
  updated_at = 1;
}

abbrev pub env_with : List Text → Env
env_with who = record {
  remote = remote_with who;
  workspaces = home ∷ [];
  projects = board ∷ [];
  registries = [];
  now = 40;
  saved_at = 41;
  fresh = λ k. (50 + k, 60 + k);
  no_task = λ i. codes "task";
  no_workspace = λ i. codes "workspace";
  no_project = λ i. codes "project";
  not_saved = λ i. codes "unique";
  not_confirmed = λ i. codes "state";
  not_cleared = λ i. none;
}

-- The row of the sample task, clean or edited.
abbrev row : Task
row = record mirrored { synced_baseline = none }

abbrev edited_row : Task
edited_row = record row { sync = dirty_local; assignees = codes "ann" ∷ codes "eve" ∷ [] }

abbrev world_of : Task → World
world_of r = record {
  outbox = [];
  tasks = record { rows = r ∷ []; history = record observed { version = 1 } ∷ [] };
  calls = [];
}

abbrev create_entry : OutboxEntry
create_entry = record waiting {
  mutation = create_draft_issue (codes "B") (codes "Fix it") (codes "Steps");
}

apply-AsksOnce_example : AsksOnce (apply digits (env_with []) create_entry)
apply-AsksOnce_example = apply-AsksOnce digits (env_with []) create_entry

abbrev after_create : World
after_create = (apply digits (env_with []) create_entry (world_of row)).0

created : apply digits (env_with []) create_entry (world_of row) ≡ (after_create, done stamped)
unfolding apply apply_mutation repo_link.Drainer.Effects.◌>>=◌ find ℕ_discrete Option-discrete any
    pairwise List-discrete repo_link.Project.Field.ProjectFieldKind-discrete
    repo_link.Task.Enums.Priority-discrete retain
created = refl

draft_replayed_example :
    (apply digits (env_with []) create_entry after_create).0.calls ≡ after_create.calls
draft_replayed_example =
    draft_replayed digits (env_with []) (env_with []) create_entry (codes "B") (codes "Fix it")
      (codes "Steps") (world_of row) after_create after_create refl created refl

abbrev convert_entry : OutboxEntry
convert_entry = record waiting {
  mutation = convert_draft_to_issue (codes "PVTI_2") (codes "github.com/octo/r");
}

abbrev after_convert : World
after_convert = (apply digits (env_with []) convert_entry (world_of row)).0

was_converted :
    apply digits (env_with []) convert_entry (world_of row) ≡ (after_convert, done stamped)
unfolding apply apply_mutation repo_link.Drainer.Effects.◌>>=◌ find ℕ_discrete Option-discrete any
    pairwise List-discrete repo_link.Project.Field.ProjectFieldKind-discrete
    repo_link.Task.Enums.Priority-discrete retain
was_converted = refl

convert_replayed_example :
    (apply digits (env_with []) convert_entry after_convert).0.calls ≡ after_convert.calls
convert_replayed_example =
    convert_replayed digits (env_with []) (env_with []) convert_entry (codes "PVTI_2")
      (codes "github.com/octo/r") (world_of row) after_convert after_convert refl was_converted refl

-- The sample stores, of which the write that clears a pending intent fails.
abbrev env_busy : Env
env_busy = record (env_with []) { not_cleared = λ i. some (codes "busy") }

apply-StaysOffAxis_example :
    StaysOffAxis
      (clearing_fails env_busy 1 (set_issue_type (codes "I_1") none none true))
      (apply_mutation digits env_busy 1 (set_issue_type (codes "I_1") none none true))
apply-StaysOffAxis_example =
    apply-StaysOffAxis digits env_busy 1 (set_issue_type (codes "I_1") none none true) refl

abbrev edited : Task
edited = hydrate edited_row (some (read_snapshot (record observed { version = 1 })))

read_edited : get 1 (world_of edited_row).tasks ≡ some edited
unfolding get find ℕ_discrete repo_link.Task.Snapshot.Source.SnapshotSource-discrete
read_edited = refl

is_confirmable : repo_link.Task.Sync.can_confirm edited.sync ≡ true
unfolding repo_link.Task.Sync.can_confirm hydrate
is_confirmable = refl

assignees_differ :
    differs MirrorField.assignees edited (read_snapshot (record observed { version = 1 })) ≡ true
unfolding differs repo_link.Task.Mirror.assignees_equal ℕ_discrete hydrate read_snapshot
    repo_link.Task.Mirror.same_set all contains List-discrete
assignees_differ = refl

has_baseline : edited.synced_baseline ≡ some (read_snapshot (record observed { version = 1 }))
unfolding hydrate
has_baseline = refl

abbrev after_push : World
after_push =
    (apply_update_remote (env_with (codes "ann" ∷ codes "eve" ∷ [])) 1 (codes "github.com/o/r")
      (codes "42") (world_of edited_row)).0

was_pushed :
    apply_update_remote
      (env_with (codes "ann" ∷ codes "eve" ∷ []))
      1
      (codes "github.com/o/r")
      (codes "42")
      (world_of edited_row)
    ≡ (after_push, done stamped)
unfolding SyncState-discrete repo_link.Task.Sync.merge repo_link.Task.Sync.confirm_fields
    repo_link.Task.Mirror.reconcile_dirty_against_baseline repo_link.Task.Mirror.is_dirty
    apply_update_remote repo_link.Drainer.Effects.◌>>=◌ find ℕ_discrete
    repo_link.Task.Snapshot.Source.SnapshotSource-discrete differs List-discrete Lifecycle-discrete
    repo_link.Task.Mirror.assignees_equal repo_link.Task.Mirror.same_set all contains
    repo_link.Drainer.Apply.are_confirmed any pairwise repo_link.Task.Sync.confirm_synced_fields
    repo_link.Drainer.Apply.confirm_outcome repo_link.Drainer.Effects.save_task
was_pushed = refl

update_remote-IsSynced_example : IsSynced 1 after_push.tasks
update_remote-IsSynced_example =
    update_remote-IsSynced (env_with (codes "ann" ∷ codes "eve" ∷ [])) 1 (codes "github.com/o/r")
      (codes "42") edited (read_snapshot (record observed { version = 1 })) (world_of edited_row)
      after_push read_edited has_baseline is_confirmable was_pushed

differ_in_order : (codes "eve" ∷ codes "ann" ∷ []) ≢ edited.assignees
unfolding hydrate
differ_in_order e = ground arith

-- The remote gives the same assignees in another order.
reordered_assignees_example :
    (apply_update_remote
      (env_with (codes "eve" ∷ codes "ann" ∷ []))
      1
      (codes "github.com/o/r")
      (codes "42")
      (world_of edited_row)).1
    ≡ done (conflicting assignee_mismatch)
reordered_assignees_example =
    reordered_assignees (env_with (codes "eve" ∷ codes "ann" ∷ [])) 1 (codes "github.com/o/r")
      (codes "42") edited (read_snapshot (record observed { version = 1 }))
      (shown (codes "eve" ∷ codes "ann" ∷ [])) (world_of edited_row) read_edited has_baseline
      is_confirmable assignees_differ (λ u. refl) differ_in_order

abbrev after_add : World
after_add = (apply_add_item (env_with []) 1 (codes "B") (codes "I_1") (world_of row)).0

was_added :
    apply_add_item (env_with []) 1 (codes "B") (codes "I_1") (world_of row)
    ≡ (after_add, done stamped)
unfolding apply_add_item repo_link.Drainer.Effects.◌>>=◌ find ℕ_discrete Option-discrete any
    pairwise List-discrete repo_link.Project.Field.ProjectFieldKind-discrete
    repo_link.Task.Enums.Priority-discrete retain is_empty
was_added = refl

apply_add_item-Filed_example :
    (item : Text) × (t : Task) × ((env_with []).remote.add_item (codes "B") (codes "I_1")
      ≡ answered item)
    × (is_empty item ≡ false)
    × (get 1 (world_of row).tasks ≡ some t)
    × Filed (env_with []) 1 t (codes "B") item (world_of row) after_add
apply_add_item-Filed_example =
    apply_add_item-Filed (env_with []) 1 (codes "B") (codes "I_1") (world_of row) after_add
      was_added
