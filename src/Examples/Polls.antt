-- ===== src/Examples/Polls.antt =====
-- The theorems on the poller at a sample board.
use repo_link.Prelude.{
  ◌+◌, ◌≤◌, ◌<◌, ◌⊎◌, true, false, none, some, [], ◌∷◌, ◌≡◌, refl, arith, nat_eq, list_eq, find,
  List-discrete, ℕ_discrete, any,
}
use repo_link.Prelude.Text.{codes}
use repo_link.Task.State.{Task}
use repo_link.Workspace.{Workspace, active}
use repo_link.Project.Board.{resolved_priority_option_id_for, priority_for_option_id}
use repo_link.Project.Board.FieldIds.{priority_field_id}
use repo_link.TaskRepo.{TaskStore, get, hydrate}
use repo_link.Sync.Outbox.{OutboxEntry, pending, set_project_priority}
use repo_link.Poller.{RemoteProjectItem, PollPage, Seen, reconcile_task, has_pending_priority_push}
use repo_link.Poller.Maps.{entry}
use repo_link.Poller.Pass.{Env, no_report, watermark, max_seen, polled, poll_once, started}
use repo_link.Poller.Watermarks.{poll_once-ge, polled-watermark}
use repo_link.Poller.Kept.{Kept}
use repo_link.Poller.Kept.Passes.{poll_once-Kept}
use repo_link.Poller.Agrees.{reconcile_task-agrees}
use repo_link.Examples.Fixtures.{mirrored, board, waiting, urgent_row}
use repo_link.Examples.Boards.{valid}

-- An item of the sample board, renamed on the remote and urgent.
abbrev item : RemoteProjectItem
item = record {
  item_node_id = codes "P1";
  issue_node_id = none;
  canonical_repo = none;
  number = some 42;
  title = codes "Fix it now";
  body = codes "Steps";
  closed = false;
  status_option_id = some (codes "o2");
  single_select_options = (codes "f2", codes "u0") ∷ [];
  updated_at = 5000000000;
}

abbrev page : PollPage
page = record { items = item ∷ []; truncated = false }

abbrev home : Workspace
home = record {
  id = 7;
  name = codes "home";
  description = none;
  status = active;
  local_only = false;
  project_id = some (codes "B");
  filing_repo_id = none;
  default_issue_type = none;
  default_sub_issue_type = none;
  created_at = 1;
  updated_at = 1;
}

abbrev env : Env
env = record {
  projects = board ∷ [];
  workspaces = home ∷ [];
  outbox = [];
  poll_project_items = λ project field query. some page;
  started = 6000000000;
  clock = λ id. 7000000000;
}

-- The sample task on the board.
abbrev carded : Task
carded = record mirrored { project_item_id = some (codes "P1") }

abbrev store : TaskStore
store = record { rows = carded ∷ []; history = [] }

poll_once-ge_example :
    watermark (codes "B") ((codes "B", 3) ∷ [])
    ≤ watermark (codes "B") (poll_once env store ((codes "B", 3) ∷ [])).watermarks
poll_once-ge_example = poll_once-ge env store ((codes "B", 3) ∷ []) (codes "B")

newer_item :
    watermark (codes "B") ((codes "B", 3) ∷ [])
    < max_seen (watermark (codes "B") ((codes "B", 3) ∷ [])) page.items
unfolding watermark entry max_seen List-discrete ℕ_discrete
newer_item = omega arith

polled-watermark_example :
    let since = watermark (codes "B") ((codes "B", 3) ∷ []) in
    let newest = max_seen since page.items in
    let after =
      watermark
        (codes "B")
        (polled env board (some page) (started env store ((codes "B", 3) ∷ []))).watermarks in
    (since ≤ after)
    × (after < newest)
    × (newest ≤ after + 1000000000)
    × ((after ≡ since) ⊎ (after + 1000000000 ≡ newest))
polled-watermark_example =
    polled-watermark env board page (started env store ((codes "B", 3) ∷ [])) refl newer_item

poll_once-Kept_example : Kept store (poll_once env store []).tasks
poll_once-Kept_example = poll_once-Kept env store []

abbrev seen : Seen
seen = record { tasks = store; task = carded; report = no_report }

has_field : priority_field_id board ≡ some (codes "f2")
unfolding priority_field_id find repo_link.Project.Field.ProjectFieldKind-discrete
has_field = refl

has_option : entry (codes "f2") item.single_select_options ≡ some (codes "u0")
unfolding entry List-discrete ℕ_discrete
has_option = refl

is_mapped : priority_for_option_id board (codes "u0") ≡ some urgent_row.priority
unfolding priority_for_option_id find List-discrete ℕ_discrete
is_mapped = refl

none_waits : has_pending_priority_push [] 1 ≡ false
unfolding has_pending_priority_push any
none_waits = refl

-- That task as it reads back, without a saved baseline.
abbrev read_back : Task
read_back = record carded { synced_baseline = none }

is_carded : get seen.task.id seen.tasks ≡ some read_back
unfolding get find repo_link.Prelude.ℕ_discrete hydrate
is_carded = refl

reconcile_task-agrees_example :
    (u : Task) × (get 1 (reconcile_task [] board item seen).tasks ≡ some u)
    × (resolved_priority_option_id_for board u.priority ≡ some (codes "u0"))
    × (u.project_status_option_id ≡ item.status_option_id)
reconcile_task-agrees_example =
    reconcile_task-agrees [] board item (codes "f2") (codes "u0") urgent_row.priority seen read_back
      valid has_field has_option is_mapped none_waits is_carded refl refl

-- An entry with a priority that waits.
abbrev push : OutboxEntry
push = record waiting {
  task_id = 1;
  status = pending;
  mutation = set_project_priority (codes "B") (codes "P1") (codes "f2") (codes "u0");
}

one_waits : has_pending_priority_push (push ∷ []) 1 ≡ true
unfolding has_pending_priority_push any ℕ_discrete repo_link.Sync.Outbox.OutboxStatus-discrete
one_waits = refl
