-- ===== src/Examples/Fixtures.antt =====
-- Sample values: a mirror task with its baseline, outbox entries, a board.
use repo_link.Prelude.{true, false, none, some, List, [], ◌∷◌}
use repo_link.Prelude.Text.{codes}
use repo_link.Task.Enums.{open_, synced, local_only, p3, p0}
use repo_link.Task.Snapshot.{RemoteRef, TaskSnapshot}
use repo_link.Task.Snapshot.Source.{pull}
use repo_link.Task.State.{Task}
use repo_link.Sync.Outbox.{OutboxEntry, pending, inflight, add_item}
use repo_link.Project.Field.{FieldOption, ProjectField, status, priority}
use repo_link.Project.Mapping.{StatusMapping, PriorityMapping}
use repo_link.Project.Board.{Project}

abbrev pub issue : RemoteRef
issue = record { provider = codes "github"; remote_id = codes "42"; node_id = none }

abbrev pub observed : TaskSnapshot
observed = record {
  task_id = 1;
  version = 0;
  title = codes "Fix it";
  body = codes "Steps";
  lifecycle = open_;
  sync_state = synced;
  priority = p3;
  issue_type = none;
  issue_type_recorded = true;
  assignees = codes "ann" ∷ codes "bob" ∷ [];
  remote = some issue;
  repo_id = some 9;
  repo_id_recorded = true;
  filing_repo_id = some 9;
  source = pull;
  captured_at = 100;
}

-- A synced task that matches its baseline.
abbrev pub mirrored : Task
mirrored = record {
  id = 1;
  workspace_id = 7;
  repo_id = some 9;
  filing_repo_id = some 9;
  title = codes "Fix it";
  body = codes "Steps";
  lifecycle = open_;
  sync = synced;
  priority = p3;
  issue_type = none;
  issue_type_pending = false;
  assignees = codes "ann" ∷ codes "bob" ∷ [];
  remote = some issue;
  relations = [];
  comments = [];
  project_item_id = none;
  project_status_option_id = none;
  synced_at = some 100;
  hash = codes "ak7";
  created_at = 50;
  updated_at = 100;
  synced_baseline = some observed;
}

-- An entry of task 1, enqueued at 10.
abbrev pub waiting : OutboxEntry
waiting = record {
  id = 1;
  task_id = 1;
  mutation = add_item (codes "P") (codes "I");
  status = pending;
  attempts = 0;
  last_error = none;
  next_attempt_at = none;
  enqueued_at = 10;
  updated_at = 10;
}

-- The same entry after its claim at 20.
abbrev pub taken : OutboxEntry
taken = record waiting { status = inflight; updated_at = 20 }

abbrev pub todo : FieldOption
todo = record { option_id = codes "o1"; name = codes "Todo"; ordinal = 0 }

abbrev pub done_option : FieldOption
done_option = record { option_id = codes "o2"; name = codes "Done"; ordinal = 1 }

abbrev pub urgent : FieldOption
urgent = record { option_id = codes "u0"; name = codes "P0"; ordinal = 0 }

abbrev pub fields : List ProjectField
fields =
    (record {
      field_id = codes "f1";
      name = codes "Status";
      kind = status;
      options = todo ∷ done_option ∷ [];
    })
    ∷ (record {
      field_id = codes "f2";
      name = codes "Priority";
      kind = priority;
      options = urgent ∷ [];
    })
    ∷ []

abbrev pub open_row : StatusMapping
open_row = record { is_open = true; option_id = codes "o1" }

abbrev pub closed_row : StatusMapping
closed_row = record { is_open = false; option_id = codes "o2" }

abbrev pub urgent_row : PriorityMapping
urgent_row = record { priority = p0; option_id = codes "u0" }

abbrev pub board : Project
board = record {
  id = codes "B";
  owner_login = codes "octo";
  number = 3;
  title = codes "Roadmap";
  fields = fields;
  status_mappings = open_row ∷ closed_row ∷ [];
  priority_mappings = urgent_row ∷ [];
  archived = false;
  created_at = 5;
  updated_at = 5;
}

-- A task as `Task::new_draft` makes it.
abbrev pub draft : Task
draft = record {
  id = 2;
  workspace_id = 7;
  repo_id = none;
  filing_repo_id = none;
  title = codes "Fix it";
  body = [];
  lifecycle = open_;
  sync = local_only;
  priority = p3;
  issue_type = none;
  issue_type_pending = false;
  assignees = [];
  remote = none;
  relations = [];
  comments = [];
  project_item_id = none;
  project_status_option_id = none;
  synced_at = none;
  hash = [];
  created_at = 50;
  updated_at = 50;
  synced_baseline = none;
}
