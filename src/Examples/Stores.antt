-- ===== src/Examples/Stores.antt =====
-- The theorems on the stored tasks at a sample task.
use repo_link.Prelude.{if◌then◌else◌, true, false, some, [], ◌≡◌, refl, nat_eq, find, any, pairwise}
use repo_link.Prelude.Text.{is_empty}
use repo_link.Task.State.{Task}
use repo_link.Task.Snapshot.{TaskSnapshot}
use repo_link.Task.IssueType.{bug}
use repo_link.Task.Snapshot.Source.{push, local_edit}
use repo_link.Task.Mirror.{is_dirty}
use repo_link.TaskRepo.{
  TaskStore, get, save, stored, find_by_hash, find_by_remote, cache_remote_node_id,
}
use repo_link.TaskRepo.Unique.{is_unique, start, next, saved, node_id_cached, Stored-is_unique}
use repo_link.TaskRepo.Lookup.{find-save, push_rebaselines}
use repo_link.Examples.Fixtures.{mirrored, issue}
use repo_link.Prelude.Text.{codes}

abbrev no_tasks : TaskStore
no_tasks = record { rows = []; history = [] }

abbrev one_task : TaskStore
one_task = stored 5 push mirrored no_tasks

is_saved : save 5 push mirrored no_tasks ≡ some one_task
unfolding save any pairwise
is_saved = refl

-- The sample task with another title, type and stamp, to be saved over its row.
abbrev retitled : Task
retitled = record mirrored {
  title = codes "Other";
  synced_at = some 99;
  issue_type = some bug;
  issue_type_pending = false;
}

abbrev two_saves : TaskStore
two_saves = stored 6 local_edit retitled one_task

Stored-is_unique_example : is_unique (cache_remote_node_id 1 (codes "I_1") one_task).rows ≡ true
Stored-is_unique_example =
    Stored-is_unique
      (next (next start (saved 5 push mirrored one_task is_saved)) (node_id_cached 1 (codes "I_1")))

none_unique : is_unique [] ≡ true
unfolding pairwise
none_unique = refl

-- The sample task with a hash.
abbrev hashed : Task
hashed = record mirrored { hash = codes "abc"; filing_repo_id = some 7; remote = some issue }

hashed_saved : save 5 push hashed no_tasks ≡ some (stored 5 push hashed no_tasks)
unfolding save any pairwise
hashed_saved = refl

find-save_example :
    (find_by_hash hashed.hash (stored 5 push hashed no_tasks)
      ≡ get hashed.id (stored 5 push hashed no_tasks))
    × (find_by_remote 7 issue.provider issue.remote_id (stored 5 push hashed no_tasks)
        ≡ get hashed.id (stored 5 push hashed no_tasks))
unfolding is_empty
find-save_example =
    find-save 5 push hashed no_tasks (stored 5 push hashed no_tasks) 7 issue none_unique refl refl
      refl hashed_saved

push_rebaselines_example :
    (u : Task) × (b : TaskSnapshot) × (get mirrored.id one_task ≡ some u)
    × (u.synced_baseline ≡ some b)
    × (is_dirty u b ≡ false)
push_rebaselines_example = push_rebaselines 5 mirrored no_tasks one_task is_saved
