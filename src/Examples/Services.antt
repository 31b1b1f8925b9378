-- ===== src/Examples/Services.antt =====
-- The theorems on the services at sample tasks.
use repo_link.Prelude.{
  ℕ, Bool, true, false, ◌||◌, Option, none, some, List, [], ◌∷◌, ◌≡◌, refl, ◌↔◌, if◌then◌else◌,
  ◌==◌, nat_eq, any, all, find, pairwise, ℕ_discrete, List-discrete,
}
use repo_link.Prelude.Text.{Text, codes, is_empty}
use repo_link.Core.{TaskId}
use repo_link.Task.Enums.{RelationKind, blocked_by, blocks}
use repo_link.Task.Snapshot.Source.{local_edit}
use repo_link.Task.State.{Task}
use repo_link.Task.Hash.{is_base32, is_valid_hash}
use repo_link.Repo.Naming.{is_valid_prefix}
use repo_link.Task.Edits.Relations.{has_edge}
use repo_link.TaskService.Relations.Edges.{edge_of}
use repo_link.Repo.Instance.{RepoInstance}
use repo_link.Repo.Origin.{RepoOrigin}
use repo_link.TaskRepo.{TaskStore, get, save, stored}
use repo_link.TaskRepo.Unique.{is_unique}
use repo_link.TaskService.{
  Answer, done, failed, Directory, Stores, actual_prefix, resolve_task, assemble_task_display_id,
}
use repo_link.TaskService.Resolved.{resolve_task-assemble_task_display_id}
use repo_link.TaskService.Minted.{
  rounds, save_with_minted_hash, first_free, save_with_minted_hash-first_free,
}
use repo_link.TaskService.Cycles.Walks.{Closes}
use repo_link.TaskService.Relations.{Clock, up_in, would_create_cycle}
use repo_link.TaskService.Relations.Commands.{add}
use repo_link.TaskService.Relations.Upstream.{would_create_cycle-Closes}
use repo_link.TaskService.Relations.Kept.{
  IsSound, start, next, edited, added, empty, Served-IsSound,
}
use repo_link.Examples.Fixtures.{draft}

-- No text is a UUID.
abbrev no_id : Text → Option TaskId
no_id q = none

abbrev origin : RepoOrigin
origin = record {
  id = 9;
  canonical_url = codes "github.com/org/repo-link";
  remote_url = codes "git@github.com:org/repo-link.git";
  name = codes "repo-link";
  aliases = [];
  prefix = codes "rpl";
  created_at = 5;
  updated_at = 5;
}

abbrev instance_of : RepoInstance
instance_of = record {
  id = 9;
  workspace_id = 7;
  origin_id = 9;
  tracked_branch = none;
  canonical_url = codes "github.com/org/repo-link";
  worktrees = [];
  created_at = 5;
  updated_at = 5;
}

abbrev pub directory : Directory
directory = record { workspaces = []; instances = instance_of ∷ []; origins = origin ∷ [] }

abbrev clock : Clock
clock = record { edited = λ id. 300; captured = λ id. 301; fresh = λ k. (k, 302) }

abbrev first : Task
first = record draft { id = 1; hash = codes "abc" }

abbrev second : Task
second = record draft { id = 2; hash = codes "abd" }

abbrev nothing : Stores
nothing = record { tasks = empty; outbox = [] }

abbrev one : Stores
one = record { tasks = stored 5 local_edit first empty; outbox = [] }

abbrev two : Stores
two = record { tasks = stored 6 local_edit second one.tasks; outbox = [] }

abbrev value : Stores × Task → Answer (Stores × Task) → Stores × Task
value or (done a) = a
value or (failed e) = or

-- The first task is blocked by the second.
abbrev blocked : Stores × Task
blocked = value (two, first) (add no_id directory clock blocked_by (codes "abc") (codes "abd") two)

first_saved : save 5 local_edit first empty ≡ some one.tasks
unfolding save any pairwise
first_saved = refl

second_saved : save 6 local_edit second one.tasks ≡ some two.tasks
unfolding save any ℕ_discrete List-discrete pairwise
second_saved = refl

is_blocked : add no_id directory clock blocked_by (codes "abc") (codes "abd") two ≡ done blocked
unfolding add ℕ_discrete all is_base32 is_empty find List-discrete any pairwise
is_blocked = refl

first_plain : (k : RelationKind) (p : TaskId) → edge_of [] 1 k p ≡ has_edge k p []
unfolding any edge_of
first_plain k p = refl

second_plain : (k : RelationKind) (p : TaskId) → edge_of one.tasks.rows 2 k p ≡ has_edge k p []
unfolding any edge_of stored ℕ_discrete
second_plain k p = refl

Served-IsSound_example : IsSound blocked.0.tasks
Served-IsSound_example = Served-IsSound (
    next
      (next (next start (edited 5 local_edit first one first_plain first_saved))
        (edited 6 local_edit second two second_plain second_saved))
      (added no_id directory clock blocked_by (codes "abc") (codes "abd") blocked.1 blocked.0
        is_blocked))

would_create_cycle-Closes_example :
    (b : Bool) × (would_create_cycle blocked_by blocks 2 1 blocked.0.tasks ≡ some b)
    × ((b ≡ true) ↔ Closes (up_in blocked_by blocks blocked.0.tasks) 1 2)
would_create_cycle-Closes_example = would_create_cycle-Closes blocked_by blocks 2 1 blocked.0.tasks

-- The first task, bound to the repo, as it reads back.
abbrev bound : Task
bound = record first { repo_id = some 9 }

abbrev bound_store : TaskStore
bound_store = stored 5 local_edit bound empty

abbrev pub or_draft : Option Task → Task
or_draft none = draft
or_draft (some t) = t

abbrev read : Task
read = or_draft (get 1 bound_store)

bound_unique : is_unique bound_store.rows ≡ true
unfolding pairwise stored
bound_unique = refl

bound_reads : get read.id bound_store ≡ some read
unfolding get find stored ℕ_discrete
bound_reads = refl

bound_hash : is_valid_hash read.hash ≡ true
unfolding is_valid_hash get find stored ℕ_discrete all is_base32
bound_hash = refl

bound_prefix : actual_prefix directory read ≡ done (codes "rpl")
unfolding actual_prefix get find stored ℕ_discrete
bound_prefix = refl

prefix_valid : (is_empty (codes "rpl") || is_valid_prefix (codes "rpl")) ≡ true
unfolding is_empty is_valid_prefix repo_link.Prelude.Text.is_ascii_lowercase all
prefix_valid = refl

resolve_task-assemble_task_display_id_example :
    resolve_task no_id directory
      (assemble_task_display_id (λ id. []) read (some (codes "rpl")))
      bound_store
    ≡ done read
resolve_task-assemble_task_display_id_example =
    resolve_task-assemble_task_display_id no_id (λ id. []) directory bound_store read (codes "rpl")
      bound_unique bound_reads bound_hash bound_prefix prefix_valid refl

-- The first draw is taken.
abbrev drawn : ℕ → ℕ → Text
drawn k size = if k == 0 then codes "abc" else codes "abe"

save_with_minted_hash-first_free_example :
    save_with_minted_hash drawn 7 local_edit second one.tasks
    ≡ some (first_free rounds drawn 7 local_edit second one.tasks 0)
save_with_minted_hash-first_free_example =
    save_with_minted_hash-first_free drawn 7 local_edit second one.tasks
