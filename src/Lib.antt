-- ===== src/Lib.antt =====
-- repo-link keeps local tasks in step with GitHub issues and project boards. This library models
-- the domain aggregates, the SQLite tables of tasks and of the outbox through which local edits
-- leave, what an edit owes the remote, the drainer that empties the outbox, the poller that observes
-- the boards, and of the services how a task is named, how relations are kept, and how one task is
-- pushed and pulled.
--
-- The program's parts and the files that model them:
--
-- Prelude: strings as lists of scalar values with the `str` methods that the sources call, lists
--   measured by native numbers, Boolean tests and equality.
-- Core: crates/domain-core, the identifiers (numbers here), the clock (`Timestamp::now()` is an
--   argument of each operation that reads it) and the error type without its messages.
-- Task: crates/domain-task. Task/State is the record `Task` and its constructors, Task/Enums,
--   Task/IssueType and Task/Snapshot its data. Task/Mirror is dirty detection against the baseline
--   and the patches to push; Task/Sync the sync state machine with the per-field confirmation;
--   Task/Edits the setters, the lifecycle, the relations and the repo axes. A `&mut self` method is
--   a function to the new task, and a fallible one gives the new task beside its result.
--   Task/Machine puts the methods together as one step function. Task/Hash is the minting of short
--   hashes, with the UUID generator as a parameter and the requested length as fuel, which is
--   enough since each UUID adds a character.
-- Sync: crates/domain-sync: the decision of what to do for a task, the chain that resolves where an
--   issue is filed, and the entries of the outbox.
-- OutboxRepo: crates/infra-sqlite/src/outbox_repo.rs, the table `outbox_entries` as the list of its
--   rows in the order of `rowid`, each statement a function on it. OutboxRepo/Serial has the
--   statements as a step relation.
-- TaskRepo: crates/infra-sqlite/src/task_repo.rs, the tables of tasks, relations, remote mappings and
--   snapshots as one store: its rows and its history. `save` is the whole of `write_task_in_tx`, and
--   a unique violation is `none`. The rows that a task refers to are there. Comments are read as
--   they are, and what writes them is left out; TaskRepo/Listing is `list` for the filter and the
--   order of its caller.
-- Outbound: crates/application-sync/src/lib.rs and enqueue.rs: how a lifecycle and a patch are said
--   to the remote and how an observation is copied (Outbound), the single mutations
--   (Outbound/Enqueue), and the plan of what a task owes with the rail of its type (Outbound/Plan).
--   Log lines are left out.
-- Drainer: crates/application-sync/src/drainer.rs. Drainer is the backoff schedule and what a turn of
--   `drain_once` does with the entry it claimed, for any result of `apply`. Drainer/Apply and
--   Drainer/Apply/Arms are `apply` itself, with its write-backs and follow-ups, as steps on the
--   outbox, the stored tasks and the record of what was asked of the remote (Drainer/Effects). The
--   remote's answers, the clock, the identifiers of new entries, the decimal digits of a number and
--   the messages of errors are parameters, with whether the write that clears a pending type fails.
--   Drainer/Sweep is the sweep of pending types. A read that fails for another reason than that
--   nothing is there, and an insertion into the outbox that fails, are not modelled.
--   A delay is taken to be in the range of `chrono::Duration`.
-- Poller: crates/application-sync/src/poller.rs: the reconciliation of an item with its task (Poller)
--   and the pass over the boards with the stale scan, the watermarks and the stamps (Poller/Pass),
--   over the stored tasks. A hash map is a list by key (Poller/Maps), the pages are what the provider
--   answers, and a failure of a statement on the local tables is left out.
-- TaskService: crates/application-task/src/service.rs with error.rs and dto.rs, over the stored tasks and
--   the outbox: `resolve_task`, the text that a task is shown by, the repo that it is filed in and
--   `save_many_with_outbox`, which writes a batch whole or not at all (TaskService);
--   `save_with_minted_hash` (TaskService/Minted); the walk of `would_create_cycle`
--   (TaskService/Cycles), whose fuel is the number of edges and one more, since a round takes an
--   entry from the stack and an edge is pushed once, and which answers `none` when it runs out;
--   `add_relation` and `remove_relation` of two tasks that were read (TaskService/Relations), and
--   those commands with `clear_relations` from the texts that they are given
--   (TaskService/Relations/Commands). The loop of the minting has 112 rounds
--   of fuel: eight for each length from 3 to 16. What is drawn, the parsing and printing of a
--   UUID and the order of a hash map are parameters; the view that a command answers is left out.
-- SyncService: crates/application-sync/src/service.rs: `push_inner` (SyncService/Push), `pull_inner` up
--   to the reconciliation of relations, and `refresh` (SyncService/Pull), as steps on the stored
--   tasks that keep what they wrote when they fail. The remote's answers, the clock and the
--   identifiers of new comments are parameters.
-- Workspace: crates/domain-workspace: the aggregate, its name, its lifecycle.
-- Project: crates/domain-project: boards, the kinds of their fields, the mappings from local
--   lifecycles and priorities to options, and the registry of native types;
--   `char::to_lowercase` is a parameter.
-- Repo: crates/domain-repo: derived names and prefixes, the aggregate `RepoOrigin` and the aggregate
--   `RepoInstance` with its worktrees; whether a text parses as an identifier, and how
--   `dunce::simplified` simplifies a path, are parameters.
-- Examples: sample values, and the theorems at them.
--
-- Timestamps are nanoseconds. Numbers are unbounded except where a wrap-around is written out (the
-- 64-bit accumulator of the hash); `attempts` is compared with the cap, itself of 32 bits, before
-- it grows further.
-- Not modelled: the other operations of the two services (the edits and transitions of tasks,
-- promotes, links and imports), the other services, the search, the GitHub client, the command
-- line and the daemon.
pub mod Prelude
pub mod Core
pub mod Task
pub mod Sync
pub mod OutboxRepo
pub mod Outbound
pub mod Poller
pub mod SyncService
pub mod TaskService
pub mod TaskRepo
pub mod Drainer
pub mod Workspace
pub mod Project
pub mod Repo
pub mod Examples
