-- ===== src/Drainer/Sweep.antt =====
-- crates/application-sync/src/drainer.rs: `enqueue_pending_issue_types`, the sweep that makes entries
-- of the types that are still to be projected. The log lines are left out.
pub mod Settles
use repo_link.Prelude.{
  ℕ, zero, suc, ◌+◌, Bool, true, false, not, ◌&&◌, ◌||◌, Option, none, some, List, [], ◌∷◌, ◌++◌,
  ◌≡◌, refl, sym, arith, subst, ap, ltb, if◌then◌else◌, ◌==◌, nat_eq, list_eq, is_none, find, any,
  any-append, map, Bool-cases, Option-cases, inl, inr,
}
use repo_link.Prelude.Text.{Text, codes}
use repo_link.Core.{TaskId, OutboxEntryId, Timestamp}
use repo_link.Task.State.{Task}
use repo_link.Task.Edits.{is_mirror}
use repo_link.Workspace.{Workspace}
use repo_link.Repo.Instance.{RepoInstance}
use repo_link.Repo.Origin.{RepoOrigin}
use repo_link.Sync.Filing.{resolve_filing_repo}
use repo_link.Sync.Outbox.{OutboxEntry, OutboxMutation, new, kind}
use repo_link.OutboxRepo.{Table, enqueue, is_type_kind, blocks_type}
use repo_link.TaskRepo.{TaskStore}
use repo_link.TaskRepo.Listing.{is_older, selected, read_row}
use repo_link.Outbound.Enqueue.{and_then}
use repo_link.Outbound.Plan.{parse_github_owner, resolve_type_projection}
use repo_link.Drainer.Effects.{Env, find_workspace}
use repo_link.Drainer.Apply.Arms.{resolve_project_tolerant}

-- The rows behind `RepoBindingRepository`.
pub record Bindings : Type 0 where
  pub instances : List RepoInstance
  pub origins : List RepoOrigin

unfoldable pub filing_owner_login : Env → Bindings → Task → Option Text
unfolding find_workspace resolve_filing_repo parse_github_owner
filing_owner_login env b t =
    let workspace_default = and_then (find_workspace env t.workspace_id) (λ w. w.filing_repo_id) in
    let logical =
      and_then t.repo_id
        (λ id. and_then (find (λ i. i.id == id) b.instances) (λ i. some i.origin_id)) in
    and_then (resolve_filing_repo t.filing_repo_id workspace_default logical) (λ origin_id.
      and_then (find (λ o. o.id == origin_id) b.origins) (λ o. parse_github_owner o.canonical_url))

-- The mutation that a task is owed; the owner matters only for a type that is set.
unfoldable pub planned : Env → Bindings → Task → Option OutboxMutation
unfolding resolve_project_tolerant filing_owner_login resolve_type_projection
planned env b t =
    resolve_type_projection (resolve_project_tolerant env t) env.registries
      (if is_none t.issue_type then none else filing_owner_login env b t) t

unfoldable pub owed : Env → Bindings → Task → Option OutboxMutation
unfolding is_mirror planned
owed env b t = if is_mirror t then planned env b t else none

-- An entry with the identifier and the instant that are given, if there is a mutation.
unfoldable pub enqueue_owed :
    OutboxEntryId × Timestamp → TaskId → Option OutboxMutation → Table → Table
unfolding enqueue new
enqueue_owed fresh id none rows = rows
enqueue_owed fresh id (some m) rows = enqueue (new fresh.0 fresh.1 id m) rows

-- The tasks in order, the first with the `k`th identifier.
unfoldable pub sweep :
    (ℕ → OutboxEntryId × Timestamp) → Env → Bindings → ℕ → List Task → Table → Table
unfolding owed enqueue_owed
sweep fresh env b k [] rows = rows
sweep fresh env b k (t ∷ ts) rows =
    sweep fresh env b (suc k) ts (enqueue_owed (fresh k) t.id (owed env b t) rows)

unfoldable pub enqueue_pending_issue_types :
    (ℕ → OutboxEntryId × Timestamp) → Env → Bindings → TaskStore → Table → Table
unfolding selected read_row sweep
enqueue_pending_issue_types fresh env b s rows =
    sweep fresh env b 0 (map (read_row s) (selected (λ t. t.issue_type_pending) is_older s)) rows
