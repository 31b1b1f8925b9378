-- ===== src/Repo/Instance.antt =====
-- crates/domain-repo/src/instance.rs and link.rs: a workspace's membership of a repo. A path is a
-- text, and `simplified` is the parameter for `dunce::simplified`.
pub mod Worktrees
use repo_link.Prelude.{
  ℕ, ◌-◌, Bool, true, false, not, Option, none, some, List, [], ◌∷◌, ◌++◌, if◌then◌else◌, ltb, Eq,
  ◌==◌, nat_eq, list_eq, any, retain, length,
}
use repo_link.Prelude.Text.{Text}
use repo_link.Core.{RepoId, RepoOriginId, WorkspaceId, Timestamp, Result, ok, err, validation}
use repo_link.Task.State.{is_blank}

pub data LinkStatus : Type 0 where
  linked stale missing_path detached : LinkStatus

unfoldable pub LinkStatus-discrete : Discrete LinkStatus
LinkStatus-discrete = hlevel

instance abbrev pub link_status_eq : Eq LinkStatus
link_status_eq = record { dec_eq = LinkStatus-discrete }

pub record WorktreeLink : Type 0 where
  pub path : Text
  pub branch : Option Text
  pub status : LinkStatus
  pub last_seen_at : Timestamp

pub record RepoInstance : Type 0 where
  pub id : RepoId
  pub workspace_id : WorkspaceId
  pub origin_id : RepoOriginId
  pub tracked_branch : Option Text
  pub canonical_url : Text
  pub worktrees : List WorktreeLink
  pub created_at : Timestamp
  pub updated_at : Timestamp

-- `RepoInstance::touch`
abbrev pub touch : Timestamp → RepoInstance → RepoInstance
touch now i = record i { updated_at = now }

-- `RepoInstance::new`, with the fresh identifier `id`.
unfoldable pub new :
    RepoId → Timestamp → WorkspaceId → RepoOriginId → Text → Option Text → Result RepoInstance
new id now workspace_id origin_id canonical_url tracked_branch =
    if is_blank canonical_url
    then err validation
    else ok (record {
      id = id;
      workspace_id = workspace_id;
      origin_id = origin_id;
      tracked_branch = tracked_branch;
      canonical_url = canonical_url;
      worktrees = [];
      created_at = now;
      updated_at = now;
    })

-- `RepoInstance::prune_missing`: the count of the worktrees that were dropped.
unfoldable pub prune_missing : Timestamp → RepoInstance → RepoInstance × ℕ
prune_missing now i =
    let kept = retain (λ w. not (w.status == missing_path)) i.worktrees in
    let pruned = length i.worktrees - length kept in
    let i' = record i { worktrees = kept } in (if ltb 0 pruned then touch now i' else i', pruned)

module _ (simplified : Text → Text) where
  unfoldable pub same_worktree_path : Text → Text → Bool
  same_worktree_path p q = simplified p == simplified q

  -- `RepoInstance::link_worktree`
  unfoldable pub link_worktree : Timestamp → Text → Option Text → RepoInstance → RepoInstance
  unfolding same_worktree_path
  link_worktree now path branch i =
      let kept = retain (λ w. not (same_worktree_path w.path path)) i.worktrees in
      let link : WorktreeLink = record {
        path = path;
        branch = branch;
        status = linked;
        last_seen_at = now;
      } in
      touch now (record i { worktrees = kept ++ link ∷ [] })

  -- `RepoInstance::unlink_worktree`
  unfoldable pub unlink_worktree :
      Timestamp → Text → RepoInstance → RepoInstance × Result (Unit {0})
  unfolding same_worktree_path
  unlink_worktree now path i =
      let kept = retain (λ w. not (same_worktree_path w.path path)) i.worktrees in
      let i' = record i { worktrees = kept } in
      if length kept == length i.worktrees then (i', err validation) else (touch now i', ok tt)

  -- The status of the first worktree at the path.
  unfoldable pub mark_first : Text → List WorktreeLink → List WorktreeLink
  unfolding same_worktree_path
  mark_first path [] = []
  mark_first path (w ∷ ws) =
      if same_worktree_path w.path path
      then record w { status = missing_path } ∷ ws
      else w ∷ mark_first path ws

  -- `RepoInstance::mark_path_missing`
  unfoldable pub mark_path_missing :
      Timestamp → Text → RepoInstance → RepoInstance × Result (Unit {0})
  unfolding same_worktree_path mark_first
  mark_path_missing now path i =
      if any (λ w. same_worktree_path w.path path) i.worktrees
      then (touch now (record i { worktrees = mark_first path i.worktrees }), ok tt)
      else (i, err validation)
