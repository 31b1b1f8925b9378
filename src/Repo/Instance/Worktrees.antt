-- ===== src/Repo/Instance/Worktrees.antt =====
-- The worktrees of an instance: crates/domain-repo/src/instance.rs.
use repo_link.Prelude.{
  true, not, Option, List, [], ◌∷◌, ◌≡◌, refl, arith, ◌==◌, nat_eq, list_eq, all, pairwise,
  pairwise-snoc, pairwise-retain, all-retain_self,
}
use repo_link.Prelude.Text.{Text}
use repo_link.Core.{RepoId, RepoOriginId, WorkspaceId, Timestamp, ok}
use repo_link.Repo.Instance.{
  WorktreeLink, RepoInstance, new, same_worktree_path, link_worktree, unlink_worktree, mark_first,
  mark_path_missing, prune_missing, missing_path, link_status_eq,
}

module _ (simplified : Text → Text) where
  -- No two worktrees are at one path.
  abbrev pub AreApart : List WorktreeLink → Type 0
  AreApart ws = pairwise (λ v w. not (same_worktree_path simplified v.path w.path)) ws ≡ true

  pub data Call : Type 0 where
    link : Text → Option Text → Call
    unlink mark_missing : Text → Call
    prune : Call

  unfoldable pub call : Timestamp → Call → RepoInstance → RepoInstance
  unfolding link_worktree unlink_worktree mark_path_missing prune_missing
  call now (link p b) i = link_worktree simplified now p b i
  call now (unlink p) i = (unlink_worktree simplified now p i).0
  call now (mark_missing p) i = (mark_path_missing simplified now p i).0
  call now prune i = (prune_missing now i).0

  mark_first-all :
      (v : WorktreeLink) (p : Text) (ws : List WorktreeLink)
      → all (λ w. not (same_worktree_path simplified v.path w.path)) (mark_first simplified p ws)
        ≡ all (λ w. not (same_worktree_path simplified v.path w.path)) ws
  unfolding mark_first all
  mark_first-all v p [] = refl
  mark_first-all v p (w ∷ ws) = ground (arith, mark_first-all v p ws)

  mark_first-AreApart :
      (p : Text) (ws : List WorktreeLink) → AreApart ws → AreApart (mark_first simplified p ws)
  unfolding mark_first pairwise
  mark_first-AreApart p [] h = h
  mark_first-AreApart p (w ∷ ws) h = ground (arith, mark_first-all w p ws, mark_first-AreApart p ws)

  call-AreApart :
      (now : Timestamp) (c : Call) (i : RepoInstance)
      → AreApart i.worktrees
      → AreApart (call now c i).worktrees
  unfolding call
  call-AreApart now (link p b) i h =
      pairwise-snoc (λ (v : WorktreeLink) w. not (same_worktree_path simplified v.path w.path)) _ _
        (pairwise-retain _ _ i.worktrees h)
        (all-retain_self (λ (w : WorktreeLink). not (same_worktree_path simplified w.path p))
          i.worktrees)
  call-AreApart now (unlink p) i h = ground (
    arith,
    pairwise-retain (λ (v : WorktreeLink) w. not (same_worktree_path simplified v.path w.path))
        (λ w. not (same_worktree_path simplified w.path p)) i.worktrees h,
  )
  call-AreApart now (mark_missing p) i h = ground (arith, mark_first-AreApart p i.worktrees h)
  call-AreApart now prune i h = ground (
    arith,
    pairwise-retain (λ (v : WorktreeLink) w. not (same_worktree_path simplified v.path w.path))
        (λ w. not (w.status == missing_path)) i.worktrees h,
  )

  unfoldable pub calls : List (Timestamp × Call) → RepoInstance → RepoInstance
  unfolding call
  calls [] i = i
  calls ((now, c) ∷ cs) i = calls cs (call now c i)

  calls_keep :
      (cs : List (Timestamp × Call)) (i : RepoInstance)
      → AreApart i.worktrees
      → AreApart (calls cs i).worktrees
  unfolding calls
  calls_keep [] i h = h
  calls_keep ((now, c) ∷ cs) i h = calls_keep cs (call now c i) (call-AreApart now c i h)

  -- After any calls, failed ones included, on an instance that `new` made, no two of its worktrees
  -- are at one path.
  calls-AreApart :
      (id : RepoId) (now : Timestamp) (workspace_id : WorkspaceId) (origin_id : RepoOriginId)
      (canonical_url : Text) (branch : Option Text) (i : RepoInstance)
      (cs : List (Timestamp × Call))
      → new id now workspace_id origin_id canonical_url branch ≡ ok i
      → AreApart (calls cs i).worktrees
  unfolding new pairwise
  calls-AreApart id now workspace_id origin_id canonical_url branch i cs h =
      calls_keep cs i (ground arith)
