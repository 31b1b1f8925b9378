-- ===== src/Sync/Filing.antt =====
-- crates/domain-sync/src/filing.rs: where the issue that backs a task is filed.
use repo_link.Prelude.{Option, some, none, or, ◌≡◌, ◌↔◌, arith, List, [], ◌∷◌}
use repo_link.Core.{RepoOriginId}

unfoldable pub resolve_filing_repo :
    Option RepoOriginId → Option RepoOriginId → Option RepoOriginId → Option RepoOriginId
resolve_filing_repo explicit_override workspace_default logical_origin =
    or (or explicit_override workspace_default) logical_origin

-- The precedence as a rule: the first repo that is given, in a list of candidates.
abbrev pub first_some : List (Option RepoOriginId) → Option RepoOriginId
first_some [] = none
first_some (none ∷ os) = first_some os
first_some (some r ∷ os) = some r

-- The chain takes the override, else the workspace's default, else the logical origin, and the
-- issue is a board draft exactly if all three are absent. Recording what it gave as the override
-- makes the answer stable, whatever the workspace's default becomes.
pub resolve_filing_repo_lem :
    (o w l w' : Option RepoOriginId) (r : RepoOriginId)
    → (resolve_filing_repo o w l ≡ first_some (o ∷ w ∷ l ∷ []))
      × (resolve_filing_repo o w l ≡ none ↔ ((o ≡ none) × (w ≡ none) × (l ≡ none)))
      × (resolve_filing_repo o w l ≡ some r
          → resolve_filing_repo (resolve_filing_repo o w l) w' l ≡ some r)
unfolding resolve_filing_repo
resolve_filing_repo_lem o w l w' r =
    (ground arith, (λ h. ground arith, λ h. ground arith), ground arith)
