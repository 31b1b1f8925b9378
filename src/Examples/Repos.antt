-- ===== src/Examples/Repos.antt =====
-- Repos at sample inputs.
use repo_link.Prelude.{none, [], ◌≡◌, refl, all, contains, ℕ_discrete, List-discrete, retain}
use repo_link.Prelude.Text.{Text, codes, is_ascii_digit, trim}
use repo_link.Prelude.Text
use repo_link.Core.{ok}
use repo_link.Repo.Instance.{RepoInstance}
use repo_link.Repo.Instance
use repo_link.Repo.Naming.{derive_prefix}
use repo_link.Repo.Origin.{RepoOrigin, new}

abbrev origin : RepoOrigin
origin = record {
  id = 1;
  canonical_url = codes "github.com/org/repo-link";
  remote_url = codes "git@github.com:org/repo-link.git";
  name = codes "repo-link";
  aliases = [];
  prefix = codes "rpl";
  created_at = 5;
  updated_at = 5;
}

made :
    new 1 5 (codes "git@github.com:org/repo-link.git") (codes "github.com/org/repo-link")
    ≡ ok origin
unfolding new Text.is_empty trim ℕ_discrete retain all is_ascii_digit contains List-discrete
    Text.to_ascii_lowercase Text.len Text.is_ascii_alphabetic
made = refl

-- The prefix of the source's own test.
derived : derive_prefix (codes "auth-service") ≡ codes "ath"
unfolding derive_prefix retain ℕ_discrete Text.is_empty all is_ascii_digit contains List-discrete
    Text.to_ascii_lowercase Text.is_ascii_alphabetic
derived = refl

abbrev instance_of : RepoInstance
instance_of = record {
  id = 4;
  workspace_id = 7;
  origin_id = 1;
  tracked_branch = none;
  canonical_url = codes "github.com/org/repo-link";
  worktrees = [];
  created_at = 5;
  updated_at = 5;
}

joined : Instance.new 4 5 7 1 (codes "github.com/org/repo-link") none ≡ ok instance_of
unfolding Instance.new Text.is_empty trim ℕ_discrete
joined = refl
