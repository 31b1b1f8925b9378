-- ===== src/Examples/Names.antt =====
-- The theorems on names, hashes and issue types at sample inputs.
use repo_link.Prelude.{
  ℕ, ◌≤◌, true, false, none, List, [], ◌∷◌, ◌≡◌, refl, all, length, leb, pairwise, ℕ_discrete,
}
use repo_link.Prelude.Text.{codes, trim, is_empty, len}
use repo_link.Core.{ok, err, transition}
use repo_link.Task.Hash.{random_lowercase_base32, is_valid_hash, is_base32}
use repo_link.Task.Hash.Minting.{random_lowercase_base32-is_valid_hash}
use repo_link.Workspace.{Workspace, WorkspaceStatus, paused, new_name}
use repo_link.Workspace.Laws.{Command, step, ◌⟶⟨◌⟩◌, step-edge}
use repo_link.Drainer.{standard}

-- The same UUID each time.
abbrev uuid : ℕ → List ℕ
uuid n = 200 ∷ 1 ∷ 2 ∷ 3 ∷ 4 ∷ 5 ∷ 6 ∷ 7 ∷ 8 ∷ 9 ∷ 10 ∷ 11 ∷ 12 ∷ 13 ∷ 14 ∷ 15 ∷ []

random_lowercase_base32-is_valid_hash_example :
    (length (random_lowercase_base32 uuid 3) ≡ 3)
    × (all is_base32 (random_lowercase_base32 uuid 3) ≡ true)
    × (3 ≤ 3 → 3 ≤ 16 → is_valid_hash (random_lowercase_base32 uuid 3) ≡ true)
random_lowercase_base32-is_valid_hash_example =
    random_lowercase_base32-is_valid_hash uuid 3 (λ n. refl)

abbrev idle : Workspace
idle = record {
  id = 7;
  name = codes "Core";
  description = none;
  status = paused;
  local_only = false;
  project_id = none;
  filing_repo_id = none;
  default_issue_type = none;
  default_sub_issue_type = none;
  created_at = 5;
  updated_at = 5;
}

step-edge_example :
    ((step 6 Command.activate idle).1 ≡ ok tt
      → paused ⟶⟨ Command.activate ⟩ (step 6 Command.activate idle).0.status)
    × ((u : WorkspaceStatus)
        → paused ⟶⟨ Command.activate ⟩ u
        → ((step 6 Command.activate idle).1 ≡ ok tt)
          × ((step 6 Command.activate idle).0.status ≡ u))
    × ((step 6 Command.activate idle).1 ≡ err transition → (step 6 Command.activate idle).0 ≡ idle)
step-edge_example = step-edge 6 Command.activate idle

named : new_name (codes " Core ") ≡ ok (codes "Core")
unfolding new_name is_empty trim ℕ_discrete len all
named = refl

rising : pairwise leb standard.delays ≡ true
unfolding pairwise all
rising = refl
