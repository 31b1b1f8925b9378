-- ===== src/Task/Edits/Repos.antt =====
-- Priority, issue type and the two repo axes: crates/domain-task/src/task.rs.
use repo_link.Prelude.{true, false, Option, none, some, ◌≡◌, ◌≢◌, ◌↔◌, arith, is_none, nat_eq}
use repo_link.Core.{RepoId, Timestamp, ok, err, validation}
use repo_link.Task.Enums.{Priority}
use repo_link.Task.IssueType.{IssueType}
use repo_link.Task.State.{Task}
use repo_link.Task.Mirror.{differs, diff_against_baseline}
use repo_link.Task.Edits.{
  set_priority, set_issue_type, set_issue_type_default, set_repo_id, set_filing_repo_id,
  force_set_filing_repo_id,
}

-- The metadata setters keep the sync state and the diff that a push would send.
pub metadata-diff :
    (now : Timestamp) (p : Priority) (i : Option IssueType) (d : IssueType) (r : Option RepoId)
    (t : Task)
    → let same =
        λ (t' : Task). (t'.sync ≡ t.sync) × (diff_against_baseline t' ≡ diff_against_baseline t) in
      same (set_priority now p t)
      × same (set_issue_type now i t)
      × same (set_issue_type_default now d t)
      × same (set_repo_id now r t).0
      × same (set_filing_repo_id now r t).0
      × same (force_set_filing_repo_id now r t)
unfolding set_priority set_issue_type set_issue_type_default set_repo_id set_filing_repo_id
    force_set_filing_repo_id diff_against_baseline differs
metadata-diff now p i d r t =
    (ground arith, ground arith, ground arith, ground arith, ground arith, ground arith)

-- A changed issue type leaves the intent to project it; a derived default leaves the intent as it
-- was.
pub set_issue_type_pending :
    (now : Timestamp) (i : Option IssueType) (d : IssueType) (t : Task)
    → (t.issue_type ≢ i → (set_issue_type now i t).issue_type_pending ≡ true)
      × ((set_issue_type now i t).issue_type ≡ i)
      × ((set_issue_type_default now d t).issue_type ≡ some d)
      × ((set_issue_type_default now d t).issue_type_pending ≡ t.issue_type_pending)
unfolding set_issue_type set_issue_type_default
set_issue_type_pending now i d t = ground arith

-- `set_repo_id` is refused exactly when it would change the repo of a task that is remote-backed
-- and has no filing repo recorded.
pub set_repo_id-refused :
    (now : Timestamp) (r : Option RepoId) (t : Task)
    → ((set_repo_id now r t).1 ≡ err validation)
      ↔ ((t.repo_id ≢ r) × (is_none t.remote ≡ false) × (t.filing_repo_id ≡ none))
unfolding set_repo_id
set_repo_id-refused now r t = (λ h. ground arith, λ h. ground arith)

-- `set_filing_repo_id` is refused exactly when it would change a recorded value; otherwise the
-- value is recorded.
pub set_filing_repo_id-refused :
    (now : Timestamp) (r : Option RepoId) (t : Task)
    → (((set_filing_repo_id now r t).1 ≡ err validation)
        ↔ ((t.filing_repo_id ≢ r) × (is_none t.filing_repo_id ≡ false)))
      × ((set_filing_repo_id now r t).1 ≡ ok tt → (set_filing_repo_id now r t).0.filing_repo_id ≡ r)
unfolding set_filing_repo_id
set_filing_repo_id-refused now r t = ((λ h. ground arith, λ h. ground arith), λ h. ground arith)
