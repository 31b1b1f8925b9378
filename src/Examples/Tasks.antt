-- ===== src/Examples/Tasks.antt =====
-- The theorems on tasks at sample inputs.
use repo_link.Prelude.{
  ℕ, false, none, some, List, [], ◌∷◌, ◌≡◌, refl, all, contains, List-discrete, ℕ_discrete,
}
use repo_link.Prelude.Text.{codes, trim}
use repo_link.Prelude.Text
use repo_link.Core.{transition}
use repo_link.Task.Enums.{Lifecycle-discrete, synced, p1}
use repo_link.Task.Snapshot.Source.{pull}
use repo_link.Task.State.{Task, new_draft, is_blank}
use repo_link.Task.Mirror.{is_dirty, diff_against_baseline, differs, same_set, assignees_equal}
use repo_link.Task.Mirror.Laws.{is_unconfirmed}
use repo_link.Task.Edits.{
  set_priority, set_issue_type, set_issue_type_default, set_repo_id, set_filing_repo_id,
  force_set_filing_repo_id,
}
use repo_link.Task.Edits.Repos.{metadata-diff}
use repo_link.Task.IssueType.{bug}
use repo_link.Task.Sync.{stage_for_sync, can_stage}
use repo_link.Task.Machine.{Event, step, run}
use repo_link.Task.Machine.Invariant.{Inv, Born, drafted, run-born_Inv}
use repo_link.Task.Machine.Graph.{◌⟶◌, step-⟶, step_error_unchanged}
use repo_link.Examples.Fixtures.{mirrored, draft}

abbrev history : List (ℕ × ℕ × Event)
history =
    (200, 201, Event.set_body (codes "More"))
    ∷ (210, 211, Event.mark_dirty_remote)
    ∷ (220, 221, Event.adopt pull)
    ∷ []

-- The sample is clean.
unconfirmed : is_unconfirmed mirrored ≡ false
unfolding is_unconfirmed is_dirty differs same_set assignees_equal all contains List-discrete
    ℕ_discrete Lifecycle-discrete
unconfirmed = refl

titled : is_blank mirrored.title ≡ false
unfolding Text.is_empty trim ℕ_discrete
titled = refl

born : Born draft
unfolding new_draft Text.is_empty trim ℕ_discrete
born = drafted 2 50 7 none (codes "Fix it") refl

run-born_Inv_example : Inv (run history draft)
run-born_Inv_example = run-born_Inv history draft born

step-⟶_example : mirrored.sync ⟶ (step 200 201 (Event.set_body (codes "More")) mirrored).0.sync
step-⟶_example = step-⟶ 200 201 (Event.set_body (codes "More")) mirrored

step_error_unchanged_example : (step 200 201 Event.stage mirrored).0 ≡ mirrored
unfolding step stage_for_sync can_stage
step_error_unchanged_example =
    step_error_unchanged 200 201 Event.stage mirrored {x = transition} refl

metadata-diff_example :
    let same = λ (t' : Task).
      (t'.sync ≡ synced) × (diff_against_baseline t' ≡ diff_against_baseline mirrored) in
    same (set_priority 200 p1 mirrored)
    × same (set_issue_type 200 none mirrored)
    × same (set_issue_type_default 200 bug mirrored)
    × same (set_repo_id 200 (some 8) mirrored).0
    × same (set_filing_repo_id 200 (some 8) mirrored).0
    × same (force_set_filing_repo_id 200 (some 8) mirrored)
metadata-diff_example = metadata-diff 200 p1 none bug (some 8) mirrored
