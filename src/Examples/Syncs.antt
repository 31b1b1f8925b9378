-- ===== src/Examples/Syncs.antt =====
-- The theorems on confirmations at sample inputs.
use repo_link.Prelude.{false, none, some, ◌≡◌, ◌↔◌, refl, if◌then◌else◌, is_none}
use repo_link.Prelude.Text.{codes}
use repo_link.Core.{ok}
use repo_link.Task.Enums.{synced, dirty_local, conflict}
use repo_link.Task.Snapshot.Source.{push}
use repo_link.Task.State.{Task}
use repo_link.Task.Mirror.{MirrorPatch, diff_against_baseline}
use repo_link.Task.Sync.{confirm_synced_fields, confirm_fields, merge, is_patch_source, can_confirm}
use repo_link.Task.Sync.Confirm.{all_confirmed, confirm_merges, confirm-diff, confirm_conflict_iff}
use repo_link.Examples.Fixtures.{observed, mirrored}

-- The sample task, with its title edited, and with a conflict.
abbrev edited : Task
edited = record mirrored { title = codes "Fix all"; sync = dirty_local }

abbrev torn : Task
torn = record edited { sync = conflict }

abbrev title_only : MirrorPatch
title_only = record { title = some (codes "Fix all"); body = none; status = none; assignees = none }

confirm_merges_example :
    let t' = (confirm_synced_fields 200 push title_only edited).0 in
    (t'.synced_baseline ≡ some (merge push title_only observed))
    × (t'.sync ≡ (if all_confirmed title_only edited observed then synced else dirty_local))
unfolding confirm_synced_fields confirm_fields
confirm_merges_example = confirm_merges 200 push title_only edited observed refl refl

confirm-diff_example :
    let (t', r) = confirm_synced_fields 200 push (diff_against_baseline edited) edited in
    (r ≡ ok tt) × (t'.sync ≡ synced)
unfolding is_patch_source can_confirm
confirm-diff_example = confirm-diff 200 push edited observed refl refl refl

confirm_conflict_iff_example : ((confirm_synced_fields 200 push title_only torn).1 ≡ ok tt) ↔ (
    (push ≡ push)
    × (is_none title_only.title ≡ false)
    × (is_none title_only.body ≡ false)
    × (is_none title_only.status ≡ false)
    × (is_none title_only.assignees ≡ false)
    × (is_none torn.synced_baseline ≡ false))
confirm_conflict_iff_example = confirm_conflict_iff 200 push title_only torn refl
