-- ===== src/Task/Mirror.antt =====
-- crates/domain-task/src/task.rs: the mirrored fields, dirty detection and the field-level diff.
pub mod Assignees
pub mod Laws
use repo_link.Prelude.{
  Bool, true, false, not, ◌&&◌, ◌||◌, Option, none, some, List, [], ◌∷◌, if◌then◌else◌, ◌==◌, any,
  includes, length, nat_eq, list_eq, is_none, then_some, unwrap_or,
}
use repo_link.Prelude.Text.{Text}
use repo_link.Task.Enums.{
  Lifecycle, lifecycle_eq, SyncState, synced, dirty_local, dirty_remote, conflict,
}
use repo_link.Task.Snapshot.{TaskSnapshot}
use repo_link.Task.State.{Task}

-- `a_set == b_set`: the hash sets of the two lists have the same elements.
unfoldable pub same_set : List Text → List Text → Bool
same_set a b = includes b a && includes a b

unfoldable pub assignees_equal : List Text → List Text → Bool
assignees_equal a b = if not (length a == length b) then false else same_set a b

pub data MirrorField : Type 0 where
  title body status assignees : MirrorField

-- `MIRRORED_FIELDS`
abbrev pub mirrored_fields : List MirrorField
mirrored_fields = title ∷ body ∷ status ∷ assignees ∷ []

-- `MirrorField::differs`
unfoldable pub differs : MirrorField → Task → TaskSnapshot → Bool
differs title t b = not (t.title == b.title)
differs body t b = not (t.body == b.body)
differs status t b = not (t.lifecycle == b.lifecycle)
differs assignees t b = not (assignees_equal t.assignees b.assignees)

-- The `match` of `Task::reconcile_dirty_against_baseline`.
unfoldable pub reconciled : SyncState → Bool → SyncState
reconciled synced true = dirty_local
reconciled dirty_local false = synced
reconciled dirty_remote true = conflict
reconciled other _ = other

-- `MIRRORED_FIELDS.iter().any(|f| f.differs(self, baseline))`
unfoldable pub is_dirty : Task → TaskSnapshot → Bool
unfolding any differs
is_dirty t b = any (λ f. differs f t b) mirrored_fields

-- `Task::reconcile_dirty_against_baseline`
unfoldable pub reconcile_dirty_against_baseline : Task → Task
unfolding reconciled
reconcile_dirty_against_baseline t = elim t.synced_baseline [
  | none ↦ t
  | some b ↦ record t { sync = reconciled t.sync (is_dirty t b) }
]

pub record MirrorPatch : Type 0 where
  pub title : Option Text
  pub body : Option Text
  pub status : Option Lifecycle
  pub assignees : Option (List Text)

-- `MirrorPatch::is_empty`
unfoldable pub is_empty : MirrorPatch → Bool
is_empty p = is_none p.title && is_none p.body && is_none p.status && is_none p.assignees

-- `MirrorPatch::default`
abbrev pub empty_patch : MirrorPatch
empty_patch = record { title = none; body = none; status = none; assignees = none }

-- `Task::diff_against_baseline`
unfoldable pub diff_against_baseline : Task → MirrorPatch
diff_against_baseline t = elim t.synced_baseline [
  | none ↦ empty_patch
  | some b ↦ record {
    title = then_some (differs MirrorField.title t b) t.title;
    body = then_some (differs MirrorField.body t b) t.body;
    status = then_some (differs MirrorField.status t b) t.lifecycle;
    assignees = then_some (differs MirrorField.assignees t b) t.assignees;
  }
]

-- `Task::full_mirror_patch`
unfoldable pub full_mirror_patch : Task → MirrorPatch
full_mirror_patch t = record {
  title = some t.title;
  body = some t.body;
  status = some t.lifecycle;
  assignees = some t.assignees;
}
