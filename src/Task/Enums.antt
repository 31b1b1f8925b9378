-- ===== src/Task/Enums.antt =====
-- crates/domain-task/src/enums.rs: the enums of a task.
use repo_link.Prelude.{Bool, true, false, Option, none, some, Eq}
use repo_link.Prelude.Text.{Text, codes}

pub data Lifecycle : Type 0 where
  open_ reopened completed not_planned : Lifecycle

pub data SyncState : Type 0 where
  local_only staged synced dirty_local dirty_remote conflict : SyncState

pub data Priority : Type 0 where
  p0 p1 p2 p3 : Priority

pub data RelationKind : Type 0 where
  blocked_by blocks duplicates parent_of child_of related_to : RelationKind

unfoldable pub Lifecycle-discrete : Discrete Lifecycle
Lifecycle-discrete = hlevel

unfoldable pub SyncState-discrete : Discrete SyncState
SyncState-discrete = hlevel

unfoldable pub Priority-discrete : Discrete Priority
Priority-discrete = hlevel

unfoldable pub RelationKind-discrete : Discrete RelationKind
RelationKind-discrete = hlevel

instance abbrev pub lifecycle_eq : Eq Lifecycle
lifecycle_eq = record { dec_eq = Lifecycle-discrete }

instance abbrev pub sync_state_eq : Eq SyncState
sync_state_eq = record { dec_eq = SyncState-discrete }

instance abbrev pub priority_eq : Eq Priority
priority_eq = record { dec_eq = Priority-discrete }

instance abbrev pub relation_kind_eq : Eq RelationKind
relation_kind_eq = record { dec_eq = RelationKind-discrete }

-- `Lifecycle::is_open`
unfoldable pub is_open : Lifecycle → Bool
is_open open_ = true
is_open reopened = true
is_open completed = false
is_open not_planned = false

-- `Lifecycle::state_reason`
unfoldable pub state_reason : Lifecycle → Option Text
state_reason open_ = none
state_reason reopened = some (codes "reopened")
state_reason completed = some (codes "completed")
state_reason not_planned = some (codes "not_planned")

-- `RelationKind::inverse`
unfoldable pub inverse : RelationKind → RelationKind
inverse blocked_by = blocks
inverse blocks = blocked_by
inverse parent_of = child_of
inverse child_of = parent_of
inverse related_to = related_to
inverse duplicates = duplicates
