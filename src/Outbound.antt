-- ===== src/Outbound.antt =====
-- crates/application-sync/src/lib.rs: what the outbound and inbound paths share, over the
-- remote's types of crates/ports/src/remote_task.rs.
pub mod Laws
pub mod Enqueue
pub mod Plan
use repo_link.Prelude.{
  ℕ, Bool, true, false, not, ◌&&◌, Option, none, some, List, [], ◌∷◌, ◌++◌, if◌then◌else◌, ◌==◌,
  nat_eq, list_eq,
}
use repo_link.Prelude.Text.{Text, codes}
use repo_link.Core.{Timestamp}
use repo_link.Task.Enums.{Lifecycle, open_, is_open, lifecycle_eq}
use repo_link.Task.Snapshot.{TaskSnapshot}
use repo_link.Task.State.{Task}
use repo_link.Task.Mirror.{MirrorPatch, is_empty, assignees_equal}
use repo_link.Project.Board.{Project, bool_eq, option_id_for}

pub data RemoteStateReason : Type 0 where
  completed not_planned duplicate reopened : RemoteStateReason

pub record RemoteTaskUpdate : Type 0 where
  pub canonical_repo : Text
  pub remote_id : Text
  pub title : Option Text
  pub body : Option Text
  pub closed : Option Bool
  pub state_reason : Option RemoteStateReason
  pub assignees : Option (List Text)

pub record RemoteTaskSnapshot : Type 0 where
  pub remote_id : Text
  pub node_id : Option Text
  pub title : Text
  pub body : Text
  pub closed : Bool
  pub updated_at : Timestamp
  pub assignees : List Text
  pub labels : List Text

-- `board_option_for_lifecycle`
unfoldable pub board_option_for_lifecycle : Project → Bool → Option Text
unfolding option_id_for
board_option_for_lifecycle p is_open = option_id_for p is_open

unfoldable pub lifecycle_to_remote_state : Lifecycle → Bool × Option RemoteStateReason
lifecycle_to_remote_state Lifecycle.completed = (true, some RemoteStateReason.completed)
lifecycle_to_remote_state Lifecycle.not_planned = (true, some RemoteStateReason.not_planned)
lifecycle_to_remote_state Lifecycle.reopened = (false, some RemoteStateReason.reopened)
lifecycle_to_remote_state open_ = (false, none)

-- The `match` of `remote_state_to_lifecycle`, on the two bits.
unfoldable pub from_bits : Bool → Bool → Lifecycle → Lifecycle
from_bits true false current = current
from_bits false true current = current
from_bits true true current = Lifecycle.completed
from_bits false false current = Lifecycle.reopened

unfoldable pub remote_state_to_lifecycle : Bool → Lifecycle → Lifecycle
unfolding from_bits is_open
remote_state_to_lifecycle remote_closed current = from_bits remote_closed (is_open current) current

unfoldable pub inbound_mirrors_baseline : Text → Text → List Text → Bool → TaskSnapshot → Bool
unfolding assignees_equal is_open
inbound_mirrors_baseline title body assignees remote_closed b =
    title == b.title
    && body == b.body
    && assignees_equal assignees b.assignees
    && not (remote_closed == is_open b.lifecycle)

-- `if c { fields.push(name) }`
abbrev pub push_if : Bool → Text → List Text → List Text
push_if true name fields = fields ++ name ∷ []
push_if false name fields = fields

unfoldable pub superseded_inbound_fields : Task → Text → Text → List Text → Bool → List Text
unfolding remote_state_to_lifecycle assignees_equal
superseded_inbound_fields t title body assignees closed =
    push_if (not (assignees_equal t.assignees assignees)) (codes "assignees") (
      push_if (not (t.lifecycle == remote_state_to_lifecycle closed t.lifecycle)) (codes "status") (
        push_if (not (t.body == body)) (codes "body")
          (push_if (not (t.title == title)) (codes "title") [])))

unfoldable pub copy_inbound_mirror_from_snap : Text → Text → List Text → Bool → Task → Task
unfolding remote_state_to_lifecycle
copy_inbound_mirror_from_snap title body assignees closed t = record t {
  title = title;
  body = body;
  assignees = assignees;
  lifecycle = remote_state_to_lifecycle closed t.lifecycle;
}

-- `(closed, state_reason)` of a patch, both or neither.
unfoldable pub patch_state : Option Lifecycle → Option Bool × Option RemoteStateReason
unfolding lifecycle_to_remote_state
patch_state none = (none, none)
patch_state (some l) = (some (lifecycle_to_remote_state l).0, (lifecycle_to_remote_state l).1)

unfoldable pub build_update_from_patch : MirrorPatch → Text → Text → Option RemoteTaskUpdate
unfolding is_empty patch_state
build_update_from_patch p canonical_repo remote_id =
    if is_empty p
    then none
    else some (record {
      canonical_repo = canonical_repo;
      remote_id = remote_id;
      title = p.title;
      body = p.body;
      closed = (patch_state p.status).0;
      state_reason = (patch_state p.status).1;
      assignees = p.assignees;
    })
