-- ===== src/Outbound/Laws.antt =====
-- The two directions of the mirror agree: crates/application-sync/src/lib.rs.
use repo_link.Prelude.{Bool, true, false, List, [], ◌≡◌, arith, list_eq, nat_eq}
use repo_link.Prelude.Text.{Text}
use repo_link.Core.{Timestamp}
use repo_link.Task.Enums.{Lifecycle, lifecycle_eq}
use repo_link.Task.Snapshot.Source.{SnapshotSource}
use repo_link.Task.Snapshot.{TaskSnapshot}
use repo_link.Task.State.{Task, snapshot_view}
use repo_link.Task.Mirror.{is_dirty}
use repo_link.Task.Mirror.Assignees.{
  assignees_equal_refl, assignees_equal-sym, assignees_equal_trans,
}
use repo_link.Outbound.{
  lifecycle_to_remote_state, remote_state_to_lifecycle, inbound_mirrors_baseline,
  superseded_inbound_fields, copy_inbound_mirror_from_snap,
}

-- What a push says of a lifecycle reads back as that lifecycle, and an observation of any state
-- gives a lifecycle whose bit is the remote's.
lifecycle-roundtrip :
    (l current : Lifecycle) (closed : Bool)
    → (remote_state_to_lifecycle (lifecycle_to_remote_state l).0 l ≡ l)
      × ((lifecycle_to_remote_state (remote_state_to_lifecycle closed current)).0 ≡ closed)
unfolding lifecycle_to_remote_state remote_state_to_lifecycle
lifecycle-roundtrip l current closed = ground arith

-- An observation that is copied supersedes nothing any more, is copied again to no effect, and
-- a baseline captured then mirrors it.
copy-settles :
    (t : Task) (title body : Text) (assignees : List Text) (closed : Bool) (at : Timestamp)
    (source : SnapshotSource)
    → let u = copy_inbound_mirror_from_snap title body assignees closed t in
      (superseded_inbound_fields u title body assignees closed ≡ [])
      × (copy_inbound_mirror_from_snap title body assignees closed u ≡ u)
      × (inbound_mirrors_baseline title body assignees closed (snapshot_view at source u) ≡ true)
unfolding copy_inbound_mirror_from_snap superseded_inbound_fields inbound_mirrors_baseline
    snapshot_view
copy-settles t title body assignees closed at source =
    let same = assignees_equal_refl assignees in
    (ground (arith, same), ground arith, ground (arith, same))

-- An observation that mirrors the baseline of a task in step with it supersedes none of its fields.
mirrored-superseded :
    (t : Task) (b : TaskSnapshot) (title body : Text) (assignees : List Text) (closed : Bool)
    → is_dirty t b ≡ false
    → inbound_mirrors_baseline title body assignees closed b ≡ true
    → superseded_inbound_fields t title body assignees closed ≡ []
unfolding is_dirty superseded_inbound_fields inbound_mirrors_baseline
mirrored-superseded t b title body assignees closed d m = ground (
  arith,
  assignees_equal_trans t.assignees b.assignees assignees,
  assignees_equal-sym assignees b.assignees,
)
