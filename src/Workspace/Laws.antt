-- ===== src/Workspace/Laws.antt =====
-- The lifecycle of a workspace, and its name: crates/domain-workspace/src/workspace.rs and name.rs.
use repo_link.Prelude.{◌≤◌, true, false, ◌≡◌, refl, arith, all, nat_eq}
use repo_link.Prelude.Text.{Text, trim, is_empty, len}
use repo_link.Prelude.Trim.{trim-trim}
use repo_link.Core.{Timestamp, ok, err, transition}
use repo_link.Workspace.{
  Workspace, WorkspaceStatus, created, active, paused, archived, deleted, new_name, is_name_char,
  Outcome,
}
use repo_link.Workspace

pub data Command : Type 0 where
  activate pause archive unarchive : Command

unfoldable pub step : Timestamp → Command → Workspace → Outcome
step now Command.activate w = Workspace.activate now w
step now Command.pause w = Workspace.pause now w
step now Command.archive w = Workspace.archive now w
step now Command.unarchive w = Workspace.unarchive now w

-- The lifecycle of a workspace.
infix 40 ◌⟶⟨◌⟩◌
pub data ◌⟶⟨◌⟩◌ : WorkspaceStatus → Command → WorkspaceStatus → Type 0 where
  open_new : created ⟶⟨ Command.activate ⟩ active
  resume : paused ⟶⟨ Command.activate ⟩ active
  rest : active ⟶⟨ Command.pause ⟩ paused
  shelve_new : created ⟶⟨ Command.archive ⟩ archived
  shelve_active : active ⟶⟨ Command.archive ⟩ archived
  shelve_paused : paused ⟶⟨ Command.archive ⟩ archived
  restore : archived ⟶⟨ Command.unarchive ⟩ active

ruleset edges = (open_new, resume, rest, shelve_new, shelve_active, shelve_paused, restore)

edge-admitted :
    (now : Timestamp) (c : Command) (w : Workspace) {s u : WorkspaceStatus}
    → s ⟶⟨ c ⟩ u
    → w.status ≡ s
    → ((step now c w).1 ≡ ok tt) × ((step now c w).0.status ≡ u)
unfolding step Workspace.activate Workspace.pause Workspace.archive Workspace.unarchive
edge-admitted now c w open_new e = ground arith
edge-admitted now c w resume e = ground arith
edge-admitted now c w rest e = ground arith
edge-admitted now c w shelve_new e = ground arith
edge-admitted now c w shelve_active e = ground arith
edge-admitted now c w shelve_paused e = ground arith
edge-admitted now c w restore e = ground arith

-- A command succeeds exactly along the edges of the lifecycle, each of which it then takes; where
-- there is no edge it leaves the workspace as it was, with an error.
pub step-edge :
    (now : Timestamp) (c : Command) (w : Workspace)
    → ((step now c w).1 ≡ ok tt → w.status ⟶⟨ c ⟩ (step now c w).0.status)
      × ((u : WorkspaceStatus)
          → w.status ⟶⟨ c ⟩ u
          → ((step now c w).1 ≡ ok tt) × ((step now c w).0.status ≡ u))
      × ((step now c w).1 ≡ err transition → (step now c w).0 ≡ w)
unfolding step Workspace.activate Workspace.pause Workspace.archive Workspace.unarchive
step-edge now Command.activate w =
    (λ h. grind (arith, edges), λ u e. edge-admitted now Command.activate w e refl, ground arith)
step-edge now Command.pause w =
    (λ h. grind (arith, edges), λ u e. edge-admitted now Command.pause w e refl, ground arith)
step-edge now Command.archive w =
    (λ h. grind (arith, edges), λ u e. edge-admitted now Command.archive w e refl, ground arith)
step-edge now Command.unarchive w =
    (λ h. grind (arith, edges), λ u e. edge-admitted now Command.unarchive w e refl, ground arith)

-- A name that is accepted has between 1 and 128 bytes, all of them of the allowed characters and
-- none of them an outer space, and is accepted again as it is.
new_name_lem :
    (s n : Text)
    → new_name s ≡ ok n
    → (is_empty n ≡ false)
      × (len n ≤ 128)
      × (all is_name_char n ≡ true)
      × (n ≡ trim s)
      × (new_name n ≡ ok n)
unfolding new_name
new_name_lem s n h = ground (arith, trim-trim s)
