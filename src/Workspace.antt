-- ===== src/Workspace.antt =====
-- crates/domain-workspace: the workspace aggregate, its name and its lifecycle.
pub mod Laws
use repo_link.Prelude.{
  ℕ, Bool, true, false, not, ◌&&◌, ◌||◌, Option, none, some, if◌then◌else◌, ltb, Eq, ◌==◌, nat_eq,
  all,
}
use repo_link.Prelude.Text.{Text, trim, is_empty, len, is_ascii_alphabetic, is_ascii_digit}
use repo_link.Core.{WorkspaceId, RepoId, Timestamp, Result, ok, err, transition, validation}

pub data WorkspaceStatus : Type 0 where
  created active paused archived deleted : WorkspaceStatus

unfoldable pub WorkspaceStatus-discrete : Discrete WorkspaceStatus
WorkspaceStatus-discrete = hlevel

instance abbrev pub workspace_status_eq : Eq WorkspaceStatus
workspace_status_eq = record { dec_eq = WorkspaceStatus-discrete }

-- `c.is_ascii_alphanumeric() || matches!(c, '-' | '_' | ' ')`
unfoldable pub is_name_char : ℕ → Bool
unfolding is_ascii_alphabetic is_ascii_digit
is_name_char c = is_ascii_alphabetic c || is_ascii_digit c || c == b'-' || c == b'_' || c == b' '

-- `WorkspaceName::new`
unfoldable pub new_name : Text → Result Text
unfolding is_name_char
new_name s =
    let trimmed = trim s in
    if is_empty trimmed || ltb 128 (len trimmed)
    then err validation
    else if not (all is_name_char trimmed)
    then err validation
    else ok trimmed

pub record Workspace : Type 0 where
  pub id : WorkspaceId
  pub name : Text
  pub description : Option Text
  pub status : WorkspaceStatus
  pub local_only : Bool
  pub project_id : Option Text
  pub filing_repo_id : Option RepoId
  pub default_issue_type : Option Text
  pub default_sub_issue_type : Option Text
  pub created_at : Timestamp
  pub updated_at : Timestamp

abbrev pub touch : Timestamp → Workspace → Workspace
touch now w = record w { updated_at = now }

-- `Workspace::new`, with the fresh identifier `id`.
unfoldable pub new : WorkspaceId → Timestamp → Text → Option Text → Bool → Workspace
new id now name description local_only = record {
  id = id;
  name = name;
  description = description;
  status = created;
  local_only = local_only;
  project_id = none;
  filing_repo_id = none;
  default_issue_type = none;
  default_sub_issue_type = none;
  created_at = now;
  updated_at = now;
}

abbrev pub Outcome : Type 0
Outcome = Workspace × Result (Unit {0})

unfoldable pub can_activate : WorkspaceStatus → Bool
can_activate created = true
can_activate paused = true
can_activate _ = false

unfoldable pub can_archive : WorkspaceStatus → Bool
can_archive created = true
can_archive active = true
can_archive paused = true
can_archive _ = false

-- `Workspace::activate`, `pause`, `archive` and `unarchive`
unfoldable pub activate : Timestamp → Workspace → Outcome
unfolding can_activate
activate now w =
    if can_activate w.status
    then (touch now (record w { status = active }), ok tt)
    else (w, err transition)

unfoldable pub pause : Timestamp → Workspace → Outcome
pause now w =
    if w.status == active
    then (touch now (record w { status = paused }), ok tt)
    else (w, err transition)

unfoldable pub archive : Timestamp → Workspace → Outcome
unfolding can_archive
archive now w =
    if can_archive w.status
    then (touch now (record w { status = archived }), ok tt)
    else (w, err transition)

unfoldable pub unarchive : Timestamp → Workspace → Outcome
unarchive now w =
    if w.status == archived
    then (touch now (record w { status = active }), ok tt)
    else (w, err transition)

-- `Workspace::set_filing_repo_id`, `set_default_issue_types` and `edit`
unfoldable pub set_filing_repo_id : Timestamp → Option RepoId → Workspace → Workspace
set_filing_repo_id now r w = touch now (record w { filing_repo_id = r })

unfoldable pub set_default_issue_types :
    Timestamp → Option Text → Option Text → Workspace → Workspace
set_default_issue_types now standalone sub_issue w =
    touch now (record w { default_issue_type = standalone; default_sub_issue_type = sub_issue })

unfoldable pub edit : Timestamp → Option Text → Option Text → Workspace → Workspace
edit now name description w = touch now (record w {
  name = elim name [ some n ↦ n | none ↦ w.name ];
  description = elim description [ some d ↦ some d | none ↦ w.description ];
})
