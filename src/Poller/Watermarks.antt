-- ===== src/Poller/Watermarks.antt =====
-- How a pass moves the watermarks: crates/application-sync/src/poller.rs.
use repo_link.Prelude.{
  ◌+◌, ◌-◌, ◌≤◌, ◌<◌, Bool, true, false, Option, none, some, List, [], ◌∷◌, ◌≡◌, ◌≢◌, ◌⊎◌, refl,
  sym, ap, ◌∙◌, arith, subst, ltb, ◌==◌, nat_eq, list_eq, Bool-cases, inl, inr, length,
}
use repo_link.Prelude.Text.{Text}
use repo_link.Core.{Timestamp}
use repo_link.Task.State.{Task}
use repo_link.Project.Board.{Project}
use repo_link.Project.Board.FieldIds.{status_field_id}
use repo_link.OutboxRepo.{Table}
use repo_link.TaskRepo.{TaskStore}
use repo_link.Poller.{RemoteProjectItem, PollPage}
use repo_link.Poller.Maps.{entry, put, entry-put, entry-put_other}
use repo_link.Poller.Pass.{
  Env, PollState, watermark, matched, reconcile_item, reconcile_if, stamp_if, or_epoch, poll_query,
  reconcile_items, max_seen, advanced, page_end, polled, poll_field, poll_project, poll_projects,
  is_observed, project_of, stamp, stamp_all, started, poll_once,
}

matched_watermarks :
    (o : Table) (p : Project) (item : RemoteProjectItem) (s : PollState) (t : Option Task)
    → (matched o p item s t).watermarks ≡ s.watermarks
unfolding matched
matched_watermarks o p item s none = refl
matched_watermarks o p item s (some t) = refl

if_watermarks :
    (o : Table) (p : Project) (item : RemoteProjectItem) (b : Bool) (s : PollState)
    → (reconcile_if o p item b s).watermarks ≡ s.watermarks
unfolding reconcile_if reconcile_item
if_watermarks o p item false s = refl
if_watermarks o p item true s = matched_watermarks o p item s (entry item.item_node_id s.index)

items_watermarks :
    (o : Table) (p : Project) (since : Timestamp) (items : List RemoteProjectItem) (s : PollState)
    → (reconcile_items o p since items s).watermarks ≡ s.watermarks
unfolding reconcile_items
items_watermarks o p since [] s = refl
items_watermarks o p since (item ∷ items) s =
    items_watermarks o p since items (reconcile_if o p item (ltb since item.updated_at) s)
    ∙ if_watermarks o p item (ltb since item.updated_at) s

stamp_watermarks :
    (env : Env) (t : Task) (b : Bool) (s : PollState)
    → (stamp_if env t b s).watermarks ≡ s.watermarks
unfolding stamp_if stamp
stamp_watermarks env t false s = refl
stamp_watermarks env t true s = refl

stamps_watermarks :
    (env : Env) (index : List (Text × Task)) (s : PollState)
    → (stamp_all env index s).watermarks ≡ s.watermarks
unfolding stamp_all
stamps_watermarks env [] s = refl
stamps_watermarks env ((k, t) ∷ index) s =
    stamps_watermarks env index _
    ∙ stamp_watermarks env t (is_observed s.completed (project_of env t.workspace_id)) s

advanced-ge : (since newest : Timestamp) → since ≤ advanced since newest
unfolding advanced
advanced-ge since newest = ground arith

advanced-lt : (since newest : Timestamp) → since < newest → advanced since newest < newest
unfolding advanced
advanced-lt since newest l = ground arith

advanced-near : (since newest : Timestamp) → newest ≤ advanced since newest + 1000000000
unfolding advanced
advanced-near since newest = ground arith

advanced-cases :
    (since newest : Timestamp)
    → (advanced since newest ≡ since) ⊎ (advanced since newest + 1000000000 ≡ newest)
unfolding advanced
advanced-cases since newest = elim (Bool-cases (ltb since (newest - 1000000000))) [
  | inl y ↦ inr (ground arith)
  | inr n ↦ inl (ground arith)
]

watermark-put :
    (k : Text) (at : Timestamp) (ws : List (Text × Timestamp)) → watermark k (put k at ws) ≡ at
unfolding watermark
watermark-put k at ws = ap or_epoch (entry-put k at ws)

watermark-put' :
    (k j : Text) (at : Timestamp) (ws : List (Text × Timestamp))
    → watermark k ws ≤ at
    → watermark j ws ≤ watermark j (put k at ws)
unfolding watermark
watermark-put' k j at ws l = elim (Bool-cases (k == j)) [
  | inl y ↦
      let e : k ≡ j = ground arith in
      subst (λ (i : Text). watermark i ws ≤ watermark i (put k at ws)) e
        (subst (λ n. watermark k ws ≤ n) (sym (watermark-put k at ws)) l)
  | inr n ↦
      let d : k ≢ j = ground arith in
      subst (λ o. watermark j ws ≤ or_epoch o) (sym (entry-put_other k j at ws d)) (omega arith)
]

page_end-ge :
    (p : Project) (truncated : Bool) (since newest : Timestamp) (s : PollState) (j : Text)
    → watermark p.id s.watermarks ≡ since
    → watermark j s.watermarks ≤ watermark j (page_end p truncated since newest s).watermarks
unfolding page_end
page_end-ge p true since newest s j e = omega arith
page_end-ge p false since newest s j e = elim (Bool-cases (ltb since newest)) [
  | inl y ↦
      let up : watermark p.id s.watermarks ≤ advanced since newest =
        rw (e) (advanced-ge since newest) in
      rw (y) (watermark-put' p.id j (advanced since newest) s.watermarks up)
  | inr n ↦ rw (n) (omega arith)
]

polled-ge :
    (env : Env) (p : Project) (page : Option PollPage) (s : PollState) (j : Text)
    → watermark j s.watermarks ≤ watermark j (polled env p page s).watermarks
unfolding polled
polled-ge env p none s j = omega arith
polled-ge env p (some page) s j =
    let since = watermark p.id s.watermarks in
    let s' = record s {
      report = record (s.report) { items_seen = s.report.items_seen + length page.items };
    } in
    let same = items_watermarks env.outbox p since page.items s' in
    subst (λ ws. watermark j ws ≤ watermark j (polled env p (some page) s).watermarks) same
      (page_end-ge p page.truncated since (max_seen since page.items)
        (reconcile_items env.outbox p since page.items s') j (rw (same) refl))

field-ge :
    (env : Env) (p : Project) (s : PollState) (field_id : Option Text) (j : Text)
    → watermark j s.watermarks ≤ watermark j (poll_field env p s field_id).watermarks
unfolding poll_field
field-ge env p s none j = omega arith
field-ge env p s (some field_id) j =
    polled-ge env p (env.poll_project_items p.id field_id poll_query)
      (record s { report = record (s.report) { projects_polled = s.report.projects_polled + 1 } }) j

projects-ge :
    (env : Env) (ps : List Project) (s : PollState) (j : Text)
    → watermark j s.watermarks ≤ watermark j (poll_projects env ps s).watermarks
unfolding poll_projects poll_project
projects-ge env [] s j = omega arith
projects-ge env (p ∷ ps) s j =
    omega
      (arith, field-ge env p s (status_field_id p) j, projects-ge env ps (poll_project env p s) j)

-- No pass moves the watermark of a board back, whatever the boards hold and the provider answers.
pub poll_once-ge :
    (env : Env) (tasks : TaskStore) (watermarks : List (Text × Timestamp)) (id : Text)
    → watermark id watermarks ≤ watermark id (poll_once env tasks watermarks).watermarks
unfolding poll_once
poll_once-ge env tasks watermarks id =
    let s = poll_projects env env.projects (started env tasks watermarks) in
    rw (stamps_watermarks env s.index s)
      (projects-ge env env.projects (started env tasks watermarks) id)

-- A complete page with an item that is newer than the watermark moves the watermark to one second
-- before the newest item, and never back: it stays where this is no progress. It is then still
-- before the newest item, so that an item of that instant is newer than it, and no more than a
-- second behind.
pub polled-watermark :
    (env : Env) (p : Project) (page : PollPage) (s : PollState)
    → page.truncated ≡ false
    → watermark p.id s.watermarks < max_seen (watermark p.id s.watermarks) page.items
    → let since = watermark p.id s.watermarks in
      let newest = max_seen since page.items in
      let after = watermark p.id (polled env p (some page) s).watermarks in
      (since ≤ after)
      × (after < newest)
      × (newest ≤ after + 1000000000)
      × ((after ≡ since) ⊎ (after + 1000000000 ≡ newest))
unfolding polled page_end
polled-watermark env p page s whole newer =
    let since = watermark p.id s.watermarks in
    let newest = max_seen since page.items in
    let is_newer : ltb since newest ≡ true = ground arith in
    rw (whole, is_newer, watermark-put p.id (advanced since newest) _)
      (
        advanced-ge since newest,
        advanced-lt since newest newer,
        advanced-near since newest,
        advanced-cases since newest,
      )
