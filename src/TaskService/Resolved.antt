-- ===== src/TaskService/Resolved.antt =====
-- The task that a text names: crates/application-task/src/service.rs and dto.rs.
use repo_link.Prelude.{
  true, false, not, ◌||◌, Option, none, some, [], ◌∷◌, ◌++◌, ◌≡◌, refl, arith, sym, subst, ap, ◌∙◌,
  if◌then◌else◌, ◌==◌, nat_eq, list_eq, find, all, Bool-cases, inl, inr,
}
use repo_link.Prelude.Text.{Text, is_empty, is_ascii_lowercase}
use repo_link.Core.{TaskId}
use repo_link.Task.State.{Task}
use repo_link.Task.Hash.{is_valid_hash, is_base32}
use repo_link.Repo.Naming.{is_valid_prefix, is_superseded_prefix}
use repo_link.TaskRepo.{TaskStore, get, get_row, find_by_hash, hydrate}
use repo_link.TaskRepo.Saved.{get-id, found-some}
use repo_link.TaskRepo.Lookup.{find-apart, same_hash}
use repo_link.TaskRepo.Unique.{is_unique}
use repo_link.TaskService.{
  done, failed, or_fail, not_found, prefix_mismatch, Directory, actual_prefix, check_prefix,
  rsplit_once, by_hash, by_composite, by_parts, by_id, resolve_task, assemble_task_display_id,
}
use repo_link.TaskService.Answers.{bind-done, unless-done, or_fail-done}

reread : (id : TaskId) (s : TaskStore) (t : Task) → get id s ≡ some t → get t.id s ≡ some t
reread id s t h = subst (λ i. get i s ≡ some t) (sym (get-id id s t h)) h

get_row-get :
    (o : Option Task) (s : TaskStore) (t : Task) → get_row o s ≡ some t → get t.id s ≡ some t
unfolding get_row
get_row-get none s t h = absurd (ground arith)
get_row-get (some r) s t h = reread r.id s t h

found_by_hash :
    (hash : Text) (s : TaskStore) (t : Task) → find_by_hash hash s ≡ some t → get t.id s ≡ some t
unfolding find_by_hash
found_by_hash hash s t h = elim (Bool-cases (is_empty hash)) [
  | inl e ↦ absurd (ground arith)
  | inr f ↦ get_row-get (find (λ r. r.hash == hash) s.rows) s t (ground arith)
]

checked-same :
    (dir : Directory) (input : Text) (t u : Task) → check_prefix dir input t ≡ done u → t ≡ u
unfolding check_prefix
checked-same dir input t u h =
    let (actual, a, b) =
      bind-done (actual_prefix dir t)
        (λ actual.
          if actual == input || is_superseded_prefix input actual
          then done t
          else failed prefix_mismatch)
        u h in
    elim (Bool-cases (actual == input || is_superseded_prefix input actual)) [
      | inl e ↦ ground arith
      | inr f ↦ absurd (ground arith)
    ]

hash_named :
    (dir : Directory) (hash : Text) (s : TaskStore) (t : Task)
    → by_hash dir hash s ≡ done t
    → get t.id s ≡ some t
unfolding by_hash
hash_named dir hash s t h =
    let (valid, g) = unless-done (not (is_valid_hash hash)) _ _ _ h in
    found_by_hash hash s t (or_fail-done not_found _ t g)

composite_named :
    (dir : Directory) (prefix hash : Text) (s : TaskStore) (t : Task)
    → by_composite dir prefix hash s ≡ done t
    → get t.id s ≡ some t
unfolding by_composite
composite_named dir prefix hash s t h =
    let (valid, g) =
      unless-done (not (is_valid_hash hash) || not (is_valid_prefix prefix)) _ _ _ h in
    let (u, a, b) =
      bind-done (or_fail not_found (find_by_hash hash s)) (check_prefix dir prefix) t g in
    let found = found_by_hash hash s u (or_fail-done not_found _ u a) in
    subst (λ (z : Task). get z.id s ≡ some z) (checked-same dir prefix u t b) found

parts_named :
    (dir : Directory) (query : Text) (o : Option (Text × Text)) (s : TaskStore) (t : Task)
    → by_parts dir query o s ≡ done t
    → get t.id s ≡ some t
unfolding by_parts
parts_named dir query none s t h = hash_named dir query s t h
parts_named dir query (some (prefix, hash)) s t h = composite_named dir prefix hash s t h

id_named :
    (dir : Directory) (query : Text) (o : Option TaskId) (s : TaskStore) (t : Task)
    → by_id dir query o s ≡ done t
    → get t.id s ≡ some t
unfolding by_id
id_named dir query none s t h = parts_named dir query (rsplit_once b'-' query) s t h
id_named dir query (some id) s t h = reread id s t (or_fail-done not_found _ t h)

-- A task that a text names is one that reads back by its identifier.
pub resolve_task-get :
    (parse : Text → Option TaskId) (dir : Directory) (query : Text) (s : TaskStore) (t : Task)
    → resolve_task parse dir query s ≡ done t
    → get t.id s ≡ some t
unfolding resolve_task
resolve_task-get parse dir query s t h = id_named dir query (parse query) s t h

no_dash : (h : Text) → all is_base32 h ≡ true → rsplit_once b'-' h ≡ none
unfolding rsplit_once all is_base32 is_ascii_lowercase
no_dash [] a = refl
no_dash (c ∷ h) a = let rest = no_dash h (ground arith) in ground arith

split_composite :
    (p h : Text) → rsplit_once b'-' h ≡ none → rsplit_once b'-' (p ++ b'-' ∷ h) ≡ some (p, h)
unfolding rsplit_once
split_composite [] h e = ground arith
split_composite (c ∷ p) h e = let rest = split_composite p h e in ground arith

found_hash :
    (s : TaskStore) (t : Task)
    → is_unique s.rows ≡ true
    → get t.id s ≡ some t
    → is_empty t.hash ≡ false
    → find_by_hash t.hash s ≡ some t
unfolding find_by_hash get hydrate get_row
found_hash s t u h n =
    let (r, e, d) = found-some (find (λ x. x.id == t.id) s.rows) _ t h in
    let hash : r.hash ≡ t.hash = ap (λ (z : Task). z.hash) (sym d) in
    let found =
      find-apart (λ z. z.hash == t.hash) t.id s.rows r u e (ground arith)
        (λ y c. same_hash t.hash r y hash n c) in
    rw (n, found) (subst (λ i. get i s ≡ some t) (ap (λ (z : Task). z.id) d) h)

valid_letters :
    (h : Text) → is_valid_hash h ≡ true → (all is_base32 h ≡ true) × (is_empty h ≡ false)
unfolding is_valid_hash is_empty
valid_letters [] v = ground arith
valid_letters (c ∷ h) v = (ground arith, refl)

same_prefix :
    (dir : Directory) (t : Task) (p : Text)
    → actual_prefix dir t ≡ done p
    → check_prefix dir p t ≡ done t
unfolding check_prefix
same_prefix dir t p a = rw a (ground arith)

composite_found :
    (dir : Directory) (s : TaskStore) (t : Task) (p : Text)
    → is_valid_hash t.hash ≡ true
    → (is_empty p || is_valid_prefix p) ≡ true
    → is_empty p ≡ false
    → find_by_hash t.hash s ≡ some t
    → actual_prefix dir t ≡ done p
    → by_composite dir p t.hash s ≡ done t
unfolding by_composite
composite_found dir s t p v w e f a =
    let valid : is_valid_prefix p ≡ true = ground arith in rw (v, valid, f) (same_prefix dir t p a)

-- The text that a task is shown by, which is its hash behind its repo's prefix, if it has one, names
-- that task again: for a task that reads back and has a valid hash, in tables whose unique indexes
-- hold, with a prefix that is valid or empty, and a text that is no UUID.
pub resolve_task-assemble_task_display_id :
    (parse : Text → Option TaskId) (print : TaskId → Text) (dir : Directory) (s : TaskStore)
    (t : Task) (p : Text)
    → is_unique s.rows ≡ true
    → get t.id s ≡ some t
    → is_valid_hash t.hash ≡ true
    → actual_prefix dir t ≡ done p
    → (is_empty p || is_valid_prefix p) ≡ true
    → parse (assemble_task_display_id print t (some p)) ≡ none
    → resolve_task parse dir (assemble_task_display_id print t (some p)) s ≡ done t
unfolding assemble_task_display_id resolve_task by_id by_parts by_hash is_empty
resolve_task-assemble_task_display_id parse print dir s t [] u h v a w n =
    let (letters, full) = valid_letters t.hash v in
    let plain = no_dash t.hash letters in let found = found_hash s t u h full in ground arith
resolve_task-assemble_task_display_id parse print dir s t (c ∷ p) u h v a w n =
    let (letters, full) = valid_letters t.hash v in
    let split = split_composite (c ∷ p) t.hash (no_dash t.hash letters) in
    let found = found_hash s t u h full in
    let shown : assemble_task_display_id print t (some (c ∷ p)) ≡ (c ∷ p) ++ b'-' ∷ t.hash =
      rw full refl in
    let other : parse ((c ∷ p) ++ b'-' ∷ t.hash) ≡ none = ap parse (sym shown) ∙ n in
    rw (shown, other, split) (composite_found dir s t (c ∷ p) v w refl found a)
