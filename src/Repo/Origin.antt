-- ===== src/Repo/Origin.antt =====
-- crates/domain-repo/src/origin.rs: the `RepoOrigin` aggregate.
pub mod Handles
use repo_link.Prelude.{
  Bool, true, false, not, ◌&&◌, ◌||◌, Option, none, some, List, [], ◌∷◌, ◌++◌, if◌then◌else◌, ◌==◌,
  nat_eq, list_eq, contains, retain, length,
}
use repo_link.Prelude.Text.{Text, trim, is_empty}
use repo_link.Core.{RepoOriginId, Timestamp, Result, ok, err, validation}
use repo_link.Task.State.{is_blank}
use repo_link.Repo.Naming.{derive_name, derive_prefix, is_valid_prefix}

pub record RepoOrigin : Type 0 where
  pub id : RepoOriginId
  pub canonical_url : Text
  pub remote_url : Text
  pub name : Text
  pub aliases : List Text
  pub prefix : Text
  pub created_at : Timestamp
  pub updated_at : Timestamp

-- `RepoOrigin::touch`
abbrev pub touch : Timestamp → RepoOrigin → RepoOrigin
touch now o = record o { updated_at = now }

-- `RepoOrigin::new`, with the fresh identifier `id`.
unfoldable pub new : RepoOriginId → Timestamp → Text → Text → Result RepoOrigin
unfolding derive_name derive_prefix
new id now remote_url canonical_url =
    if is_blank remote_url
    then err validation
    else if is_blank canonical_url
    then err validation
    else if is_blank (derive_name canonical_url)
    then err validation
    else ok (record {
      id = id;
      canonical_url = canonical_url;
      remote_url = remote_url;
      name = derive_name canonical_url;
      aliases = [];
      prefix = derive_prefix (derive_name canonical_url);
      created_at = now;
      updated_at = now;
    })

-- `RepoOrigin::set_prefix`
unfoldable pub set_prefix : Timestamp → Text → RepoOrigin → RepoOrigin × Result (Unit {0})
unfolding is_valid_prefix
set_prefix now p o =
    if not (is_valid_prefix p)
    then (o, err validation)
    else if o.prefix == p
    then (o, ok tt)
    else (touch now (record o { prefix = p }), ok tt)

-- `is_id` says that a text parses as a `RepoOriginId`, which is a UUID.
module _ (is_id : Text → Bool) where
  -- `RepoOrigin::set_name`
  unfoldable pub set_name : Timestamp → Text → RepoOrigin → RepoOrigin × Result (Unit {0})
  set_name now s o =
      let trimmed = trim s in
      if is_empty trimmed
      then (o, err validation)
      else if is_id trimmed
      then (o, err validation)
      else if contains o.aliases trimmed
      then (o, err validation)
      else if o.name == trimmed
      then (o, ok tt)
      else (touch now (record o { name = trimmed }), ok tt)

  -- `RepoOrigin::add_alias`: whether the alias was added.
  unfoldable pub add_alias : Timestamp → Text → RepoOrigin → RepoOrigin × Result Bool
  add_alias now s o =
      let trimmed = trim s in
      if is_empty trimmed
      then (o, err validation)
      else if is_id trimmed
      then (o, err validation)
      else if trimmed == o.name
      then (o, err validation)
      else if contains o.aliases trimmed
      then (o, ok false)
      else (touch now (record o { aliases = o.aliases ++ trimmed ∷ [] }), ok true)

-- `RepoOrigin::remove_alias`: whether the alias was there.
unfoldable pub remove_alias : Timestamp → Text → RepoOrigin → RepoOrigin × Bool
remove_alias now s o =
    let kept = retain (λ a. not (a == s)) o.aliases in
    let removed = not (length kept == length o.aliases) in
    let o' = record o { aliases = kept } in (if removed then touch now o' else o', removed)
