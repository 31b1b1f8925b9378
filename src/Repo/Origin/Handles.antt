-- ===== src/Repo/Origin/Handles.antt =====
-- The handles of a repo stay unambiguous: crates/domain-repo/src/origin.rs.
use repo_link.Prelude.{
  Bool, true, false, not, List, [], ◌∷◌, ◌≡◌, refl, arith, ◌==◌, nat_eq, list_eq, contains, all,
  pairwise, pairwise-snoc, pairwise-retain, all-append, all-retain,
}
use repo_link.Prelude.Text.{Text, trim}
use repo_link.Core.{RepoOriginId, Timestamp, ok}
use repo_link.Repo.Naming.{derive_name, is_valid_prefix}
use repo_link.Repo.Naming.Prefixes.{derive_prefix-is_valid_prefix}
use repo_link.Repo.Origin.{RepoOrigin, new, set_prefix, set_name, add_alias, remove_alias}

-- The prefix is valid, no alias is the name, and no two aliases are the same.
pub record IsClear (o : RepoOrigin) : Type 0 where
  pub prefixed : is_valid_prefix o.prefix ≡ true
  pub unmasked : all (λ a. not (a == o.name)) o.aliases ≡ true
  pub distinct : pairwise (λ a b. not (a == b)) o.aliases ≡ true

absent : (s : Text) (xs : List Text) → contains xs s ≡ false → all (λ a. not (a == s)) xs ≡ true
unfolding contains all
absent s [] h = refl
absent s (a ∷ xs) h = ground (arith, absent s xs)

module _ (is_id : Text → Bool) where
  -- A call of a method that changes the handles.
  pub data Call : Type 0 where
    prefix name alias unalias : Text → Call

  unfoldable pub call : Timestamp → Call → RepoOrigin → RepoOrigin
  unfolding set_prefix set_name add_alias remove_alias
  call now (prefix p) o = (set_prefix now p o).0
  call now (name s) o = (set_name is_id now s o).0
  call now (alias s) o = (add_alias is_id now s o).0
  call now (unalias s) o = (remove_alias now s o).0

  call-IsClear : (now : Timestamp) (c : Call) (o : RepoOrigin) → IsClear o → IsClear (call now c o)
  unfolding call all
  call-IsClear now (prefix p) o h = grind arith
  call-IsClear now (name s) o h = grind (arith, absent (trim s) o.aliases)
  call-IsClear now (alias s) o h = grind (
    arith,
    absent (trim s) o.aliases,
    pairwise-snoc (λ a b. not (a == b)) o.aliases (trim s),
    all-append (λ a. not (a == o.name)) o.aliases (trim s ∷ []),
  )
  call-IsClear now (unalias s) o h = grind (
    arith,
    pairwise-retain (λ a b. not (a == b)) (λ a. not (a == s)) o.aliases,
    all-retain (λ a. not (a == o.name)) (λ a. not (a == s)) o.aliases,
  )

  unfoldable pub calls : List (Timestamp × Call) → RepoOrigin → RepoOrigin
  unfolding call
  calls [] o = o
  calls ((now, c) ∷ cs) o = calls cs (call now c o)

  calls_keep : (cs : List (Timestamp × Call)) (o : RepoOrigin) → IsClear o → IsClear (calls cs o)
  unfolding calls
  calls_keep [] o h = h
  calls_keep ((now, c) ∷ cs) o h = calls_keep cs (call now c o) (call-IsClear now c o h)

  -- After any calls, failed ones included, on an origin that `new` made, its prefix is valid, no
  -- alias is its name, and no two aliases are the same.
  calls-IsClear :
      (id : RepoOriginId) (now : Timestamp) (remote_url canonical_url : Text) (o : RepoOrigin)
      (cs : List (Timestamp × Call))
      → new id now remote_url canonical_url ≡ ok o
      → IsClear (calls cs o)
  unfolding new all pairwise
  calls-IsClear id now remote_url canonical_url o cs h =
      calls_keep cs o (grind (arith, derive_prefix-is_valid_prefix (derive_name canonical_url)))
