-- ===== src/Repo/Naming/Prefixes.antt =====
-- Every derived prefix is valid: crates/domain-repo/src/naming.rs.
use repo_link.Prelude.{true, [], ◌∷◌, ◌≡◌, refl, arith, map, retain, all, length}
use repo_link.Prelude.Text.{
  Text, is_ascii_lowercase, is_ascii_uppercase, is_ascii_alphabetic, to_ascii_lowercase,
}
use repo_link.Repo.Naming.{pad, derive_prefix, is_valid_prefix, raw_prefix, segments_of}

lowered :
    (s : Text)
    → all is_ascii_lowercase (retain is_ascii_alphabetic (map to_ascii_lowercase s)) ≡ true
unfolding all retain is_ascii_alphabetic to_ascii_lowercase is_ascii_lowercase is_ascii_uppercase
lowered [] = refl
lowered (c ∷ s) = ground (arith, lowered s)

pad-valid :
    (s : Text)
    → all is_ascii_lowercase s ≡ true
    → (length (pad s) ≡ 3) × (is_valid_prefix (pad s) ≡ true)
unfolding pad is_valid_prefix all is_ascii_lowercase
pad-valid [] h = ground arith
pad-valid (a ∷ []) h = ground arith
pad-valid (a ∷ b ∷ []) h = ground arith
pad-valid (a ∷ b ∷ c ∷ s) h = ground arith

-- Whatever the name is, the prefix that is derived from it has three characters and is one that
-- `is_valid_prefix` accepts.
pub derive_prefix-is_valid_prefix :
    (name : Text)
    → (length (derive_prefix name) ≡ 3) × (is_valid_prefix (derive_prefix name) ≡ true)
unfolding derive_prefix
derive_prefix-is_valid_prefix name =
    pad-valid (retain is_ascii_alphabetic (map to_ascii_lowercase (raw_prefix (segments_of name))))
      (lowered (raw_prefix (segments_of name)))
