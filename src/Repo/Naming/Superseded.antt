-- ===== src/Repo/Naming/Superseded.antt =====
-- Which prefixes count as superseded: crates/domain-repo/src/naming.rs.
use repo_link.Prelude.{
  ◌+◌, ◌≤◌, true, some, [], ◌∷◌, ◌++◌, ◌≡◌, ◌≢◌, ◌↔◌, refl, ap, ◌∙◌, arith, all, nat_eq,
  Option-cases, inl, inr,
}
use repo_link.Prelude.Text.{Text, is_empty, len, len_utf8, is_ascii_digit}
use repo_link.Repo.Naming.{strip_prefix, is_superseded_prefix}

strip_prefix-append : (base s : Text) → strip_prefix base (base ++ s) ≡ some s
unfolding strip_prefix
strip_prefix-append [] s = refl
strip_prefix-append (b ∷ bs) s = ground (arith, strip_prefix-append bs s)

strip_prefix-some : (base s t : Text) → strip_prefix base s ≡ some t → s ≡ base ++ t
unfolding strip_prefix
strip_prefix-some [] s t h = ground arith
strip_prefix-some (b ∷ bs) [] t h = ground arith
strip_prefix-some (b ∷ bs) (c ∷ s) t h = ground (arith, strip_prefix-some bs s t)

len-append : (s t : Text) → len (s ++ t) ≡ len s + len t
unfolding len
len-append [] t = omega arith
len-append (c ∷ s) t = ground (arith, len-append s t)

len-positive : (s : Text) → (s ≡ [] → len s ≡ 0) × (s ≢ [] → 1 ≤ len s)
unfolding len len_utf8
len-positive [] = ground arith
len-positive (c ∷ s) = ground arith

-- What the base is followed by.
abbrev pub AreDigits : Text → Type 0
AreDigits digits = (digits ≢ []) × (all is_ascii_digit digits ≡ true)

superseded_by :
    (input base : Text)
    → is_superseded_prefix input base ≡ true
    → (digits : Text) × (input ≡ base ++ digits) × (base ≢ []) × AreDigits digits
unfolding is_superseded_prefix is_empty
superseded_by input [] h = ground arith
superseded_by input (b ∷ bs) h = elim (Option-cases (strip_prefix (b ∷ bs) input)) [
  | inl n ↦ ground arith
  | inr (t, e) ↦
      let spelled = strip_prefix-some (b ∷ bs) input t e in
      let longer : len input ≡ len (b ∷ bs) + len t = ap len spelled ∙ len-append (b ∷ bs) t in
      (t, spelled, (λ k. cc), ((λ k. ground (arith, longer, (len-positive t).0 k)), ground arith))
]

supersedes :
    (base digits : Text)
    → base ≢ []
    → AreDigits digits
    → is_superseded_prefix (base ++ digits) base ≡ true
unfolding is_superseded_prefix is_empty
supersedes [] digits n d = absurd (n refl)
supersedes (b ∷ bs) digits n (m, d) = ground (
  arith,
  strip_prefix-append (b ∷ bs) digits,
  len-append (b ∷ bs) digits,
  (len-positive digits).1 m,
)

-- A prefix is superseded by a base exactly when the base is not empty and the prefix is the base
-- followed by at least one digit and nothing but digits.
is_superseded_prefix_lem :
    (input base : Text)
    → is_superseded_prefix input base ≡ true
      ↔ ((digits : Text) × (input ≡ base ++ digits) × (base ≢ []) × AreDigits digits)
is_superseded_prefix_lem input base =
    (superseded_by input base, λ (d, e, n, a). rw e (supersedes base d n a))
