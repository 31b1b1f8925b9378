-- ===== src/Repo/Naming.antt =====
-- crates/domain-repo/src/naming.rs: names and prefixes.
pub mod Prefixes
pub mod Superseded
use repo_link.Prelude.{
  ℕ, suc, Bool, true, false, not, ◌&&◌, ◌||◌, Option, none, some, List, [], ◌∷◌, ◌++◌, map,
  if◌then◌else◌, leb, ltb, ◌==◌, nat_eq, list_eq, all, retain, contains, length, unwrap_or,
}
use repo_link.Prelude.Text.{
  Text, codes, is_empty, len, is_ascii_digit, is_ascii_lowercase, is_ascii_alphabetic,
  to_ascii_lowercase,
}

-- The pieces of a text between the characters of a test, empty ones included.
unfoldable pub push_front : ℕ → List Text → List Text
push_front c [] = (c ∷ []) ∷ []
push_front c (w ∷ ws) = (c ∷ w) ∷ ws

unfoldable pub split : (ℕ → Bool) → Text → List Text
unfolding push_front
split p [] = [] ∷ []
split p (c ∷ s) = let rest = split p s in if p c then [] ∷ rest else push_front c rest

-- `iter().next_back()` of the pieces; `w` stands in for none.
unfoldable pub last_piece : Text → List Text → Text
last_piece w [] = w
last_piece w (v ∷ ws) = last_piece v ws

-- `derive_name`
unfoldable pub derive_name : Text → Text
unfolding split last_piece
derive_name url = last_piece url (split (λ c. c == b'/') url)

abbrev pub noise_words : List Text
noise_words =
    codes "app"
    ∷ codes "application"
    ∷ codes "service"
    ∷ codes "svc"
    ∷ codes "server"
    ∷ codes "api"
    ∷ codes "the"
    ∷ []

unfoldable pub is_pure_numeric : Text → Bool
is_pure_numeric s = all is_ascii_digit s

unfoldable pub is_vowel : ℕ → Bool
is_vowel c = contains (codes "aeiou") (to_ascii_lowercase c)

-- `word.chars().skip(1)`
unfoldable pub skip_first : Text → Text
skip_first [] = []
skip_first (c ∷ s) = s

unfoldable pub consonants_after_first : Text → Text
unfolding is_vowel skip_first
consonants_after_first w = retain (λ c. is_ascii_alphabetic c && not (is_vowel c)) (skip_first w)

-- `word.chars().next().unwrap_or(d)`
abbrev pub first_or : ℕ → Text → ℕ
first_or d [] = d
first_or d (c ∷ s) = c

-- Characters are pushed until there are three.
unfoldable pub fill : Text → Text → Text
fill out [] = out
fill out (c ∷ cs) = if leb 3 (length out) then out else fill (out ++ c ∷ []) cs

unfoldable pub prefix_from_single_word : Text → Text
unfolding fill consonants_after_first skip_first
prefix_from_single_word w =
    let result = fill (first_or b'x' w ∷ []) (consonants_after_first w) in
    if ltb (length result) 3
    then fill result (retain is_ascii_alphabetic (skip_first w))
    else result

unfoldable pub prefix_from_two_words : Text → Text → Text
unfolding consonants_after_first skip_first
prefix_from_two_words a b =
    let a_is_longer = leb (len b) (len a) in
    let longer = if a_is_longer then a else b in
    let extra = first_or (first_or b'x' (skip_first longer)) (consonants_after_first longer) in
    if a_is_longer
    then first_or b'x' a ∷ extra ∷ first_or b'x' b ∷ []
    else first_or b'x' a ∷ first_or b'x' b ∷ extra ∷ []

-- The loop variables of `prefix_from_multi_words`.
pub record Picked : Type 0 where
  pub result : Text
  pub seen : Text

-- The first character of `cs` whose lower case was not seen is pushed.
unfoldable pub push_unseen : Text → Picked → Picked
push_unseen [] p = p
push_unseen (c ∷ cs) p =
    if contains p.seen (to_ascii_lowercase c)
    then push_unseen cs p
    else record { result = p.result ++ c ∷ []; seen = p.seen ++ to_ascii_lowercase c ∷ [] }

-- One pass over the segments, with the candidates that each offers, left at three characters.
unfoldable pub pick : (Text → Text) → List Text → Picked → Picked
unfolding push_unseen
pick offer [] p = p
pick offer (s ∷ ss) p =
    if leb 3 (length p.result) then p else pick offer ss (push_unseen (offer s) p)

-- `seg.chars().next()`
unfoldable pub initial : Text → Text
initial [] = []
initial (c ∷ s) = c ∷ []

unfoldable pub prefix_from_multi_words : List Text → Text
unfolding pick initial consonants_after_first
prefix_from_multi_words segments =
    let p = pick initial segments (record { result = []; seen = [] }) in
    if ltb (length p.result) 3 then (pick consonants_after_first segments p).result else p.result

-- The segments that count.
unfoldable pub segments_of : Text → List Text
unfolding split is_pure_numeric
segments_of name =
    retain
      (λ s.
        not (is_empty s)
        && not (is_pure_numeric s)
        && not (contains noise_words (map to_ascii_lowercase s)))
      (split (λ c. c == b'-' || c == b'_' || c == b' ') name)

unfoldable pub raw_prefix : List Text → Text
unfolding prefix_from_single_word prefix_from_two_words prefix_from_multi_words
raw_prefix [] = codes "rlk"
raw_prefix (a ∷ []) = prefix_from_single_word a
raw_prefix (a ∷ b ∷ []) = prefix_from_two_words a b
raw_prefix (a ∷ b ∷ c ∷ ss) = prefix_from_multi_words (a ∷ b ∷ c ∷ ss)

unfoldable pub pad : Text → Text
pad [] = codes "rlk"
pad (a ∷ []) = a ∷ b'x' ∷ b'x' ∷ []
pad (a ∷ b ∷ []) = a ∷ b ∷ b'x' ∷ []
pad (a ∷ b ∷ c ∷ s) = a ∷ b ∷ c ∷ []

-- `derive_prefix`
unfoldable pub derive_prefix : Text → Text
unfolding segments_of raw_prefix pad
derive_prefix name =
    pad (retain is_ascii_alphabetic (map to_ascii_lowercase (raw_prefix (segments_of name))))

-- `is_valid_prefix`
unfoldable pub is_valid_prefix : Text → Bool
is_valid_prefix [] = false
is_valid_prefix (c ∷ s) =
    leb 2 (length (c ∷ s))
    && leb (length (c ∷ s)) 20
    && is_ascii_lowercase c
    && all (λ d. is_ascii_lowercase d || is_ascii_digit d) s

-- `input.starts_with(base)` and what is behind it.
unfoldable pub strip_prefix : Text → Text → Option Text
strip_prefix [] s = some s
strip_prefix (b ∷ bs) [] = none
strip_prefix (b ∷ bs) (c ∷ s) = if b == c then strip_prefix bs s else none

-- `is_superseded_prefix`
unfoldable pub is_superseded_prefix : Text → Text → Bool
unfolding strip_prefix
is_superseded_prefix input base =
    not (is_empty base)
    && ltb (len base) (len input)
    && elim (strip_prefix base input) [ none ↦ false | some rest ↦ all is_ascii_digit rest ]
