-- ===== src/Task/Hash.antt =====
-- crates/domain-task/src/hash.rs: minting and validating the short hash of a task.
pub mod Minting
use repo_link.Prelude.{
  ℕ, zero, suc, ◌+◌, ◌-◌, ◌*◌, ◌/◌, ◌%◌, ◌^◌, Bool, true, false, ◌&&◌, ◌||◌, List, [], ◌∷◌, ◌++◌,
  leb, ltb, if◌then◌else◌, length, all,
}
use repo_link.Prelude.Text.{Text, codes, is_ascii_lowercase}

abbrev pub min_hash_len : ℕ
min_hash_len = 3

abbrev pub max_hash_len : ℕ
max_hash_len = 16

-- `matches!(c, 'a'..='z' | '2'..='7')`
unfoldable pub is_base32 : ℕ → Bool
unfolding is_ascii_lowercase
is_base32 c = is_ascii_lowercase c || (leb b'2' c && leb c b'7')

unfoldable pub is_valid_hash : Text → Bool
is_valid_hash s = leb min_hash_len (length s) && leb (length s) max_hash_len && all is_base32 s

-- `ALPHABET[idx]`, for an index below 32.
unfoldable pub letter : ℕ → ℕ
letter i = if ltb i 26 then b'a' + i else b'2' + (i - 26)

-- The loop variables: `acc` is a `u64`, `bits` a `u32`.
pub record Draw : Type 0 where
  pub out : Text
  pub acc : ℕ
  pub bits : ℕ

-- `while bits >= 5 && out.len() < length`, with fuel: each round takes five bits.
unfoldable pub emit : ℕ → ℕ → Draw → Draw
unfolding letter
emit zero size d = d
emit (suc fuel) size d =
    let bits = d.bits - 5 in
    let rest =
      emit fuel size (record {
        out = d.out ++ (letter (d.acc / 2 ^ bits % 32) ∷ []);
        acc = d.acc;
        bits = bits;
      }) in
    if leb 5 d.bits && ltb (length d.out) size then rest else d

-- One byte of a UUID: `acc = (acc << 8) | b` on 64 bits, `bits += 8`, then the inner loop, for
-- which the number of bits is enough fuel.
unfoldable pub feed : ℕ → ℕ → Draw → Draw
feed size b d =
    let d' = record d { acc = (d.acc * 256 + b) % 2 ^ 64; bits = d.bits + 8 } in
    emit d'.bits size d'

-- The `for` loop over the bytes of one UUID, left when the text is long enough.
unfoldable pub feed_all : ℕ → List ℕ → Draw → Draw
feed_all size [] d = d
feed_all size (b ∷ bs) d =
    let d' = feed size b d in
    let rest = feed_all size bs d' in if leb size (length d'.out) then d' else rest

-- `while out.len() < length` over the UUIDs that the generator gives: `uuid n` is the n-th.
unfoldable pub draw : ℕ → (ℕ → List ℕ) → ℕ → ℕ → Draw → Draw
draw zero uuid n size d = d
draw (suc fuel) uuid n size d =
    let rest = draw fuel uuid (suc n) size (feed_all size (uuid n) d) in
    if ltb (length d.out) size then rest else d

-- `random_lowercase_base32`. Each UUID adds a character, so `size` rounds are enough.
unfoldable pub random_lowercase_base32 : (ℕ → List ℕ) → ℕ → Text
random_lowercase_base32 uuid size =
    (draw size uuid 0 size (record { out = []; acc = 0; bits = 0 })).out
