-- ===== src/Task/Hash/Minting.antt =====
-- The hash that `random_lowercase_base32` mints: crates/domain-task/src/hash.rs.
use Prim.Native.Nat.{min}
use repo_link.Prelude.{
  ℕ, zero, suc, ◌+◌, ◌*◌, ◌-◌, ◌/◌, ◌%◌, ◌^◌, ◌≤◌, ◌<◌, true, List, [], ◌∷◌, ◌++◌, ◌≡◌, refl, arith,
  length, all, length-append,
}
use repo_link.Prelude.Text.{Text}
use repo_link.Task.Hash.{
  is_base32, is_valid_hash, letter, Draw, emit, feed, feed_all, draw, random_lowercase_base32,
}

letter-base32 : (i : ℕ) → i < 32 → is_base32 (letter i) ≡ true
unfolding letter is_base32
letter-base32 i h = ground arith

all-snoc :
    (s : Text) (c : ℕ)
    → all is_base32 s ≡ true
    → is_base32 c ≡ true
    → all is_base32 (s ++ c ∷ []) ≡ true
unfolding all
all-snoc [] c h k = ground arith
all-snoc (x ∷ s) c h k = ground (arith, all-snoc s c)

-- What holds between two bytes, while the text is short of `size` characters.
pub record IsDraw (size : ℕ) (d : Draw) : Type 0 where
  pub spelled : all is_base32 d.out ≡ true
  pub short : length d.out ≤ size

emit-IsDraw : (fuel size : ℕ) (d : Draw) → IsDraw size d → IsDraw size (emit fuel size d)
unfolding emit
emit-IsDraw zero size d h = h
emit-IsDraw (suc fuel) size d h =
    let c = letter (d.acc / 2 ^ (d.bits - 5) % 32) in
    let d' : Draw = record { out = d.out ++ c ∷ []; acc = d.acc; bits = d.bits - 5 } in
    ground (
      arith,
      length-append d.out (c ∷ []),
      all-snoc d.out c h.spelled (letter-base32 _ (omega arith)),
      emit-IsDraw fuel size d',
    )

-- With enough fuel the inner loop stops by its test, and it never shortens the text.
emit-stops :
    (fuel size : ℕ) (d : Draw)
    → d.bits ≤ fuel
    → let d' = emit fuel size d in
      (length d.out ≤ length d'.out)
      × (length d'.out < size → d'.bits < 5)
      × (5 ≤ d.bits → length d.out < size → length d.out < length d'.out)
unfolding emit
emit-stops zero size d h = ground arith
emit-stops (suc fuel) size d h =
    let c = letter (d.acc / 2 ^ (d.bits - 5) % 32) in
    let d' : Draw = record { out = d.out ++ c ∷ []; acc = d.acc; bits = d.bits - 5 } in
    ground (arith, length-append d.out (c ∷ []), emit-stops fuel size d')

feed-IsDraw : (size b : ℕ) (d : Draw) → IsDraw size d → IsDraw size (feed size b d)
unfolding feed
feed-IsDraw size b d h =
    emit-IsDraw (d.bits + 8) size (record d { acc = (d.acc * 256 + b) % 2 ^ 64; bits = d.bits + 8 })
      (record { spelled = h.spelled; short = h.short })

-- A byte adds a character while one is missing.
feed_grows :
    (size b : ℕ) (d : Draw) → length d.out < size → length d.out < length (feed size b d).out
unfolding feed
feed_grows size b d h = ground (
  arith,
  emit-stops (d.bits + 8) size (record d { acc = (d.acc * 256 + b) % 2 ^ 64; bits = d.bits + 8 }),
)

feed_all-IsDraw :
    (size : ℕ) (bs : List ℕ) (d : Draw) → IsDraw size d → IsDraw size (feed_all size bs d)
unfolding feed_all
feed_all-IsDraw size [] d h = h
feed_all-IsDraw size (b ∷ bs) d h =
    let k = feed-IsDraw size b d h in ground (arith, feed_all-IsDraw size bs (feed size b d) k)

feed_all_grows :
    (size : ℕ) (bs : List ℕ) (d : Draw)
    → length d.out < size
    → length d.out + min (length bs) (size - length d.out) ≤ length (feed_all size bs d).out
unfolding feed_all
feed_all_grows size [] d h = omega arith
feed_all_grows size (b ∷ bs) d h =
    ground (arith, feed_grows size b d h, feed_all_grows size bs (feed size b d))

draw-IsDraw :
    (fuel : ℕ) (uuid : ℕ → List ℕ) (n size : ℕ) (d : Draw)
    → IsDraw size d
    → IsDraw size (draw fuel uuid n size d)
unfolding draw
draw-IsDraw zero uuid n size d h = h
draw-IsDraw (suc fuel) uuid n size d h =
    let k = feed_all-IsDraw size (uuid n) d h in
    ground (arith, draw-IsDraw fuel uuid (suc n) size (feed_all size (uuid n) d) k)

draw_fills :
    (fuel : ℕ) (uuid : ℕ → List ℕ) (n size : ℕ) (d : Draw)
    → ((m : ℕ) → length (uuid m) ≡ 16)
    → size ≤ length d.out + fuel
    → size ≤ length (draw fuel uuid n size d).out
unfolding draw
draw_fills zero uuid n size d u h = omega arith
draw_fills (suc fuel) uuid n size d u h = ground (
  arith,
  u n,
  feed_all_grows size (uuid n) d,
  draw_fills fuel uuid (suc n) size (feed_all size (uuid n) d) u,
)

-- From UUIDs of sixteen bytes, whatever they are, the loop ends and mints exactly `size`
-- characters, all of the base32 alphabet; a length that the minters use gives a valid hash.
pub random_lowercase_base32-is_valid_hash :
    (uuid : ℕ → List ℕ) (size : ℕ)
    → ((n : ℕ) → length (uuid n) ≡ 16)
    → (length (random_lowercase_base32 uuid size) ≡ size)
      × (all is_base32 (random_lowercase_base32 uuid size) ≡ true)
      × (3 ≤ size → size ≤ 16 → is_valid_hash (random_lowercase_base32 uuid size) ≡ true)
unfolding random_lowercase_base32 is_valid_hash all
random_lowercase_base32-is_valid_hash uuid size u =
    let start : Draw = record { out = []; acc = 0; bits = 0 } in
    let drawn =
      draw-IsDraw size uuid 0 size start (record { spelled = refl; short = omega arith }) in
    ground (arith, drawn, draw_fills size uuid 0 size start u (omega arith))
