-- ===== src/Prelude/Trim.antt =====
-- `str::trim` leaves no whitespace at the ends, and trimming again changes nothing.
use Prim.Native.Nat.{ℕ}
use mathlib.Core.Path.{◌≡◌, refl, sym, ap, ◌∙◌}
use mathlib.Core.Logic.{inl, inr}
use mathlib.Core.Bool.{Bool, true}
use mathlib.Core.List.{[], ◌∷◌, ◌++◌, reverse, reverse-append, reverse-reverse, append_cancel_right}
use native.Mathlib.Omega.{arith}
use repo_link.Prelude.Tests.{if◌then◌else◌, Bool-cases}
use repo_link.Prelude.Lists.{all}
use repo_link.Prelude.Pairwise.{all-append}
use repo_link.Prelude.Text.{Text, is_whitespace, trim_start, trim}

trim_start-append :
    (xs ys : Text)
    → trim_start (xs ++ ys) ≡ (if all is_whitespace xs then trim_start ys else trim_start xs ++ ys)
unfolding trim_start all
trim_start-append [] ys = refl
trim_start-append (x ∷ xs) ys = ground (arith, trim_start-append xs ys)

trim_start-trim_start : (s : Text) → trim_start (trim_start s) ≡ trim_start s
unfolding trim_start
trim_start-trim_start [] = refl
trim_start-trim_start (c ∷ s) = ground (arith, trim_start-trim_start s)

trim_start-nil : (s : Text) → all is_whitespace s ≡ true → trim_start s ≡ []
unfolding trim_start all
trim_start-nil [] h = refl
trim_start-nil (c ∷ s) h = ground (arith, trim_start-nil s)

-- What `trim_start` drops.
trim_start_split : (s : Text) → (w : Text) × (s ≡ w ++ trim_start s) × (all is_whitespace w ≡ true)
unfolding trim_start all
trim_start_split [] = ([], refl, refl)
trim_start_split (c ∷ s) = elim (Bool-cases (is_whitespace c)) [
  | inl white ↦ let (w, e, h) = trim_start_split s in (c ∷ w, rw white (ap (◌∷◌ c) e), ground arith)
  | inr dark ↦ ([], rw dark, refl)
]

all-reverse : (p : ℕ → Bool) (s : Text) → all p (reverse s) ≡ all p s
unfolding all
all-reverse p [] = refl
all-reverse p (c ∷ s) =
    ground (arith, reverse-append (c ∷ []) s, all-append p (reverse s) (c ∷ []), all-reverse p s)

trim_start-reverse :
    (s b w : Text)
    → trim_start s ≡ s
    → trim_start b ≡ b
    → reverse s ≡ w ++ b
    → trim_start (reverse b) ≡ reverse b
trim_start-reverse s b w hs hb e =
    let se : s ≡ reverse b ++ reverse w =
      sym (reverse-reverse s) ∙ ap reverse e ∙ reverse-append w b in
    elim (Bool-cases (all is_whitespace (reverse b))) [
      | inl white ↦
          let empty : b ≡ [] =
            sym hb ∙ trim_start-nil b (sym (all-reverse is_whitespace b) ∙ white) in
          rw empty (unfold trim_start in refl)
      | inr dark ↦ append_cancel_right (trim_start (reverse b)) (reverse b) (reverse w) (
          (sym (trim_start-append (reverse b) (reverse w) ∙ rw dark refl)
            ∙ ap trim_start (sym se)
            ∙ hs
            ∙ se))
    ]

-- Trimming removes whitespace from both ends, so that a second trim changes nothing.
pub trim-trim : (s : Text) → trim (trim s) ≡ trim s
unfolding trim
trim-trim s =
    let a = trim_start s in
    let b = trim_start (reverse a) in
    let (w, e, _) = trim_start_split (reverse a) in
    let fixed =
      trim_start-reverse a b w (trim_start-trim_start s) (trim_start-trim_start (reverse a)) e in
    rw fixed (rw reverse-reverse (rw (trim_start-trim_start (reverse a))))
