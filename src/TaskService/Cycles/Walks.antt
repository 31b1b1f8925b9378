-- ===== src/TaskService/Cycles/Walks.antt =====
-- What the walk finds: crates/application-task/src/service.rs.
use repo_link.Prelude.{
  ℕ, zero, suc, ◌+◌, ◌≤◌, Bool, true, false, ◌&&◌, ◌||◌, Option, none, some, List, [], ◌∷◌, ◌≡◌,
  ◌≢◌, refl, sym, subst, ◌∙◌, inl, inr, arith, if◌then◌else◌, ◌==◌, nat_eq, contains, length,
  Bool-cases,
}
use repo_link.Core.{TaskId}
use repo_link.TaskService.Cycles.{Up, parents, push_parents, walk, enough}

-- `p` is upstream of `n` by one edge.
unfoldable pub is_up : Up → TaskId → TaskId → Bool
is_up [] n p = false
is_up ((m, q) ∷ up) n p = (m == n && q == p) || is_up up n p

-- What is reached from `y` going upstream.
pub data Reach (up : Up) (y : TaskId) : TaskId → Type 0 where
  here : Reach up y y
  step : {n p : TaskId} → Reach up y n → is_up up n p ≡ true → Reach up y p

-- `x` is reached from `y` by at least one edge.
pub record Closes (up : Up) (y x : TaskId) : Type 0 where
  pub last : TaskId
  pub reached : Reach up y last
  pub edge : is_up up last x ≡ true

pub contains-parents : (up : Up) (n p : TaskId) → contains (parents n up) p ≡ is_up up n p
unfolding contains parents is_up
contains-parents [] n p = refl
contains-parents ((m, q) ∷ up) n p = ground (arith, contains-parents up n p)

-- The edges of the tasks that are not visited.
abbrev unseen : List TaskId → Up → ℕ
unseen visited [] = 0
unseen visited ((m, q) ∷ up) =
    if contains visited m then unseen visited up else suc (unseen visited up)

unseen-le : (visited : List TaskId) (up : Up) → unseen visited up ≤ length up
unseen-le visited [] = omega arith
unseen-le visited ((m, q) ∷ up) = ground (arith, unseen-le visited up)

-- A visit takes the edges of its task away.
unseen_visit :
    (visited : List TaskId) (n : TaskId) (up : Up)
    → contains visited n ≡ false
    → unseen (n ∷ visited) up + length (parents n up) ≡ unseen visited up
unfolding contains parents
unseen_visit visited n [] f = omega arith
unseen_visit visited n ((m, q) ∷ up) f = ground (arith, unseen_visit visited n up)

-- What the inner loop gives.
pub data Pushed (x : TaskId) (ps stack : List TaskId) : Option (List TaskId) → Type 0 where
  hit : contains ps x ≡ true → Pushed x ps stack none
  missed :
      (out : List TaskId)
      → contains ps x ≡ false
      → length out ≡ length ps + length stack
      → ((q : TaskId) → contains out q ≡ (contains ps q || contains stack q))
      → Pushed x ps stack (some out)

Pushed-step :
    (x p : TaskId) (ps stack : List TaskId) (b : Bool) (o : Option (List TaskId))
    → (p == x) ≡ b
    → Pushed x ps (p ∷ stack) o
    → Pushed x (p ∷ ps) stack (if b then none else o)
unfolding contains
Pushed-step x p ps stack true o e h = hit (rw (e) refl)
Pushed-step x p ps stack false o e (hit h) = hit (rw (e, h) refl)
Pushed-step x p ps stack false o e (missed out m l h) =
    missed out (rw (e, m) refl) (omega arith) (λ q. ground (arith, h q))

push_parents-Pushed :
    (x : TaskId) (ps stack : List TaskId) → Pushed x ps stack (push_parents x ps stack)
unfolding push_parents contains
push_parents-Pushed x [] stack = missed stack refl (omega arith) (λ q. refl)
push_parents-Pushed x (p ∷ ps) stack =
    Pushed-step x p ps stack (p == x) (push_parents x ps (p ∷ stack)) refl
      (push_parents-Pushed x ps (p ∷ stack))

module _ (up : Up) (x y : TaskId) where
  -- The walk stays on what is upstream of `y`, and forgets nothing behind what is visited.
  record Inv (stack visited : List TaskId) : Type 0 where
    begun : (contains visited y || contains stack y) ≡ true
    waiting : (q : TaskId) → contains stack q ≡ true → Reach up y q
    closed :
        (n p : TaskId)
        → contains visited n ≡ true
        → is_up up n p ≡ true
        → (p ≢ x) × ((contains visited p || contains stack p) ≡ true)

  pub data Verdict : Option Bool → Type 0 where
    found : Closes up y x → Verdict (some true)
    clear : ¬ Closes up y x → Verdict (some false)

  reached_visited :
      {visited : List TaskId} {n : TaskId}
      → Inv [] visited
      → Reach up y n
      → contains visited n ≡ true
  unfolding contains
  reached_visited i here = ground (arith, i.begun)
  reached_visited i (step {n} {p} r e) = ground (arith, i.closed n p (reached_visited i r) e)

  skip-Inv :
      (n : TaskId) (stack visited : List TaskId)
      → contains visited n ≡ true
      → Inv (n ∷ stack) visited
      → Inv stack visited
  unfolding contains
  skip-Inv n stack visited v i = record {
    begun = ground (arith, i.begun);
    waiting = λ q m. i.waiting q (ground arith);
    closed = λ a p m e. ground (arith, i.closed a p m e);
  }

  enter-Inv :
      (n : TaskId) (stack out visited : List TaskId)
      → Inv (n ∷ stack) visited
      → contains (parents n up) x ≡ false
      → ((q : TaskId) → contains out q ≡ (contains (parents n up) q || contains stack q))
      → Inv out (n ∷ visited)
  unfolding contains
  enter-Inv n stack out visited i m h = record {
    begun = ground (arith, i.begun, h y);
    waiting = λ q k. elim (Bool-cases (contains (parents n up) q)) [
      | inl u ↦ step (i.waiting n (ground arith)) (sym (contains-parents up n q) ∙ u)
      | inr u ↦ i.waiting q (ground (arith, h q))
    ];
    closed = λ a p v e. elim (Bool-cases (n == a)) [
      | inl s ↦
          let same : n ≡ a = ground arith in
          let above : contains (parents n up) p ≡ true = contains-parents up n p ∙ rw (same) e in
          (λ k. absurd (ground (arith, m, above, k)), ground (arith, h p))
      | inr s ↦ ground (arith, i.closed a p (ground arith) e, h p)
    ];
  }

  enter-Verdict :
      (fuel : ℕ) (n : TaskId) (stack visited : List TaskId) (o : Option (List TaskId))
      → Inv (n ∷ stack) visited
      → contains visited n ≡ false
      → unseen visited up + suc (length stack) ≤ suc fuel
      → ((out : List TaskId)
          → Inv out (n ∷ visited)
          → unseen (n ∷ visited) up + length out ≤ fuel
          → Verdict (walk fuel x up (some out) (n ∷ visited)))
      → Pushed x (parents n up) stack o
      → Verdict (walk fuel x up o (n ∷ visited))
  unfolding walk contains
  enter-Verdict fuel n stack visited none i v f k (hit h) = found (record {
    last = n;
    reached = i.waiting n (ground arith);
    edge = sym (contains-parents up n x) ∙ h;
  })
  enter-Verdict fuel n stack visited o i v f k (missed out m l h) =
      k out (enter-Inv n stack out visited i m h) (omega (arith, unseen_visit visited n up v))

  walk-Verdict :
      (fuel : ℕ) (stack visited : List TaskId)
      → Inv stack visited
      → unseen visited up + length stack ≤ fuel
      → Verdict (walk fuel x up (some stack) visited)
  unfolding walk
  walk-Verdict fuel [] visited i f =
      clear (λ c. (i.closed c.last x (reached_visited i c.reached) c.edge).0 refl)
  walk-Verdict zero (n ∷ stack) visited i f = absurd (omega arith)
  walk-Verdict (suc fuel) (n ∷ stack) visited i f = elim (Bool-cases (contains visited n)) [
    | inl v ↦ rw (v) (walk-Verdict fuel stack visited (skip-Inv n stack visited v i) (omega arith))
    | inr v ↦ rw (v) (
        enter-Verdict fuel n stack visited (push_parents x (parents n up) stack) i v f
          (λ out j g. walk-Verdict fuel out (n ∷ visited) j g)
          (push_parents-Pushed x (parents n up) stack))
  ]

-- The walk from `y`, with as many rounds as there are edges and one more, ends; it finds `x` exactly
-- if `x` is upstream of `y` by at least one edge.
pub walk_decides :
    (up : Up) (x y : TaskId) → Verdict up x y (walk (enough up) x up (some (y ∷ [])) [])
unfolding contains
walk_decides up x y =
    walk-Verdict up x y (enough up) (y ∷ []) []
      (record {
        begun = ground arith;
        waiting = λ q m. let same : y ≡ q = ground arith in subst (λ z. Reach up y z) same here;
        closed = λ n p v e. absurd (ground arith);
      })
      (omega (arith, unseen-le [] up))
