-- ===== src/Drainer/Backoff.antt =====
-- The waits between attempts: crates/application-sync/src/drainer.rs.
use repo_link.Prelude.{
  ℕ, zero, suc, ◌-◌, ◌≤◌, ◌<◌, min, true, List, [], ◌∷◌, ◌≡◌, arith, leb, length, all, pairwise,
}
use repo_link.Drainer.{BackoffSchedule, delay_at, delay_for}

delay_at-all :
    (d : ℕ) (ds : List ℕ) (i : ℕ) → all (leb d) ds ≡ true → i < length ds → d ≤ delay_at ds i
unfolding delay_at all
delay_at-all d [] i h l = omega (arith)
delay_at-all d (x ∷ ds) zero h l = ground arith
delay_at-all d (x ∷ ds) (suc i) h l = ground (arith, delay_at-all d ds i)

delay_at_mono :
    (ds : List ℕ) (i j : ℕ)
    → pairwise leb ds ≡ true
    → i ≤ j
    → j < length ds
    → delay_at ds i ≤ delay_at ds j
unfolding delay_at pairwise
delay_at_mono [] i j h l k = omega arith
delay_at_mono (d ∷ ds) zero zero h l k = omega arith
delay_at_mono (d ∷ ds) zero (suc j) h l k = ground (arith, delay_at-all d ds j)
delay_at_mono (d ∷ ds) (suc i) zero h l k = omega arith
delay_at_mono (d ∷ ds) (suc i) (suc j) h l k = ground (arith, delay_at_mono ds i j)

-- If the delays of a schedule do not fall, then the wait does not fall from one attempt to a
-- later one, also past the end of the schedule.
delay_for_mono :
    (b : BackoffSchedule) (n m : ℕ)
    → pairwise leb b.delays ≡ true
    → n ≤ m
    → delay_for b n ≤ delay_for b m
unfolding delay_for
delay_for_mono b n m h l = go b.delays h
  where
    go :
        (ds : List ℕ)
        → pairwise leb ds ≡ true
        → delay_for (record b { delays = ds }) n ≤ delay_for (record b { delays = ds }) m
    go [] k = omega arith
    go (d ∷ ds) k =
        delay_at_mono (d ∷ ds) (min (n - 1) (length (d ∷ ds) - 1))
          (min (m - 1) (length (d ∷ ds) - 1)) k (omega arith) (omega arith)
