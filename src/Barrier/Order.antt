-- ===== src/Barrier/Order.antt =====
-- What the barrier promises: no thread leaves before all have arrived, and some thread leaves when
-- all have.
use remus_tutorial.Prelude.{AllBelow, ℕ, ◌+◌, ◌^◌, ◌≤◌, ◌<◌, inl, inr, arith, List}
use remus_tutorial.Barrier.{Place, Thread, System, run, start}
use remus_tutorial.Barrier.Phases.{Stands, IsPhased, start-IsPhased}
use remus_tutorial.Barrier.Steps.{run-IsPhased}

-- The calls that a thread has begun.
abbrev pub called : Thread → ℕ
called t = elim t.place [
  | Place.outside ↦ t.passed
  | Place.arrived was ↦ t.passed + 1
  | Place.spinning sense ↦ t.passed + 1
]

passed_le : (n k c : ℕ) (place : Place) (passed : ℕ) → Stands n k c place passed → passed ≤ k
passed_le n k c Place.outside passed h = omega arith
passed_le n k c (Place.arrived was) passed (parity, inl (now, lt)) = omega arith
passed_le n k c (Place.arrived was) passed (parity, inr (before, lt)) = omega arith
passed_le n k c (Place.spinning sense) passed (aim, inl now) = omega arith
passed_le n k c (Place.spinning sense) passed (aim, inr before) = omega arith

le_called :
    (n k c : ℕ) (place : Place) (passed : ℕ)
    → Stands n k c place passed
    → k ≤ called (record { place = place; passed = passed })
le_called n k c Place.outside passed h = omega arith
le_called n k c (Place.arrived was) passed (parity, inl (now, lt)) = omega arith
le_called n k c (Place.arrived was) passed (parity, inr (before, lt)) = omega arith
le_called n k c (Place.spinning sense) passed (aim, inl now) = omega arith
le_called n k c (Place.spinning sense) passed (aim, inr before) = omega arith

-- In any phase.
pub IsPhased-order :
    {n : ℕ} {s : System} (i j : ℕ)
    → IsPhased n s
    → i < n
    → j < n
    → (s.threads i).passed ≤ called (s.threads j)
IsPhased-order i j (k, c, ph) i_in j_in =
    omega (arith, passed_le _ k c _ _ (ph.within i i_in), le_called _ k c _ _ (ph.within j j_in))

module _ (n : ℕ) (is : List ℕ) (pos : 0 < n) (small : n < 2 ^ 31) (known : AllBelow n is) where
  -- Whatever the order of the steps of `n` threads, where `n` is not 0 and `n` fits an int,
  -- that use a fresh barrier over and over, no thread has returned from more calls than any other
  -- thread has begun: none leaves a barrier before all have arrived at it.
  pub no_early_exit :
      (i j : ℕ)
      → i < n
      → j < n
      → ((run n is start).threads i).passed ≤ called ((run n is start).threads j)
  no_early_exit i j i_in j_in =
      IsPhased-order i j (run-IsPhased small pos is known (start-IsPhased n pos)) i_in j_in
