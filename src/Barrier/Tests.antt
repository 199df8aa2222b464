-- ===== src/Barrier/Tests.antt =====
-- Runs of the barrier with two threads, and uses of the theorems at concrete inputs.
use remus_tutorial.Prelude.{
  AllBelow, ℕ, zero, suc, ◌+◌, ◌≤◌, ◌<◌, ◌≡◌, ◌≢◌, arith, refl, List, [], ◌∷◌,
}
use remus_tutorial.Barrier.{Place, run, start, step}
use remus_tutorial.Barrier.Order.{called, no_early_exit}
use remus_tutorial.Barrier.Progress.{some_thread_leaves}

-- Thread 0 arrives, looks once in vain and waits; thread 1 arrives and opens; thread 0 leaves and
-- arrives again.
abbrev schedule : List ℕ
schedule = 0 ∷ 0 ∷ 0 ∷ 1 ∷ 1 ∷ 0 ∷ 0 ∷ []

schedule-AllBelow : AllBelow 2 schedule
schedule-AllBelow = (
  omega arith,
  (omega arith, (omega arith, (omega arith, (omega arith, (omega arith, (omega arith, tt)))))),
)

both_passed :
    (((run 2 schedule start).threads 0).passed ≡ 1)
    × (((run 2 schedule start).threads 1).passed ≡ 1)
    × ((run 2 schedule start).barrier ≡ 3)
unfolding run step
both_passed = (refl, refl, refl)

no_early_exit_example :
    ((run 2 schedule start).threads 0).passed ≤ called ((run 2 schedule start).threads 1)
no_early_exit_example =
    no_early_exit 2 schedule (omega arith) (omega arith) schedule-AllBelow 0 1 (omega arith)
      (omega arith)

in_call : (j : ℕ) → j < 2 → ((run 2 (0 ∷ 1 ∷ []) start).threads j).place ≢ Place.outside
unfolding run step
in_call zero h e = cc
in_call (suc zero) h e = cc
in_call (suc (suc j)) h e = absurd (omega arith)

some_thread_leaves_example :
    (i : ℕ) × (i < 2)
    × (((run 2 (i ∷ i ∷ []) (run 2 (0 ∷ 1 ∷ []) start)).threads i).passed
        ≡ ((run 2 (0 ∷ 1 ∷ []) start).threads i).passed + 1)
some_thread_leaves_example =
    some_thread_leaves 2 (0 ∷ 1 ∷ []) (omega arith) (omega arith) (omega arith, (omega arith, tt))
      in_call
