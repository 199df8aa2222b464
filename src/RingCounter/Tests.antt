-- ===== src/RingCounter/Tests.antt =====
-- Runs of a ring of three slots, and the properties at concrete rings.
use remus_tutorial.Prelude.{
  ℕ, zero, suc, ◌+◌, ◌%◌, ◌<◌, ◌≡◌, ◌⊎◌, ◌↔◌, true, false, none, some, [], ◌∷◌, length, get_elem?,
  arith, refl, done, abort,
}
use remus_tutorial.RingCounter.{
  RingCounter, available, in_use, to_be_freed, acquire, release, free_from, fresh,
}
use remus_tutorial.RingCounter.Queue
use remus_tutorial.RingCounter.Shows.{Shows, entry_of, state_of}
use remus_tutorial.RingCounter.Acquire.{acquire-Shows}
use remus_tutorial.RingCounter.Release.{release-Refines, Refines}
use remus_tutorial.RingCounter.Runs.{take, give, run, step, IsDefined, run-IsDefined}
use remus_tutorial.RingCounter.Leak.{passes_leak_test, passes_leak_test_iff}

-- Slots 2 and 0 are taken, from slot 2 on.
abbrev two_taken : RingCounter
two_taken = record {
  counter_start = 2;
  counter_end = 1;
  counter_assignments = in_use ∷ available ∷ in_use ∷ [];
  counter_num = 3;
}

two_taken-cells :
    (i : ℕ)
    → i < 3
    → get_elem? two_taken.counter_assignments ((2 + i) % 3)
      ≡ some (state_of (get_elem? (false ∷ false ∷ []) i))
two_taken-cells zero h = refl
two_taken-cells (suc zero) h = refl
two_taken-cells (suc (suc zero)) h = refl
two_taken-cells (suc (suc (suc i))) h = absurd (omega arith)

two_taken-Shows : Shows (false ∷ false ∷ []) two_taken
two_taken-Shows = record {
  covers = record {
    slots = refl;
    start_in = omega arith;
    few = omega arith;
    end_at = refl;
    cells = two_taken-cells;
  };
  trimmed = refl;
}

-- A slot that is given back out of order stays taken until the older ones are free.
out_of_order :
    run (take ∷ take ∷ give 1 ∷ take ∷ take ∷ []) (fresh 3)
    ≡ done (record {
      counter_start = 0;
      counter_end = 0;
      counter_assignments = in_use ∷ to_be_freed ∷ in_use ∷ [];
      counter_num = 3;
    })
unfolding run step acquire release free_from fresh
out_of_order = refl

double_free : run (take ∷ take ∷ give 1 ∷ give 1 ∷ []) (fresh 3) ≡ abort
unfolding run step acquire release free_from fresh
double_free = refl

acquire-Shows_example :
    ((length (false ∷ false ∷ []) ≡ 3) × (acquire two_taken ≡ done (none, two_taken)))
    ⊎ ((r' : RingCounter) × (acquire two_taken ≡ done (some 1, r'))
        × Shows (false ∷ false ∷ false ∷ []) r'
        × (get_elem? two_taken.counter_assignments 1 ≡ some available)
        × (entry_of 1 two_taken ≡ 2)
        × (r'.counter_num ≡ 3))
acquire-Shows_example = acquire-Shows two_taken-Shows

release-Refines_example :
    Refines 3 (Queue.release (entry_of 0 two_taken) (false ∷ false ∷ [])) (release 0 two_taken)
release-Refines_example = release-Refines two_taken-Shows 0 (omega arith)

run-IsDefined_example : IsDefined 3 (run (take ∷ give 0 ∷ give 0 ∷ []) (fresh 3))
run-IsDefined_example = run-IsDefined 3 (take ∷ give 0 ∷ give 0 ∷ []) (omega arith) (omega arith)

passes_leak_test_iff_example :
    (passes_leak_test two_taken ≡ true)
    ↔ ((length (false ∷ false ∷ []) ≡ 0) ⊎ (length (false ∷ false ∷ []) ≡ 3))
passes_leak_test_iff_example = passes_leak_test_iff two_taken-Shows
