-- ===== src/Barrier.antt =====
-- `arrive_control_barrier` of rdma/include/remus/compute_thread.h, with any interleaving of the
-- threads. One step of a thread is one RDMA operation on the barrier word of memory node 0, with the
-- tests between it and the next one; a step that finds the old sense is one more turn of the loop.
pub mod Count
pub mod Phases
pub mod Invariant
pub mod Steps
pub mod Turns
pub mod Moves
pub mod Order
pub mod Progress
mod Tests
use remus_tutorial.Prelude.{
  ℕ, ◌+◌, ◌-◌, ◌/◌, ◌%◌, u64, sub64, int_word, ◌==◌, if◌then◌else◌, List, [], ◌∷◌,
}

-- Where a thread is in its call: outside, after FetchAndAdd with what this returned, or in the
-- loop with the sense that it waits for.
pub data Place : Type 0 where
  outside : Place
  arrived : ℕ → Place
  spinning : ℕ → Place

-- `passed` counts the calls that have returned.
pub record Thread : Type 0 where
  pub place : Place
  pub passed : ℕ

pub record System : Type 0 where
  pub barrier : ℕ
  pub threads : ℕ → Thread

abbrev pub put : (ℕ → Thread) → ℕ → Thread → ℕ → Thread
put threads i t j = if i == j then t else threads j

abbrev pub leave : Thread → Thread
leave t = record { place = outside; passed = t.passed + 1 }

abbrev pub move : Thread → Place → Thread
move t place = record { place = place; passed = t.passed }

-- `total_threads` is what the caller passes: the parameter is an int, whose predecessor is then
-- compared with a word of 64 bits. `was & 1` and `was >> 1` are the sense and the number of arrivals.
abbrev pub step_from : Place → ℕ → ℕ → System → System
step_from outside total_threads i s = record {
  barrier = u64 (s.barrier + 2);
  threads = put s.threads i (move (s.threads i) (arrived s.barrier));
}
step_from (arrived was) total_threads i s =
    let new_sense = 1 - was % 2 in
    if was / 2 == sub64 (int_word total_threads) 1
    then (record { barrier = new_sense; threads = put s.threads i (leave (s.threads i)) })
    else (record {
      barrier = s.barrier;
      threads = put s.threads i (move (s.threads i) (spinning new_sense));
    })
step_from (spinning new_sense) total_threads i s =
    if s.barrier % 2 == new_sense
    then (record { barrier = s.barrier; threads = put s.threads i (leave (s.threads i)) })
    else s

-- The next step of thread `i`.
unfoldable pub step : ℕ → ℕ → System → System
step total_threads i s = step_from (s.threads i).place total_threads i s

-- The steps of the threads of a list, in order.
unfoldable pub run : ℕ → List ℕ → System → System
run total_threads [] s = s
run total_threads (i ∷ is) s = run total_threads is (step total_threads i s)

-- A barrier in fresh memory.
abbrev pub start : System
start = record { barrier = 0; threads = λ i. record { place = outside; passed = 0 } }
