-- ===== src/RootTest.antt =====
-- rdma/test/root.cc and rdma/test/helloworld.cc: every thread of the compute nodes adds one to a
-- counter under a lock, between two barriers. One step of a worker is one RDMA operation on the
-- memory nodes with the tests up to the next one, and the barrier is that of Barrier. The words of
-- the memory are a function of addresses; the lock is the low byte of its word, and
-- CompareAndSwap looks at the whole word.
pub mod Setup
pub mod Machines
pub mod Sums
pub mod Fits
pub mod Invariant
pub mod Steps
pub mod Final
pub mod Moves
pub mod Progress
pub mod Padding
mod Runs
mod Tests
use remus_tutorial.Prelude.{ℕ, ◌+◌, ◌-◌, ◌*◌, ◌%◌, ◌^◌, u64, ◌==◌, if◌then◌else◌, List, [], ◌∷◌}
use remus_tutorial.Barrier

-- The next operation of a worker, with the pointer and the value that it holds.
pub data Stage : Type 0 where
  first_barrier : Stage
  take_root : Stage
  acquiring : ℕ → Stage
  reading : ℕ → Stage
  writing : ℕ → ℕ → Stage
  unlocking : ℕ → Stage
  second_barrier : Stage
  joined : Stage

pub record System : Type 0 where
  pub barrier : Barrier.System
  pub root : ℕ
  pub cells : ℕ → ℕ
  pub stage : ℕ → Stage

-- `offsetof(Counter, value)`; `locked` is at 0.
abbrev pub value_at : ℕ
value_at = 8

abbrev pub write_cell : ℕ → ℕ → (ℕ → ℕ) → ℕ → ℕ
write_cell a v cells b = if a == b then v else cells b

abbrev pub place_at : ℕ → Stage → (ℕ → Stage) → ℕ → Stage
place_at i st stage j = if i == j then st else stage j

abbrev pub to_stage : ℕ → Stage → System → System
to_stage i st s = record s { stage = place_at i st s.stage }

-- One step of `arrive_control_barrier`, which has returned `calls` times when it goes on.
abbrev pub wait : ℕ → ℕ → Stage → ℕ → System → System
wait calls total_threads next i s =
    let b = Barrier.step total_threads i s.barrier in
    if (b.threads i).passed == calls
    then (record s { barrier = b; stage = place_at i next s.stage })
    else (record s { barrier = b })

-- CompareAndSwap on `locked`: the word is swapped where it is 0, and the old byte is the result.
abbrev pub try_lock : ℕ → ℕ → System → System
try_lock p i s =
    let old = s.cells p in
    let cells = write_cell p (if old == 0 then 1 else old) s.cells in
    record s {
      cells = cells;
      stage = place_at i (if old % 256 == 0 then reading p else acquiring p) s.stage;
    }

abbrev pub step_from : Stage → ℕ → ℕ → System → System
step_from first_barrier n i s = wait 1 n take_root i s
step_from take_root n i s = to_stage i (acquiring s.root) s
step_from (acquiring p) n i s = try_lock p i s
step_from (reading p) n i s = to_stage i (writing p (s.cells (p + value_at))) s
step_from (writing p v) n i s =
    to_stage i (unlocking p) (record s { cells = write_cell (p + value_at) (u64 (v + 1)) s.cells })
step_from (unlocking p) n i s =
    to_stage i second_barrier
      (record s { cells = write_cell p (s.cells p - s.cells p % 256) s.cells })
step_from second_barrier n i s = wait 2 n joined i s
step_from joined n i s = s

-- The next step of worker `i` of `n`.
unfoldable pub step : ℕ → ℕ → System → System
step n i s = step_from (s.stage i) n i s

-- The steps of the workers of a list, in order.
unfoldable pub run : ℕ → List ℕ → System → System
run n [] s = s
run n (i ∷ is) s = run n is (step n i s)

-- The root points at `p`, where the first thread has put a counter that is 0 and free. `padding` is
-- what the 7 bytes after `locked` hold.
abbrev pub start : ℕ → ℕ → System
start padding p = record {
  barrier = Barrier.start;
  root = p;
  cells = write_cell p (padding % 2 ^ 56 * 256) (λ a. 0);
  stage = λ i. first_barrier;
}
