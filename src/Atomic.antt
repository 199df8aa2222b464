-- ===== src/Atomic.antt =====
-- rdma/include/remus/Atomic.h: a word of remote memory with the operations of an atomic; `at` is the
-- address of its member `value`. `fetch_add` hands four arguments to FetchAndAdd, which takes three, so
-- no use of it compiles, and it has no model.
use remus_tutorial.Prelude.{ℕ, Bool, true, ◌==◌, Outcome, done, ◌>>=◌}
use remus_tutorial.RdmaPtr.{of_raw}
use remus_tutorial.RdmaOps.Ibv.{Verbs}
use remus_tutorial.ComputeThread.{Machine}
use remus_tutorial.ComputeThread.Operations.{read, write, compare_and_swap}

module _ {v : Verbs} (fuel sizeof_t alignof_t at : ℕ) where
  unfoldable pub load : Bool → Machine v → Outcome (ℕ × Machine v)
  load fence m = read fuel sizeof_t alignof_t (of_raw at) fence m

  unfoldable pub store : ℕ → ℕ → Bool → Machine v → Outcome (Machine v)
  store value size fence m = write fuel sizeof_t alignof_t (of_raw at) value fence size true m

  unfoldable pub compare_exchange_weak : ℕ → ℕ → Bool → Machine v → Outcome (Bool × Machine v)
  compare_exchange_weak expected desired fence m = do
    (res, m') ← compare_and_swap fuel sizeof_t alignof_t (of_raw at) expected desired fence m
    done (res == expected, m')

  unfoldable pub compare_exchange_strong : ℕ → ℕ → Bool → Machine v → Outcome (Bool × Machine v)
  compare_exchange_strong expected desired fence m = do
    (res, m') ← compare_and_swap fuel sizeof_t alignof_t (of_raw at) expected desired fence m
    done (res == expected, m')
