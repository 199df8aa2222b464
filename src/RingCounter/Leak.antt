-- ===== src/RingCounter/Leak.antt =====
-- The test `counter_start == counter_end` of `no_leak_detected`, on a ring that stands for a queue.
use remus_tutorial.Prelude.{wrap, ◌+◌, ◌≡◌, ◌⊎◌, ◌↔◌, Bool, true, length, arith, ◌==◌}
use remus_tutorial.RingCounter.{RingCounter}
use remus_tutorial.RingCounter.Queue.{Queue}
use remus_tutorial.RingCounter.Shows.{Shows}

-- REMUS_ASSERT(op_counter_start == op_counter_end, "Leak detected, …")
unfoldable pub passes_leak_test : RingCounter → Bool
passes_leak_test r = r.counter_start == r.counter_end

-- The leak test passes exactly when no slot is taken, or every slot is.
pub passes_leak_test_iff :
    {q : Queue} {r : RingCounter}
    → Shows q r
    → (passes_leak_test r ≡ true) ↔ ((length q ≡ 0) ⊎ (length q ≡ r.counter_num))
unfolding passes_leak_test
passes_leak_test_iff {q} {r} v = ground (
  arith,
  v.covers.start_in,
  v.covers.few,
  v.covers.end_at,
  wrap r.counter_num (r.counter_start + length q),
)
