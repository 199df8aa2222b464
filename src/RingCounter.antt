-- ===== src/RingCounter.antt =====
-- `ring_counter_t` of rdma/include/remus/ring.h: slots handed out round a ring. The references
-- `counter_start`, `counter_end` and `counter_assignments`, and `counter_num`, are one record.
pub mod Queue
pub mod Shows
pub mod Acquire
pub mod Release
pub mod Runs
pub mod Leak
mod Tests
use remus_tutorial.Prelude.{
  ℕ, zero, suc, ◌+◌, ◌%◌, Bool, true, false, Option, none, some, List, get_elem?, set, replicate,
  Outcome, done, abort, fault, diverge, ◌>>=◌, ◌>>◌, at, assert,
}

pub data State : Type 0 where
  available in_use to_be_freed : State

pub record RingCounter : Type 0 where
  pub counter_start : ℕ
  pub counter_end : ℕ
  pub counter_assignments : List State
  pub counter_num : ℕ

-- The fields as `ComputeThread` initialises them for `n` slots.
unfoldable pub fresh : ℕ → RingCounter
fresh n = record {
  counter_start = 0;
  counter_end = 0;
  counter_assignments = replicate n available;
  counter_num = n;
}

abbrev pub is_in_use : State → Bool
is_in_use in_use = true
is_in_use _ = false

-- `acquire`: the ring after the call, and the slot, if one is free.
unfoldable pub acquire : RingCounter → Outcome (Option ℕ × RingCounter)
acquire r = do
  let idx = r.counter_end
  s ← at (get_elem? r.counter_assignments idx)
  elim s [
    | available ↦ done (
      some idx,
      record r {
        counter_assignments = set r.counter_assignments idx in_use;
        counter_end = (idx + 1) % r.counter_num;
      },
    )
    | _ ↦ done (none, r)
  ]

-- The loop of `release`.
unfoldable pub free_from : ℕ → RingCounter → Outcome RingCounter
free_from zero r = diverge
free_from (suc fuel) r =
    let rest = free_from fuel (record r {
      counter_assignments = set r.counter_assignments r.counter_start available;
      counter_start = (r.counter_start + 1) % r.counter_num;
    }) in
    elim (get_elem? r.counter_assignments r.counter_start) [
      | some to_be_freed ↦ rest
      | some _ ↦ done r
      | none ↦ fault
    ]

-- `release`: the loop runs at most once for each slot before it meets one that it has freed.
unfoldable pub release : ℕ → RingCounter → Outcome RingCounter
release idx r = do
  s ← at (get_elem? r.counter_assignments idx)
  assert (is_in_use s)
  free_from (suc r.counter_num)
      (record r { counter_assignments = set r.counter_assignments idx to_be_freed })
