-- ===== src/RingCounter/Shows.antt =====
-- When a ring of slots stands for a queue, and where its slots lie.
use remus_tutorial.Prelude.{
  wrap, ℕ, ◌+◌, ◌-◌, ◌%◌, ◌<◌, ◌≤◌, ◌≡◌, Bool, true, false, Option, none, some, length, get_elem?,
  arith,
}
use remus_tutorial.RingCounter.{RingCounter, State, available, in_use, to_be_freed}
use remus_tutorial.RingCounter.Queue.{Queue, IsTrimmed}

-- The state of the slot at an entry; past the last entry the slots are free.
abbrev pub state_of : Option Bool → State
state_of none = available
state_of (some false) = in_use
state_of (some true) = to_be_freed

-- The entries of `q` stand, in order, in the slots from `counter_start` on.
pub record Covers (q : Queue) (r : RingCounter) : Type 0 where
  pub slots : length r.counter_assignments ≡ r.counter_num
  pub start_in : r.counter_start < r.counter_num
  pub few : length q ≤ r.counter_num
  pub end_at : r.counter_end ≡ (r.counter_start + length q) % r.counter_num
  pub cells :
      (i : ℕ)
      → i < r.counter_num
      → get_elem? r.counter_assignments ((r.counter_start + i) % r.counter_num)
        ≡ some (state_of (get_elem? q i))

-- In between two calls the oldest entry is held.
pub record Shows (q : Queue) (r : RingCounter) : Type 0 where
  pub covers : Covers q r
  pub trimmed : IsTrimmed q

-- Where an entry stands, counted from `counter_start`.
abbrev pub entry_of : ℕ → RingCounter → ℕ
entry_of idx r = (idx + r.counter_num - r.counter_start) % r.counter_num

-- Different entries stand in different slots.
pub place_inj : (n s i j : ℕ) → s < n → i < n → j < n → (s + i) % n ≡ (s + j) % n → i ≡ j
place_inj n s i j hs hi hj e =
    omega (arith, wrap n (s + i) (omega arith), wrap n (s + j) (omega arith))
