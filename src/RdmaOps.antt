-- ===== src/RdmaOps.antt =====
-- rdma/include/remus/rdma_ops.h: how the one-sided operations fill a work request, post it and poll
-- for its end. A value is the bytes of an object read as a number. `wr_id` holds the address of an
-- operation counter: here the index of the counter, and `none` for the null pointer.
pub mod Ibv
pub mod Wait
pub mod Turn
pub mod Simulator
mod Tests
use remus_tutorial.Prelude.{
  ℕ, zero, suc, ◌-◌, Bool, true, ◌==◌, leb, not, if◌then◌else◌, Option, none, some, Outcome, done,
  abort, fault, diverge, ◌>>=◌, ◌>>◌, assert, at, List, get_elem?, set,
}
use remus_tutorial.RdmaPtr.{RdmaPtr, address}
use remus_tutorial.RdmaOps.Ibv.{
  Verbs, SendWr, Sge, rdma_read, rdma_write, atomic_cmp_and_swp, atomic_fetch_and_add, Polled,
  nothing, failed, completed,
}

-- What the configurations have in common: the local buffer, the counter and the flags.
abbrev pub common : ℕ → ℕ → ℕ → Option ℕ → Bool → Bool → SendWr → SendWr
common seg size lkey ack signal fence wr = record wr {
  sge = record { addr = seg; length = size; lkey = lkey };
  wr_id = ack;
  num_sge = 1;
  signaled = signal;
  fence = fence;
}

unfoldable pub read_config : RdmaPtr → ℕ → ℕ → ℕ → Option ℕ → ℕ → Bool → Bool → SendWr → SendWr
read_config ptr seg rkey lkey ack size signal fence wr =
    record (common seg size lkey ack signal fence wr) {
      opcode = rdma_read;
      remote_addr = address ptr;
      rkey = rkey;
    }

abbrev pub write_fields : RdmaPtr → ℕ → ℕ → ℕ → Option ℕ → ℕ → Bool → Bool → SendWr → SendWr
write_fields ptr seg rkey lkey ack size signal fence wr =
    record (common seg size lkey ack signal fence wr) {
      opcode = rdma_write;
      remote_addr = address ptr;
      rkey = rkey;
    }

-- The configuration of a write whose data stands in `seg`.
unfoldable pub write_config_seg :
    RdmaPtr → ℕ → ℕ → ℕ → Option ℕ → ℕ → Bool → Bool → SendWr → Outcome SendWr
write_config_seg ptr seg rkey lkey ack size signal fence wr = do
  assert (not (seg == address ptr))
  done (write_fields ptr seg rkey lkey ack size signal fence wr)

unfoldable pub compare_and_swap_config :
    RdmaPtr → ℕ → ℕ → ℕ → ℕ → ℕ → Option ℕ → Bool → Bool → SendWr → SendWr
compare_and_swap_config ptr expected swap prev rkey lkey ack signal fence wr =
    record (common prev 8 lkey ack signal fence wr) {
      opcode = atomic_cmp_and_swp;
      remote_addr = address ptr;
      rkey = rkey;
      compare_add = expected;
      swap = swap;
    }

unfoldable pub fetch_and_add_config :
    RdmaPtr → ℕ → ℕ → ℕ → ℕ → Option ℕ → Bool → Bool → SendWr → SendWr
fetch_and_add_config ptr add prev rkey lkey ack signal fence wr =
    record (common prev 8 lkey ack signal fence wr) {
      opcode = atomic_fetch_and_add;
      remote_addr = address ptr;
      rkey = rkey;
      compare_add = add;
    }

module _ (v : Verbs) where
  -- The configuration of a write that copies its value into `seg`: the buffer is cleared first.
  unfoldable pub write_config :
      RdmaPtr
      → ℕ
      → ℕ
      → ℕ
      → ℕ
      → Option ℕ
      → ℕ
      → ℕ
      → Bool
      → Bool
      → SendWr
      → v.World
      → Outcome (SendWr × v.World)
  write_config ptr val seg rkey lkey ack sizeof_t size signal fence wr w = do
    wr' ← write_config_seg ptr seg rkey lkey ack size signal fence wr
    done (wr', v.store seg sizeof_t val (v.store seg size 0 w))

  -- `*ack = 1`, and the chain goes to the queue of the connection.
  unfoldable pub post : ℕ → List SendWr → ℕ → List ℕ → v.World → Outcome (List ℕ × v.World)
  post conn chain ack counters w = elim (v.post_send conn chain w) [
    | none ↦ abort
    | some w' ↦ done (set counters ack 1, w')
  ]

  -- `fetch_sub(1)` on the counter that a completion names.
  unfoldable pub complete : Option ℕ → List ℕ → Outcome (List ℕ)
  complete none counters = fault
  complete (some id) counters = do
    old ← at (get_elem? counters id)
    assert (leb 1 old)
    done (set counters id (old - 1))

  -- One turn of the loop after `poll_cq`: the counters after it.
  unfoldable pub handle : Polled → List ℕ → Outcome (List ℕ)
  handle nothing counters = done counters
  handle failed counters = abort
  handle (completed id) counters = complete id counters

  -- `while (*ack != 0)`; `fuel` bounds the turns.
  unfoldable pub poll : ℕ → ℕ → ℕ → List ℕ → v.World → Outcome (List ℕ × v.World)
  poll zero conn ack counters w = diverge
  poll (suc fuel) conn ack counters w = do
    value ← at (get_elem? counters ack)
    let (polled, w') = v.poll_cq conn w
    let rest = handle polled counters >>= λ counters'. poll fuel conn ack counters' w'
    if value == 0 then done (counters, w) else rest

  -- Whether the operation has ended, with the counters and the world after the call.
  unfoldable pub poll_async : ℕ → ℕ → List ℕ → v.World → Outcome (Bool × List ℕ × v.World)
  poll_async conn ack counters w = do
    value ← at (get_elem? counters ack)
    let (polled, w') = v.poll_cq conn w
    let rest = handle polled counters >>= λ counters'. done (not true, counters', w')
    if value == 0 then done (true, counters, w) else rest
