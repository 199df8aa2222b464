-- ===== src/ComputeThread.antt =====
-- The state of `ComputeThread` of rdma/include/remus/compute_thread.h, and the objects that take
-- slots, buffers and lanes in their constructors and give them back in their destructors. The code
-- only uses the coroutine with index 0, so there is one ring of sequences and one map of batches.
pub mod Operations
pub mod Sequences
pub mod Local
pub mod Roots
pub mod Life
pub mod Temporaries
pub mod Ready
pub mod Ended
pub mod Returns
pub mod Owned
pub mod Reuse
pub mod Batches
pub mod Links
pub mod Samples
mod Runs
mod Tests
use remus_tutorial.Prelude.{
  ℕ, ◌+◌, Bool, false, not, ◌&&◌, leb, u64, sub64, Option, none, some, Outcome, done, abort, ◌>>=◌,
  ◌>>◌, assert, at, List, [], ◌∷◌, get_elem?, set, Map,
}
use remus_tutorial.Endpoint.{max_wr}
use remus_tutorial.RingCounter
use remus_tutorial.RingCounter.{RingCounter}
use remus_tutorial.RingBuf
use remus_tutorial.RingBuf.{RingBuf, limit}
use remus_tutorial.QpSchedPolicy.{QpSchedPolicy}
use remus_tutorial.BumpAllocator.{BumpAllocator}
use remus_tutorial.ComputeNode.{ComputeNode}
use remus_tutorial.RdmaOps.Ibv.{Verbs, SendWr}

-- `seq_send_wrs_t`: a slot and a lane by their index, a staging buffer by its address and size.
pub record SeqSendWrs : Type 0 where
  pub posted : Bool
  pub seq_idx : ℕ
  pub lane : ℕ
  pub op_counters : List ℕ
  pub staging_bufs : List (ℕ × ℕ)
  pub send_wrs : List SendWr

-- `cached_buf_t`; `none` is the null pointer of an object that was moved from.
pub record CachedBuf : Type 0 where
  pub size_ : ℕ
  pub buf_ : Option ℕ

pub record ComputeThread : Type 0 where
  pub node_id : ℕ
  pub id_ : ℕ
  pub ops_per_thread : ℕ
  pub wrs_per_seq : ℕ
  pub seg_size : ℕ
  pub op_counters_ : List ℕ
  pub op_counter_ring : RingCounter
  pub seq_op_counter_ring : RingCounter
  pub seq_send_wrs : Map SeqSendWrs
  pub staging : RingBuf
  pub cached : RingBuf
  pub cached_buf_manager_ : Map CachedBuf
  pub scheduled_reclamations : List ℕ
  pub qp_sched_pol_ : QpSchedPolicy
  pub allocator : BumpAllocator

-- A thread, the node that it shares with others, and the memory and the RDMA devices.
pub record Machine (v : Verbs) : Type 0 where
  pub thread : ComputeThread
  pub node : ComputeNode
  pub world : v.World

-- `op_counter_t`: the constructor, and the destructor.
unfoldable pub acquire_op_counter : ComputeThread → Outcome (ℕ × ComputeThread)
acquire_op_counter t = do
  (slot, ring) ← RingCounter.acquire t.op_counter_ring
  elim slot [ none ↦ abort | some idx ↦ done (idx, record t { op_counter_ring = ring }) ]

unfoldable pub release_op_counter : ℕ → ComputeThread → Outcome ComputeThread
release_op_counter idx t = do
  ring ← RingCounter.release idx t.op_counter_ring
  done (record t { op_counter_ring = ring })

-- `op_counter_t(this).val()`: the object is a temporary, so the slot is given back at once.
unfoldable pub one_op_counter : ComputeThread → Outcome (ℕ × ComputeThread)
one_op_counter t = do
  (idx, t') ← acquire_op_counter t
  t'' ← release_op_counter idx t'
  done (idx, t'')

-- `seq_idx_t`.
unfoldable pub acquire_seq_idx : ComputeThread → Outcome (ℕ × ComputeThread)
acquire_seq_idx t = do
  (slot, ring) ← RingCounter.acquire t.seq_op_counter_ring
  elim slot [ none ↦ abort | some idx ↦ done (idx, record t { seq_op_counter_ring = ring }) ]

unfoldable pub release_seq_idx : ℕ → ComputeThread → Outcome ComputeThread
release_seq_idx idx t = do
  ring ← RingCounter.release idx t.seq_op_counter_ring
  done (record t { seq_op_counter_ring = ring })

-- `val` of the buffers: a null pointer and a block outside the ring abort.
unfoldable pub in_range : ℕ → Option ℕ → RingBuf → Outcome ℕ
in_range size none r = abort
in_range size (some buf) r = do
  assert (leb r.ring_buf buf && leb (u64 (buf + size)) (limit r))
  done buf

-- `staging_buf_t` and `seq_staging_buf_t`.
unfoldable pub acquire_staging_buf : ℕ → ℕ → ComputeThread → Option ℕ × ComputeThread
acquire_staging_buf size align t =
    let (buf, ring) = RingBuf.acquire size align t.staging in (buf, record t { staging = ring })

unfoldable pub release_staging_buf : ℕ → ComputeThread → Outcome ComputeThread
release_staging_buf buf t = do
  ring ← RingBuf.release buf t.staging
  done (record t { staging = ring })

-- `staging_buf_t(this, size, align).val()`: given back at once, like the slot.
unfoldable pub one_staging_buf : ℕ → ℕ → ComputeThread → Outcome (ℕ × ComputeThread)
one_staging_buf size align t = do
  let (buf, t') = acquire_staging_buf size align t
  place ← in_range size buf t'.staging
  t'' ← release_staging_buf place t'
  done (place, t'')

-- `cached_buf_t`: the constructor, `val` and the destructor.
unfoldable pub acquire_cached_buf : ℕ → ℕ → ComputeThread → CachedBuf × ComputeThread
acquire_cached_buf size align t =
    let (buf, ring) = RingBuf.acquire size align t.cached in
    (record { size_ = size; buf_ = buf }, record t { cached = ring })

unfoldable pub release_cached_buf : CachedBuf → ComputeThread → Outcome ComputeThread
release_cached_buf b t = elim b.buf_ [
  | none ↦ done t
  | some buf ↦ RingBuf.release buf t.cached >>= λ ring. done (record t { cached = ring })
]

-- The move constructor and the move assignment: the new object, and the one that was moved from.
unfoldable pub move_cached_buf : CachedBuf → CachedBuf × CachedBuf
move_cached_buf b = (b, record b { buf_ = none })

-- Assignment to `mine`, from another object: what `mine` holds is released first. The size of `mine`
-- is constant.
unfoldable pub assign_cached_buf :
    CachedBuf → CachedBuf → ComputeThread → Outcome ((CachedBuf × CachedBuf) × ComputeThread)
assign_cached_buf mine other t = do
  t' ← release_cached_buf mine t
  done ((record mine { buf_ = other.buf_ }, record other { buf_ = none }), t')

-- `Lane`: the constructor counts an operation on the lane, and the destructor takes it off.
unfoldable pub enter_lane : ℕ → List ℕ → Outcome (List ℕ)
enter_lane lane_idx counters = do
  count ← at (get_elem? counters lane_idx)
  assert (not (leb max_wr (u64 (count + 1))))
  done (set counters lane_idx (u64 (count + 1)))

unfoldable pub leave_lane : ℕ → List ℕ → Outcome (List ℕ)
leave_lane lane_idx counters = do
  count ← at (get_elem? counters lane_idx)
  done (set counters lane_idx (sub64 count 1))
