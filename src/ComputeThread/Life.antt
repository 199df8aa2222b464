-- ===== src/ComputeThread/Life.antt =====
-- How a `ComputeThread` is made, what its destructor does, and the test for leaks.
use remus_tutorial.Prelude.{
  ℕ, zero, suc, ◌+◌, ◌-◌, ◌/◌, ◌^◌, ◌==◌, Bool, true, false, u64, Outcome, done, ◌>>=◌, ◌>>◌,
  assert, List, [], ◌∷◌, replicate,
}
use remus_tutorial.Config.{Config}
use remus_tutorial.Rand.{Rand}
use remus_tutorial.RdmaPtr.{of_raw}
use remus_tutorial.RingCounter
use remus_tutorial.RingCounter.Leak.{passes_leak_test}
use remus_tutorial.RingBuf
use remus_tutorial.RingBuf.{RingBuf}
use remus_tutorial.QpSchedPolicy
use remus_tutorial.MnAllocPolicy
use remus_tutorial.BumpAllocator
use remus_tutorial.ComputeNode.{ComputeNode, register_thread, get_seg_start}
use remus_tutorial.RdmaOps.Ibv.{Verbs}
use remus_tutorial.ComputeThread.{ComputeThread, Machine}
use remus_tutorial.ComputeThread.Operations.{fetch_and_add}

-- The slice is cut in two halves; the two generators are those of the two policies. The parameter
-- that the source calls the id of the thread is kept as the id of the node.
unfoldable pub construct :
    Config → ℕ → Rand → Rand → ComputeNode → Outcome (ComputeThread × ComputeNode)
construct args id g g' node = do
  ((thread_id, seg_slice), node') ← register_thread node
  let half = 2 ^ args.cn_thread_bufsz / 2
  sched ← QpSchedPolicy.to_policy args.qp_sched_pol
  qp ← QpSchedPolicy.set_policy sched thread_id (QpSchedPolicy.construct args g)
  let a = BumpAllocator.construct args g'
  pol ← MnAllocPolicy.to_policy args.alloc_pol
  mn ← MnAllocPolicy.set_policy pol args thread_id a.mn_alloc_pol_
  done (
    record {
      node_id = id;
      id_ = thread_id;
      ops_per_thread = args.cn_ops_per_thread;
      wrs_per_seq = args.cn_wrs_per_seq;
      seg_size = args.seg_size;
      op_counters_ = replicate args.cn_ops_per_thread 0;
      op_counter_ring = RingCounter.fresh args.cn_ops_per_thread;
      seq_op_counter_ring = RingCounter.fresh args.cn_ops_per_thread;
      seq_send_wrs = [];
      staging = RingBuf.fresh seg_slice half;
      cached = RingBuf.fresh (seg_slice + half) half;
      cached_buf_manager_ = [];
      scheduled_reclamations = [];
      qp_sched_pol_ = qp;
      allocator = record a { mn_alloc_pol_ = mn };
    },
    node',
  )

abbrev pub is_empty {ℓ} : {A : Type ℓ} → List A → Bool
is_empty [] = true
is_empty (x ∷ xs) = false

abbrev pub all_zero : List ℕ → Outcome (Unit {0})
all_zero [] = done tt
all_zero (x ∷ xs) = assert (x == 0) >> all_zero xs

unfoldable pub no_leak_detected : ComputeThread → ComputeNode → Outcome Bool
no_leak_detected t node = do
  assert (passes_leak_test t.op_counter_ring)
  assert (passes_leak_test t.seq_op_counter_ring)
  assert (is_empty t.seq_send_wrs)
  assert (t.staging.ring_buf_start == t.staging.ring_buf_end)
  assert (t.cached.ring_buf_start == t.cached.ring_buf_end)
  assert (is_empty t.cached.ring_buf_allocations)
  all_zero node.lane_op_counters_
  done true

-- `offsetof(ControlBlock, control_flag_)`
abbrev pub control_flag_at : ℕ
control_flag_at = 16

module _ {v : Verbs} (fuel : ℕ) where
  -- `n` rounds of the loop of the destructor, from the index `i` on.
  unfoldable pub shut_down_from : ℕ → ℕ → Machine v → Outcome (Machine v)
  shut_down_from zero i m = done m
  shut_down_from (suc n) i m = do
    start ← get_seg_start i 0 m.node
    (old, m') ← fetch_and_add fuel 8 8 (of_raw (u64 (start + control_flag_at))) 1 true m
    shut_down_from n (suc i) m'

  -- `~ComputeThread`
  unfoldable pub destroy : Config → Machine v → Outcome (Machine v)
  destroy args m = do
    m' ← shut_down_from (args.last_mn_id + 1 - args.first_mn_id) 0 m
    passed ← no_leak_detected m'.thread m'.node
    assert passed
    done m'
