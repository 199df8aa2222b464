-- ===== src/ComputeThread/Samples.antt =====
-- A small machine for runs of the operations of a thread.
use remus_tutorial.Prelude.{◌+◌, ◌-◌, ◌*◌, ◌^◌, [], ◌∷◌}
use remus_tutorial.RdmaPtr.{RdmaPtr}
use remus_tutorial.RingCounter
use remus_tutorial.RingCounter.{RingCounter}
use remus_tutorial.RingBuf
use remus_tutorial.RingBuf.{RingBuf, nextalign, keep_align, place, drop_unused, drop_start}
use remus_tutorial.QpSchedPolicy.{Policy, QpSchedPolicy}
use remus_tutorial.MnAllocPolicy
use remus_tutorial.BumpAllocator.{BumpAllocator}
use remus_tutorial.ComputeNode.{ComputeNode}
use remus_tutorial.RdmaOps.Simulator.{Sim, simulator}
use remus_tutorial.ComputeThread.{ComputeThread, Machine}

-- A node with two lanes to memory node 1, which has one segment of 2^20 bytes.
abbrev pub two_lanes : ComputeNode
two_lanes = record {
  num_threads_ = 1;
  thread_bufsz_ = 4096;
  seg_ = 65536;
  seg_capacity = 4096;
  threads_ = 1;
  node_connections_ =
      (1, record { conn_ = 10; lkey_ = 20 } ∷ record { conn_ = 11; lkey_ = 21 } ∷ []) ∷ [];
  segment_rkeys_ = (2 ^ 48 + 3 * 2 ^ 20, 7) ∷ [];
  seg_mask_ = 2 ^ 20 - 1;
  segs_ = (1, record { start_ = 2 ^ 48 + 3 * 2 ^ 20; hint_ = 64 } ∷ []) ∷ [];
  lane_op_counters_ = 0 ∷ 0 ∷ [];
}

abbrev pub second_lane : QpSchedPolicy
second_lane = record {
  policy_ = Policy.mod_;
  prng_ = record { seed = 1 };
  num_lanes_ = 2;
  num_threads_ = 1;
  last_lane_ = 1;
  per_mn_ = 0 ∷ 0 ∷ [];
}

abbrev pub no_memory : BumpAllocator
no_memory = record {
  seg_size_ = 2 ^ 20;
  freelists_ = [];
  free_blocks_ = [];
  mn_alloc_pol_ = record {
    policy_ = MnAllocPolicy.Policy.none;
    prng_ = record { seed = 1 };
    num_segs_ = 1;
    num_mns_ = 2;
    total_segs_ = 2;
    last_mn_ = 0;
    last_seg_ = 0;
  };
}

abbrev pub new_thread : ComputeThread
new_thread = record {
  node_id = 2;
  id_ = 0;
  ops_per_thread = 4;
  wrs_per_seq = 4;
  seg_size = 20;
  op_counters_ = 0 ∷ 0 ∷ 0 ∷ 0 ∷ [];
  op_counter_ring = RingCounter.fresh 4;
  seq_op_counter_ring = RingCounter.fresh 4;
  seq_send_wrs = [];
  staging = RingBuf.fresh 65536 2048;
  cached = RingBuf.fresh 67584 2048;
  cached_buf_manager_ = [];
  scheduled_reclamations = [];
  qp_sched_pol_ = second_lane;
  allocator = no_memory;
}

-- The word at `there` holds 99.
abbrev pub there : RdmaPtr
there = record { raw_ = 2 ^ 48 + 3 * 2 ^ 20 + 128 }

abbrev pub filled : Sim
filled = record { cells = (3 * 2 ^ 20 + 128, 99) ∷ []; queue = [] }

abbrev pub machine : Machine simulator
machine = record { thread = new_thread; node = two_lanes; world = filled }
