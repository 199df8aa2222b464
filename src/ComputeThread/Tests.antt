-- ===== src/ComputeThread/Tests.antt =====
-- Runs of the operations of a thread, and uses of the theorems at concrete inputs.
use remus_tutorial.Prelude.{
  ℕ, ◌+◌, ◌*◌, ◌^◌, ◌≡◌, ◌⊎◌, arith, refl, ap, true, false, some, done, abort, [], ◌∷◌, ◌++◌,
  length, lookup, insert, erase,
}
use remus_tutorial.RdmaPtr.{id, raw, address}
use remus_tutorial.RingCounter
use remus_tutorial.RingCounter.{RingCounter}
use remus_tutorial.RingCounter.Shows.{Shows}
use remus_tutorial.RingCounter.Queue.{trim}
use remus_tutorial.RingCounter.Acquire.{fresh-Shows}
use remus_tutorial.RingBuf
use remus_tutorial.RingBuf.{RingBuf, nextalign, keep_align, place, drop_unused, drop_start}
use remus_tutorial.QpSchedPolicy.{get_lane_idx}
use remus_tutorial.ComputeNode.{get_conn, get_rkey}
use remus_tutorial.RdmaOps.{read_config, write_fields}
use remus_tutorial.RdmaOps.Ibv.{SendWr, blank, nothing, completed}
use remus_tutorial.RdmaOps.Wait.{Delivers}
use remus_tutorial.RdmaOps.Simulator.{Sim, simulator, serve_all, next_polled}
use remus_tutorial.ComputeThread.{Machine, one_op_counter, acquire_seq_idx, enter_lane}
use remus_tutorial.ComputeThread.Operations.{read, write, is_local, take_lane}
use remus_tutorial.ComputeThread.Temporaries.{one_op_counter-Shows}
use remus_tutorial.ComputeThread.Sequences.{link_seq_send_wrs, chain, open_batch}
use remus_tutorial.ComputeThread.Batches.{fill_last}
use remus_tutorial.ComputeThread.Links.{chain-link_seq_send_wrs}
use remus_tutorial.ComputeThread.Samples.{
  two_lanes, second_lane, new_thread, there, filled, machine,
}
use remus_tutorial.ComputeThread.Ready.{Ready, HasRoom}
use remus_tutorial.ComputeThread.Ended.{Ended}
use remus_tutorial.ComputeThread.Returns.{read_returns, write_returns}

ready : Ready there machine
unfolding RingCounter.fresh get_lane_idx get_conn get_rkey id raw lookup
ready = record {
  lane = 1;
  policy = second_lane;
  chosen = refl;
  count = 0;
  counted = refl;
  room = omega arith;
  info = record { conn_ = 11; lkey_ = 21 };
  found = refl;
  rkey = 7;
  known = refl;
  no_slots = fresh-Shows 4 (omega arith);
  has_counters = refl;
}

-- The staging ring with one block of 8 bytes, and after it is given back.
abbrev one_block : RingBuf
one_block = record {
  ring_buf = 65536;
  ring_buf_size = 2048;
  ring_buf_start = 65536;
  ring_buf_end = 65544;
  ring_buf_allocations = (65536, record { next_available_addr = 65544; in_use = true }) ∷ [];
}

abbrev no_block : RingBuf
no_block = record {
  ring_buf = 65536;
  ring_buf_size = 2048;
  ring_buf_start = 65544;
  ring_buf_end = 65544;
  ring_buf_allocations = [];
}

room : HasRoom 8 8 new_thread.staging
unfolding RingBuf.fresh RingBuf.acquire RingBuf.release place keep_align nextalign drop_unused
    drop_start lookup insert erase
room = record {
  buf = 65536;
  taken = one_block;
  after = no_block;
  takes = refl;
  inside = refl;
  gives = refl;
}

-- The world after the requests are posted, and when the completion has been taken.
abbrev posted : SendWr → Sim → Sim
posted wr w = serve_all (wr ∷ []) w

abbrev finished : SendWr → Sim → Sim
finished wr w = record (posted wr w) { queue = [] }

completes :
    (wr : SendWr) (w : Sim)
    → (posted wr w).queue ≡ nothing ∷ completed (some 0) ∷ []
    → Delivers simulator 11 0 1 (posted wr w) (finished wr w)
completes wr w e =
    Delivers.waits {u = record (posted wr w) { queue = completed (some 0) ∷ [] }}
      (ap (λ q. next_polled q (posted wr w)) e)
      (Delivers.arrives {w = record (posted wr w) { queue = completed (some 0) ∷ [] }} refl)

abbrev reads : SendWr
reads = read_config there 65536 7 21 (some 0) 8 true true blank

read_returns_example :
    (m' : Machine simulator) × (read 5 8 8 there true machine
      ≡ done (simulator.load 65536 8 (finished reads filled), m'))
    × Ended machine (finished reads filled) m'
    × (m'.thread.staging ≡ no_block)
unfolding ready room RingCounter.fresh read_config
read_returns_example =
    read_returns ready 1 5 (omega arith) 8 8 true {w = posted reads filled}
      {w' = finished reads filled} room refl (completes reads filled refl)

-- The value is the one that stands at the pointer.
reads_99 : simulator.load 65536 8 (finished reads filled) ≡ 99
unfolding read_config address lookup insert
reads_99 = refl

abbrev buffered : Sim
buffered = record { cells = (3 * 2 ^ 20 + 128, 99) ∷ (65536, 5) ∷ []; queue = [] }

abbrev writes : SendWr
writes = write_fields there 65536 7 21 (some 0) 8 true true blank

write_returns_example :
    (m' : Machine simulator) × (write 5 8 8 there 5 true 8 true machine ≡ done m')
    × Ended machine (finished writes buffered) m'
    × (m'.thread.staging ≡ no_block)
unfolding ready room RingCounter.fresh is_local id address insert
write_returns_example =
    write_returns ready 1 5 (omega arith) 8 8 5 8 true true {w = posted writes buffered}
      {w' = finished writes buffered} room refl refl refl (completes writes buffered refl)

one_op_counter-Shows_example :
    ((◌≡◌ {A = ℕ} 0 4) × (one_op_counter new_thread ≡ abort))
    ⊎ ((ring : RingCounter) × (one_op_counter new_thread
          ≡ done (0, record new_thread { op_counter_ring = ring }))
        × Shows (trim ([] ++ (true ∷ []))) ring
        × (ring.counter_num ≡ 4))
unfolding RingCounter.fresh
one_op_counter-Shows_example = one_op_counter-Shows new_thread (fresh-Shows 4 (omega arith))

chain-link_seq_send_wrs_example :
    let all =
      fill_last (λ wr. record wr { rkey = 7 }) (link_seq_send_wrs (blank ∷ blank ∷ blank ∷ [])) in
    chain (length all + 2) all (some 0) ≡ done all
chain-link_seq_send_wrs_example =
    chain-link_seq_send_wrs (λ wr. record wr { rkey = 7 }) (λ wr. refl) 2 blank (blank ∷ blank ∷ [])

abbrev with_open : Machine simulator
with_open = record machine {
  thread = record new_thread {
    seq_op_counter_ring = record {
      counter_start = 0;
      counter_end = 1;
      counter_assignments =
          RingCounter.in_use ∷ RingCounter.available ∷ RingCounter.available ∷ RingCounter.available
          ∷ [];
      counter_num = 4;
    };
    seq_send_wrs =
        (
          0,
          record {
            posted = false;
            seq_idx = 0;
            lane = 1;
            op_counters = [];
            staging_bufs = [];
            send_wrs = [];
          },
        )
        ∷ [];
  };
  node = record two_lanes { lane_op_counters_ = 0 ∷ 1 ∷ [] };
}

opens : open_batch there machine ≡ done (0, with_open)
unfolding open_batch acquire_seq_idx take_lane enter_lane get_lane_idx id RingCounter.fresh
    RingCounter.acquire insert
opens = refl
