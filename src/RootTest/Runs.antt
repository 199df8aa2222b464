-- ===== src/RootTest/Runs.antt =====
-- What the first thread of the root test does with the root, on the simulated device.
use remus_tutorial.Prelude.{
  ℕ, ◌+◌, ◌^◌, ◌≡◌, refl, Outcome, done, ◌>>=◌, List, [], ◌∷◌, lookup, insert, erase,
}
use remus_tutorial.RdmaPtr.{of_raw, id, raw, address}
use remus_tutorial.RingCounter
use remus_tutorial.RingBuf
use remus_tutorial.RingBuf.{
  place, keep_align, nextalign, place_front, wrap_end, drop_unused, drop_start,
}
use remus_tutorial.QpSchedPolicy.{get_lane_idx}
use remus_tutorial.ComputeNode.{get_conn, get_rkey, get_seg_start}
use remus_tutorial.RdmaOps.{
  read_config, write_config, write_config_seg, compare_and_swap_config, fetch_and_add_config, post,
  poll, handle, complete,
}
use remus_tutorial.RdmaOps.Simulator.{simulator, cell}
use remus_tutorial.ComputeThread.{
  Machine, one_op_counter, one_staging_buf, acquire_op_counter, release_op_counter, in_range,
  acquire_staging_buf, release_staging_buf, enter_lane, leave_lane,
}
use remus_tutorial.ComputeThread.Operations.{
  begin_op, stage, take_lane, drop_lane, run_op, is_local, read, write, compare_and_swap,
  fetch_and_add,
}
use remus_tutorial.ComputeThread.Roots.{root_ptr, set_root, get_root, cas_root, faa_root}
use remus_tutorial.ComputeThread.Samples.{machine}
use remus_tutorial.RootTest.Setup.{try_root, publish}

-- A machine with two lanes to memory node 0, whose segment is at 2^20.
abbrev rooted : Machine simulator
rooted = record machine {
  node = record machine.node {
    node_connections_ =
        (0, record { conn_ = 10; lkey_ = 20 } ∷ record { conn_ = 11; lkey_ = 21 } ∷ []) ∷ [];
    segment_rkeys_ = (2 ^ 20, 7) ∷ [];
    segs_ = (0, record { start_ = 2 ^ 20; hint_ = 64 } ∷ []) ∷ [];
  };
}

abbrev root_cells : Machine simulator → Outcome (ℕ × ℕ × ℕ × List ℕ)
root_cells m = done (
  cell (2 ^ 20 + 32) m.world.cells,
  cell (2 ^ 20 + 128) m.world.cells,
  cell (2 ^ 20 + 136) m.world.cells,
  m.node.lane_op_counters_,
)

-- The root goes from 0 to 1 by the swap and to 2 by the addition; then it points at the counter.
prepared :
    ((try_root 5 rooted >>= root_cells) ≡ done (2, 0, 0, 0 ∷ 0 ∷ []))
    × ((try_root 5 rooted >>= λ m. publish 5 (of_raw (2 ^ 20 + 128)) m >>= root_cells)
        ≡ done (2 ^ 20 + 128, 0, 0, 0 ∷ 0 ∷ []))
unfolding RingCounter.fresh RingCounter.acquire RingCounter.release RingCounter.free_from
    RingBuf.fresh RingBuf.acquire RingBuf.release place keep_align nextalign place_front wrap_end
    drop_unused drop_start get_lane_idx get_conn get_rkey read_config post poll handle complete
    acquire_op_counter release_op_counter in_range acquire_staging_buf release_staging_buf
    enter_lane leave_lane take_lane drop_lane run_op is_local read write compare_and_swap
    fetch_and_add write_config compare_and_swap_config fetch_and_add_config id raw address of_raw
    lookup insert erase root_ptr set_root get_root cas_root faa_root get_seg_start try_root publish
    begin_op one_op_counter stage one_staging_buf write_config_seg
prepared = (refl, refl)
