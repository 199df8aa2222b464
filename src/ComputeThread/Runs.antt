-- ===== src/ComputeThread/Runs.antt =====
-- Runs of batches on the simulated device.
use remus_tutorial.Prelude.{
  ℕ, ◌≡◌, refl, Bool, true, false, Option, some, Outcome, done, ◌>>=◌, List, [], ◌∷◌, lookup,
  insert, erase,
}
use remus_tutorial.RdmaPtr.{id, raw, address}
use remus_tutorial.RingCounter
use remus_tutorial.RingBuf
use remus_tutorial.RingBuf.{
  place, keep_align, nextalign, place_front, wrap_end, drop_unused, drop_start,
}
use remus_tutorial.QpSchedPolicy.{get_lane_idx}
use remus_tutorial.ComputeNode.{get_conn, get_rkey}
use remus_tutorial.RdmaOps.{read_config, write_config_seg, post, poll, handle, complete}
use remus_tutorial.ComputeThread.{
  Machine, acquire_op_counter, release_op_counter, acquire_seq_idx, release_seq_idx, in_range,
  acquire_staging_buf, release_staging_buf, enter_lane, leave_lane,
}
use remus_tutorial.ComputeThread.Operations.{take_lane, drop_lane, run_op, is_local}
use remus_tutorial.ComputeThread.Sequences.{
  link_seq_send_wrs, chain, release_bufs, release_counters, open_batch, find_seq_idx, results,
  get_seq_op_result, close_batch,
}
use remus_tutorial.ComputeThread.Batches.{
  fill_last, begin_seq, stage_seq, count_seq, keep_request, send_batch, read_seq, read_seq_into,
  write_seq_from,
}
use remus_tutorial.ComputeThread.Life.{is_empty}
use remus_tutorial.RdmaOps.Simulator.{simulator}
use remus_tutorial.ComputeThread.Samples.{there, machine}

abbrev Ended : Type 0
Ended = Option (List ℕ) × Machine simulator

-- The results, whether a batch is left, and the counts of the lanes.
abbrev seen : Ended → Outcome (Option (List ℕ) × Bool × List ℕ)
seen (values, m) = done (values, is_empty m.thread.seq_send_wrs, m.node.lane_op_counters_)

abbrev values_of : Ended → Outcome (Option (List ℕ))
values_of (values, m) = done values

abbrev read_after : Ended → Outcome Ended
read_after (values, m) = read_seq 5 8 8 there true false m

-- Two reads are sent with the second call, and both values come back, with nothing left behind. After
-- a zero-copy read the value of the read with a buffer comes back too. After a zero-copy write it is
-- lost: the first buffer is tested against the first request, which is the write.
batches :
    ((read_seq 5 8 8 there false false machine >>= read_after >>= seen)
      ≡ done (some (99 ∷ 99 ∷ []), true, 0 ∷ 0 ∷ []))
    × ((read_seq_into 5 8 8 there 70000 false false 8 machine >>= read_after >>= values_of)
        ≡ done (some (99 ∷ [])))
    × ((write_seq_from 5 8 8 there 70000 false false 8 true machine >>= read_after >>= values_of)
        ≡ done (some []))
unfolding RingCounter.fresh RingCounter.acquire RingCounter.release RingCounter.free_from
    RingBuf.fresh RingBuf.acquire RingBuf.release place keep_align nextalign place_front wrap_end
    drop_unused drop_start get_lane_idx get_conn get_rkey read_config post poll handle complete
    acquire_op_counter release_op_counter acquire_seq_idx release_seq_idx in_range
    acquire_staging_buf release_staging_buf enter_lane leave_lane take_lane drop_lane run_op
    link_seq_send_wrs chain release_bufs release_counters open_batch find_seq_idx results
    get_seq_op_result close_batch fill_last begin_seq stage_seq count_seq keep_request send_batch
    read_seq read_seq_into write_seq_from is_local write_config_seg id raw address lookup insert
    erase
batches = (refl, refl, refl)
