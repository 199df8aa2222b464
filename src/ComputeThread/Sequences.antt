-- ===== src/ComputeThread/Sequences.antt =====
-- The batches of `ComputeThread`: ReadSeq and WriteSeq gather requests and send them as one chain
-- with the first call that is signaled.
use remus_tutorial.Prelude.{
  ℕ, zero, suc, ◌+◌, ◌-◌, ◌%◌, Bool, true, false, ltb, if◌then◌else◌, Option, none, some, Outcome,
  done, fault, diverge, ◌>>=◌, ◌>>◌, assert, at, List, [], ◌∷◌, length, get_elem?, lookup, insert,
  erase,
}
use remus_tutorial.RdmaPtr.{RdmaPtr}
use remus_tutorial.RdmaOps.Ibv.{Verbs, SendWr, Opcode, rdma_write}
use remus_tutorial.ComputeThread.{
  ComputeThread, Machine, SeqSendWrs, release_op_counter, acquire_seq_idx, release_seq_idx,
  release_staging_buf, in_range,
}
use remus_tutorial.ComputeThread.Operations.{take_lane, drop_lane}

-- An entry that `operator[]` has just made.
abbrev pub new_batch : SeqSendWrs
new_batch = record {
  posted = false;
  seq_idx = 0;
  lane = 0;
  op_counters = [];
  staging_bufs = [];
  send_wrs = [];
}

-- `link_seq_send_wrs`, on the requests from index `i` on: each points to the one after it.
abbrev pub link_from : ℕ → List SendWr → List SendWr
link_from i [] = []
link_from i (wr ∷ []) = record wr { next = none } ∷ []
link_from i (wr ∷ wr' ∷ wrs) = record wr { next = some (suc i) } ∷ link_from (suc i) (wr' ∷ wrs)

unfoldable pub link_seq_send_wrs : List SendWr → List SendWr
link_seq_send_wrs wrs = link_from 0 wrs

-- The requests that the device meets from index `i` on, by their `next` pointers, up to a null
-- pointer. A walk that meets more requests than the fuel does not end, and an index past the last
-- request is a fault.
unfoldable pub chain : ℕ → List SendWr → Option ℕ → Outcome (List SendWr)
chain zero wrs none = done []
chain zero wrs (some i) = diverge
chain (suc fuel) wrs none = done []
chain (suc fuel) wrs (some i) = elim (get_elem? wrs i) [
  | none ↦ fault
  | some wr ↦ chain fuel wrs wr.next >>= λ more. done (wr ∷ more)
]

abbrev is_write : Opcode → Bool
is_write rdma_write = true
is_write _ = false

-- The index of the batch before `seq_op_counter_end`.
abbrev pub last_seq_idx : ComputeThread → ℕ
last_seq_idx t = (t.seq_op_counter_ring.counter_end + t.ops_per_thread - 1) % t.ops_per_thread

unfoldable pub release_bufs : List (ℕ × ℕ) → ComputeThread → Outcome ComputeThread
release_bufs [] t = done t
release_bufs ((buf, size) ∷ bufs) t = release_staging_buf buf t >>= λ t'. release_bufs bufs t'

unfoldable pub release_counters : List ℕ → ComputeThread → Outcome ComputeThread
release_counters [] t = done t
release_counters (idx ∷ more) t = release_op_counter idx t >>= λ t'. release_counters more t'

module _ {v : Verbs} where
  abbrev pub with_batch : ℕ → SeqSendWrs → Machine v → Machine v
  with_batch i b m = record m {
    thread = record m.thread { seq_send_wrs = insert i b m.thread.seq_send_wrs };
  }

  abbrev pub batch_at : ℕ → Machine v → Outcome SeqSendWrs
  batch_at i m = at (lookup i m.thread.seq_send_wrs)

  -- A new batch. The slot was free, so the map has no entry for it.
  unfoldable pub open_batch : RdmaPtr → Machine v → Outcome (ℕ × Machine v)
  open_batch ptr m = do
    assert (ltb (length m.thread.seq_send_wrs) m.thread.ops_per_thread)
    (i, t) ← acquire_seq_idx m.thread
    (lane, m') ← take_lane ptr (record m { thread = t })
    done (i, with_batch i (record new_batch { seq_idx = i; lane = lane }) m')

  abbrev reuse_batch : Option SeqSendWrs → RdmaPtr → Machine v → Outcome (ℕ × Machine v)
  reuse_batch none ptr m = open_batch ptr m
  reuse_batch (some b) ptr m =
      let opened = open_batch ptr m in
      if b.posted
      then opened
      else (assert (ltb (length b.send_wrs) m.thread.wrs_per_seq)
          >> done (last_seq_idx m.thread, m))

  -- The batch that is open, or a new one.
  unfoldable pub find_seq_idx : RdmaPtr → Machine v → Outcome (ℕ × Machine v)
  find_seq_idx ptr m = reuse_batch (lookup (last_seq_idx m.thread) m.thread.seq_send_wrs) ptr m

  -- The values of the requests that are not writes, from the staging buffers from index `i` on.
  unfoldable pub results : ℕ → ℕ → List (ℕ × ℕ) → List SendWr → Machine v → Outcome (List ℕ)
  results sizeof_t i [] wrs m = done []
  results sizeof_t i ((buf, size) ∷ bufs) wrs m = do
    wr ← at (get_elem? wrs i)
    place ← in_range size (some buf) m.thread.staging
    more ← results sizeof_t (suc i) bufs wrs m
    done (if is_write wr.opcode then more else v.load place sizeof_t m.world ∷ more)

  -- `get_seq_op_result`
  unfoldable pub get_seq_op_result : ℕ → SeqSendWrs → Machine v → Outcome (List ℕ)
  get_seq_op_result sizeof_t b m = results sizeof_t 0 b.staging_bufs b.send_wrs m

  -- `erase`: the fields are destroyed in the reverse of their order.
  unfoldable pub close_batch : ℕ → SeqSendWrs → Machine v → Outcome (Machine v)
  close_batch i b m = do
    t1 ← release_bufs b.staging_bufs m.thread
    t2 ← release_counters b.op_counters t1
    m' ← drop_lane b.lane (record m { thread = t2 })
    t3 ← release_seq_idx b.seq_idx m'.thread
    done (record m' { thread = record t3 { seq_send_wrs = erase i t3.seq_send_wrs } })
