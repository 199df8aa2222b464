-- ===== src/SimpleAsync/Batches.antt =====
-- ReadSeqAsync and WriteSeqAsync of rdma/include/remus/simple_async_compute_thread.h.
use remus_tutorial.Prelude.{
  ℕ, Bool, true, ◌&&◌, if◌then◌else◌, Option, none, some, Outcome, done, ◌>>=◌, List, length,
}
use remus_tutorial.RdmaPtr.{RdmaPtr, address}
use remus_tutorial.RdmaOps.{read_config, write_fields, write_config, write_config_seg}
use remus_tutorial.RdmaOps.Ibv.{Verbs, SendWr, blank}
use remus_tutorial.ComputeThread.{Machine}
use remus_tutorial.ComputeThread.Operations.{is_local}
use remus_tutorial.ComputeThread.Sequences.{
  with_batch, batch_at, link_seq_send_wrs, chain, get_seq_op_result, close_batch,
}
use remus_tutorial.ComputeThread.Batches.{
  SeqRoute, fill_last, begin_seq, stage_seq, count_seq, keep_request,
}
use remus_tutorial.SimpleAsync.{AsyncResult, ready, run_async}

-- Results of a batch, where the call is signaled.
abbrev pub Results : Type 0
Results = Option (List ℕ)

module _ {v : Verbs} where
  -- What follows the loop.
  unfoldable pub end_batch : ℕ → ℕ → Machine v → Outcome (Results × Machine v)
  end_batch sizeof_t index m = do
    b ← batch_at index m
    result ← get_seq_op_result sizeof_t b m
    m' ← close_batch index b m
    done (some result, m')

  unfoldable pub send_batch_async :
      ℕ
      → SeqRoute
      → ℕ
      → (SendWr → SendWr)
      → Machine v
      → Outcome (AsyncResult Results (Machine v) × Machine v)
  send_batch_async sizeof_t r op config m = do
    b ← batch_at r.index m
    let wrs = fill_last config (link_seq_send_wrs b.send_wrs)
    let m1 = with_batch r.index (record b { send_wrs = wrs; posted = true }) m
    requests ← chain (length wrs) wrs (some 0)
    run_async requests (record { conn = r.conn; ack = op; rest = end_batch sizeof_t r.index }) m1

  abbrev pub keep_or_send_async :
      ℕ
      → SeqRoute
      → ℕ
      → Bool
      → (Option ℕ → SendWr → SendWr)
      → Machine v
      → Outcome (AsyncResult Results (Machine v) × Machine v)
  keep_or_send_async sizeof_t r op signal config m =
      let sent = send_batch_async sizeof_t r op (config (some op)) m in
      let kept = keep_request r.index (config none) m >>= λ (result, m'). done (ready result, m') in
      if signal then sent else kept

  module _ (sizeof_t alignof_t : ℕ) where
    unfoldable pub read_seq_async :
        RdmaPtr → Bool → Bool → Machine v → Outcome (AsyncResult Results (Machine v) × Machine v)
    read_seq_async ptr signal fence m = do
      (r, m1) ← begin_seq ptr m
      (buf, m2) ← stage_seq r.index sizeof_t alignof_t m1
      (op, m3) ← count_seq r.index m2
      keep_or_send_async sizeof_t r op signal
          (λ ack. read_config ptr buf r.rkey r.lkey ack sizeof_t signal fence) m3

    -- The version that reads into `seg`.
    unfoldable pub read_seq_async_into :
        RdmaPtr
        → ℕ
        → Bool
        → Bool
        → ℕ
        → Machine v
        → Outcome (AsyncResult Results (Machine v) × Machine v)
    read_seq_async_into ptr seg signal fence size m = do
      (r, m1) ← begin_seq ptr m
      (op, m2) ← count_seq r.index m1
      keep_or_send_async sizeof_t r op signal
          (λ ack. read_config ptr seg r.rkey r.lkey ack size signal fence) m2

    -- Unlike WriteSeq it takes a staging buffer of `size` bytes, and sends `size` bytes in any case.
    abbrev remote_write_seq_async :
        RdmaPtr
        → ℕ
        → Bool
        → Bool
        → ℕ
        → Machine v
        → Outcome (AsyncResult Results (Machine v) × Machine v)
    remote_write_seq_async ptr val signal fence size m = do
      (r, m1) ← begin_seq ptr m
      (buf, m2) ← stage_seq r.index size alignof_t m1
      (op, m3) ← count_seq r.index m2
      (_, w) ←
          write_config v ptr val buf r.rkey r.lkey none sizeof_t size signal fence blank m3.world
      keep_or_send_async sizeof_t r op signal
          (λ ack wr. write_fields ptr buf r.rkey r.lkey ack size signal fence wr)
          (record m3 { world = w })

    unfoldable pub write_seq_async :
        RdmaPtr
        → ℕ
        → Bool
        → Bool
        → ℕ
        → Bool
        → Machine v
        → Outcome (AsyncResult Results (Machine v) × Machine v)
    write_seq_async ptr val signal fence size local_copy m =
        let remote = remote_write_seq_async ptr val signal fence size m in
        if local_copy && is_local ptr m
        then done (ready none, record m { world = v.store (address ptr) size val m.world })
        else remote

    abbrev remote_write_seq_async_from :
        RdmaPtr
        → ℕ
        → Bool
        → Bool
        → ℕ
        → Machine v
        → Outcome (AsyncResult Results (Machine v) × Machine v)
    remote_write_seq_async_from ptr seg signal fence size m = do
      (r, m1) ← begin_seq ptr m
      (op, m2) ← count_seq r.index m1
      wr ← write_config_seg ptr seg r.rkey r.lkey none size signal fence blank
      keep_or_send_async sizeof_t r op signal
          (λ ack wr. write_fields ptr seg r.rkey r.lkey ack size signal fence wr) m2

    unfoldable pub write_seq_async_from :
        RdmaPtr
        → ℕ
        → Bool
        → Bool
        → ℕ
        → Bool
        → Machine v
        → Outcome (AsyncResult Results (Machine v) × Machine v)
    write_seq_async_from ptr seg signal fence size local_copy m =
        let remote = remote_write_seq_async_from ptr seg signal fence size m in
        if local_copy && is_local ptr m
        then done (
          ready none,
          record m { world = v.store (address ptr) size (v.load seg size m.world) m.world },
        )
        else remote
