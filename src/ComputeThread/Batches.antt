-- ===== src/ComputeThread/Batches.antt =====
-- ReadSeq and WriteSeq of `ComputeThread`: a call adds a request to the open batch; a signaled call
-- also sends the batch, waits for its end and returns what its reads have read.
use remus_tutorial.Prelude.{
  ℕ, Bool, true, ◌&&◌, if◌then◌else◌, Option, none, some, Outcome, done, ◌>>=◌, List, [], ◌∷◌, ◌++◌,
  length,
}
use remus_tutorial.RdmaPtr.{RdmaPtr, address, raw}
use remus_tutorial.ComputeNode.{get_conn, get_rkey}
use remus_tutorial.RdmaOps.{read_config, write_fields, write_config, write_config_seg}
use remus_tutorial.RdmaOps.Ibv.{Verbs, SendWr, blank}
use remus_tutorial.ComputeThread.{Machine, acquire_op_counter, acquire_staging_buf, in_range}
use remus_tutorial.ComputeThread.Operations.{run_op, is_local}
use remus_tutorial.ComputeThread.Sequences.{
  with_batch, batch_at, link_seq_send_wrs, chain, find_seq_idx, get_seq_op_result, close_batch,
}

-- Where a call of a batch sends its request.
pub record SeqRoute : Type 0 where
  pub index : ℕ
  pub conn : ℕ
  pub lkey : ℕ
  pub rkey : ℕ

-- `send_wrs.back()` is filled in.
unfoldable pub fill_last : (SendWr → SendWr) → List SendWr → List SendWr
fill_last f [] = []
fill_last f (wr ∷ []) = f wr ∷ []
fill_last f (wr ∷ wr' ∷ wrs) = wr ∷ fill_last f (wr' ∷ wrs)

module _ {v : Verbs} where
  unfoldable pub begin_seq : RdmaPtr → Machine v → Outcome (SeqRoute × Machine v)
  begin_seq ptr m = do
    (i, m1) ← find_seq_idx ptr m
    b ← batch_at i m1
    ci ← get_conn (raw ptr) b.lane m1.node
    rkey ← get_rkey (raw ptr) m1.node
    done (record { index = i; conn = ci.conn_; lkey = ci.lkey_; rkey = rkey }, m1)

  -- A staging buffer that the batch keeps.
  unfoldable pub stage_seq : ℕ → ℕ → ℕ → Machine v → Outcome (ℕ × Machine v)
  stage_seq i size align m = do
    let (buf, t) = acquire_staging_buf size align m.thread
    place ← in_range size buf t.staging
    let m1 = record m { thread = t }
    b ← batch_at i m1
    done (
      place,
      with_batch i (record b { staging_bufs = b.staging_bufs ++ ((place, size) ∷ []) }) m1,
    )

  -- A counter that the batch keeps, and a request that is still blank.
  unfoldable pub count_seq : ℕ → Machine v → Outcome (ℕ × Machine v)
  count_seq i m = do
    (op, t) ← acquire_op_counter m.thread
    let m1 = record m { thread = t }
    b ← batch_at i m1
    done (
      op,
      with_batch i
          (record b {
            op_counters = b.op_counters ++ (op ∷ []);
            send_wrs = b.send_wrs ++ (blank ∷ []);
          })
          m1,
    )

  -- A call without a signal ends here.
  unfoldable pub keep_request :
      ℕ → (SendWr → SendWr) → Machine v → Outcome (Option (List ℕ) × Machine v)
  keep_request i config m = do
    b ← batch_at i m
    done (none, with_batch i (record b { send_wrs = fill_last config b.send_wrs }) m)

  -- A call with a signal links the batch, fills in the last request, sends the chain, waits, and
  -- returns the results.
  unfoldable pub send_batch :
      ℕ → ℕ → SeqRoute → ℕ → (SendWr → SendWr) → Machine v → Outcome (Option (List ℕ) × Machine v)
  send_batch fuel sizeof_t r op config m = do
    b ← batch_at r.index m
    let wrs = fill_last config (link_seq_send_wrs b.send_wrs)
    let m1 = with_batch r.index (record b { send_wrs = wrs }) m
    requests ← chain (length wrs) wrs (some 0)
    m2 ← run_op fuel r.conn requests op m1
    b' ← batch_at r.index m2
    let sent = record b' { posted = true }
    let m3 = with_batch r.index sent m2
    result ← get_seq_op_result sizeof_t sent m3
    m4 ← close_batch r.index sent m3
    done (some result, m4)

  abbrev pub keep_or_send :
      ℕ
      → ℕ
      → SeqRoute
      → ℕ
      → Bool
      → (Option ℕ → SendWr → SendWr)
      → Machine v
      → Outcome (Option (List ℕ) × Machine v)
  keep_or_send fuel sizeof_t r op signal config m =
      let sent = send_batch fuel sizeof_t r op (config (some op)) m in
      let kept = keep_request r.index (config none) m in if signal then sent else kept

  module _ (fuel sizeof_t alignof_t : ℕ) where
    unfoldable pub read_seq :
        RdmaPtr → Bool → Bool → Machine v → Outcome (Option (List ℕ) × Machine v)
    read_seq ptr signal fence m = do
      (r, m1) ← begin_seq ptr m
      (buf, m2) ← stage_seq r.index sizeof_t alignof_t m1
      (op, m3) ← count_seq r.index m2
      keep_or_send fuel sizeof_t r op signal
          (λ ack. read_config ptr buf r.rkey r.lkey ack sizeof_t signal fence) m3

    -- The version that reads into `seg`.
    unfoldable pub read_seq_into :
        RdmaPtr → ℕ → Bool → Bool → ℕ → Machine v → Outcome (Option (List ℕ) × Machine v)
    read_seq_into ptr seg signal fence size m = do
      (r, m1) ← begin_seq ptr m
      (op, m2) ← count_seq r.index m1
      keep_or_send fuel sizeof_t r op signal
          (λ ack. read_config ptr seg r.rkey r.lkey ack size signal fence) m2

    abbrev remote_write_seq :
        RdmaPtr → ℕ → Bool → Bool → ℕ → Machine v → Outcome (Option (List ℕ) × Machine v)
    remote_write_seq ptr val signal fence size m = do
      (r, m1) ← begin_seq ptr m
      (buf, m2) ← stage_seq r.index sizeof_t alignof_t m1
      (op, m3) ← count_seq r.index m2
      let length = if signal then size else sizeof_t
      (_, w) ←
          write_config v ptr val buf r.rkey r.lkey none sizeof_t length signal fence blank m3.world
      keep_or_send fuel sizeof_t r op signal
          (λ ack wr. write_fields ptr buf r.rkey r.lkey ack length signal fence wr)
          (record m3 { world = w })

    -- A local pointer is written at once, also with a signal: then nothing is sent.
    unfoldable pub write_seq :
        RdmaPtr → ℕ → Bool → Bool → ℕ → Bool → Machine v → Outcome (Option (List ℕ) × Machine v)
    write_seq ptr val signal fence size local_copy m =
        let remote = remote_write_seq ptr val signal fence size m in
        if local_copy && is_local ptr m
        then done (none, record m { world = v.store (address ptr) size val m.world })
        else remote

    abbrev remote_write_seq_from :
        RdmaPtr → ℕ → Bool → Bool → ℕ → Machine v → Outcome (Option (List ℕ) × Machine v)
    remote_write_seq_from ptr seg signal fence size m = do
      (r, m1) ← begin_seq ptr m
      (op, m2) ← count_seq r.index m1
      wr ← write_config_seg ptr seg r.rkey r.lkey none size signal fence blank
      keep_or_send fuel sizeof_t r op signal
          (λ ack wr. write_fields ptr seg r.rkey r.lkey ack size signal fence wr) m2

    -- The version that writes from `seg`.
    unfoldable pub write_seq_from :
        RdmaPtr → ℕ → Bool → Bool → ℕ → Bool → Machine v → Outcome (Option (List ℕ) × Machine v)
    write_seq_from ptr seg signal fence size local_copy m =
        let remote = remote_write_seq_from ptr seg signal fence size m in
        if local_copy && is_local ptr m
        then done (
          none,
          record m { world = v.store (address ptr) size (v.load seg size m.world) m.world },
        )
        else remote
