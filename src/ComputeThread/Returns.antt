-- ===== src/ComputeThread/Returns.antt =====
-- The operations that wait return when their completion has come, and leave nothing behind.
use remus_tutorial.Prelude.{
  ℕ, ◌+◌, ◌<◌, ◌≡◌, refl, Bool, true, false, ◌&&◌, ◌==◌, u64, some, done, [], ◌∷◌,
}
use remus_tutorial.RdmaPtr.{RdmaPtr, address}
use remus_tutorial.RdmaOps.{
  read_config, write_fields, write_config, write_config_seg, compare_and_swap_config,
  fetch_and_add_config,
}
use remus_tutorial.RdmaOps.Ibv.{Verbs, blank}
use remus_tutorial.RdmaOps.Wait.{Delivers}
use remus_tutorial.ComputeThread.{Machine}
use remus_tutorial.ComputeThread.Operations.{is_local, read, write, compare_and_swap, fetch_and_add}
use remus_tutorial.ComputeThread.Ready.{Ready, HasRoom, begun, begin_op_ready, stage_ready}
use remus_tutorial.ComputeThread.Ended.{Ended, ack, ran, run_staged, drop_ran, ended, fetch_returns}

module _ {v : Verbs} {ptr : RdmaPtr} {m : Machine v} (r : Ready ptr m) (n fuel : ℕ)
    (enough : n + 1 < fuel) where
  -- Read, where nothing stands in its way, a staging buffer is free, the device takes the request
  -- and its completion comes after `n` empty polls, with more than `n + 1` turns of fuel: it returns
  -- what stands in the staging buffer then, and leaves the node, the slots and the counter as `Ended`
  -- says and the buffer given back.
  pub read_returns :
      (sizeof_t alignof_t : ℕ) (fence : Bool) {w w' : v.World}
      (b : HasRoom sizeof_t alignof_t m.thread.staging)
      → v.post_send r.info.conn_
          (read_config ptr b.buf r.rkey r.info.lkey_ (some (ack m)) sizeof_t true fence blank ∷ [])
          m.world
        ≡ some w
      → Delivers v r.info.conn_ (ack m) n w w'
      → (m' : Machine v) × (read fuel sizeof_t alignof_t ptr fence m
          ≡ done (v.load b.buf sizeof_t w', m'))
        × Ended m w' m'
        × (m'.thread.staging ≡ b.after)
  unfolding read
  read_returns sizeof_t alignof_t fence b posted d =
      fetch_returns r n fuel enough sizeof_t alignof_t
        (λ route buf.
          read_config ptr buf route.rkey route.lkey (some route.op_counter) sizeof_t true fence
            blank)
        b posted d

  -- CompareAndSwap under the conditions of Read: it returns the old value that the device has put
  -- into the staging buffer, and leaves the node, the slots and the counter as `Ended` says and the
  -- buffer given back.
  compare_and_swap_returns :
      (sizeof_t alignof_t expected swap : ℕ) (fence : Bool) {w w' : v.World}
      (b : HasRoom sizeof_t alignof_t m.thread.staging)
      → v.post_send r.info.conn_
          (compare_and_swap_config ptr
              (u64 expected)
              (u64 swap)
              b.buf
              r.rkey
              r.info.lkey_
              (some (ack m))
              true
              fence
              blank
            ∷ [])
          m.world
        ≡ some w
      → Delivers v r.info.conn_ (ack m) n w w'
      → (m' : Machine v) × (compare_and_swap fuel sizeof_t alignof_t ptr expected swap fence m
          ≡ done (v.load b.buf sizeof_t w', m'))
        × Ended m w' m'
        × (m'.thread.staging ≡ b.after)
  unfolding compare_and_swap
  compare_and_swap_returns sizeof_t alignof_t expected swap fence b posted d =
      fetch_returns r n fuel enough sizeof_t alignof_t
        (λ route buf.
          compare_and_swap_config ptr (u64 expected) (u64 swap) buf route.rkey route.lkey
            (some route.op_counter) true fence blank)
        b posted d

  -- The same of FetchAndAdd.
  fetch_and_add_returns :
      (sizeof_t alignof_t add : ℕ) (fence : Bool) {w w' : v.World}
      (b : HasRoom sizeof_t alignof_t m.thread.staging)
      → v.post_send r.info.conn_
          (fetch_and_add_config ptr add b.buf r.rkey r.info.lkey_ (some (ack m)) true fence blank
            ∷ [])
          m.world
        ≡ some w
      → Delivers v r.info.conn_ (ack m) n w w'
      → (m' : Machine v) × (fetch_and_add fuel sizeof_t alignof_t ptr add fence m
          ≡ done (v.load b.buf sizeof_t w', m'))
        × Ended m w' m'
        × (m'.thread.staging ≡ b.after)
  unfolding fetch_and_add
  fetch_and_add_returns sizeof_t alignof_t add fence b posted d =
      fetch_returns r n fuel enough sizeof_t alignof_t
        (λ route buf.
          fetch_and_add_config ptr add buf route.rkey route.lkey (some route.op_counter) true fence
            blank)
        b posted d

  -- What Write makes of the staging buffer before it sends it.
  abbrev prepared : ℕ → ℕ → ℕ → ℕ → v.World
  prepared sizeof_t val size buf = v.store buf sizeof_t val (v.store buf size 0 m.world)

  -- Write to a pointer that is not written locally, whose address is not that of the staging buffer,
  -- under the conditions of Read: it ends with the value prepared in the buffer before the request is
  -- posted, and leaves the node, the slots and the counter as `Ended` says and the buffer given back.
  pub write_returns :
      (sizeof_t alignof_t val size : ℕ) (fence local_copy : Bool) {w w' : v.World}
      (b : HasRoom size alignof_t m.thread.staging)
      → (local_copy && is_local ptr m) ≡ false
      → (b.buf == address ptr) ≡ false
      → v.post_send r.info.conn_
          (write_fields ptr b.buf r.rkey r.info.lkey_ (some (ack m)) size true fence blank ∷ [])
          (prepared sizeof_t val size b.buf)
        ≡ some w
      → Delivers v r.info.conn_ (ack m) n w w'
      → (m' : Machine v) × (write fuel sizeof_t alignof_t ptr val fence size local_copy m ≡ done m')
        × Ended m w' m'
        × (m'.thread.staging ≡ b.after)
  unfolding write write_config write_config_seg
  write_returns sizeof_t alignof_t val size fence local_copy {w} {w'} b remote apart posted d =
      let (ring, begin, shows, _) = begin_op_ready r in
      let wr = write_fields ptr b.buf r.rkey r.info.lkey_ (some (ack m)) size true fence blank in
      (
        record (ran r ring b.after w') { node = m.node },
        rw
            (
              remote,
              begin,
              stage_ready (begun r ring) b,
              apart,
              run_staged r n fuel enough ring b.after wr (prepared sizeof_t val size b.buf) posted
                  d,
              drop_ran r ring b.after w',
            )
            refl,
        ended r ring b.after w' shows,
        refl,
      )
