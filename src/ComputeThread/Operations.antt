-- ===== src/ComputeThread/Operations.antt =====
-- The operations of `ComputeThread` that wait for their end: Read, Write, CompareAndSwap and
-- FetchAndAdd. `fuel` bounds the turns of the loop that polls. `sizeof_t` and `alignof_t` are those
-- of the type of the object; a cache flush or a fence of the processor changes nothing here.
use remus_tutorial.Prelude.{
  ℕ, Bool, true, ◌&&◌, ◌==◌, ◌/◌, ◌^◌, u64, if◌then◌else◌, some, Outcome, done, ◌>>=◌, List, [],
  ◌∷◌,
}
use remus_tutorial.RdmaPtr.{RdmaPtr, id, address, raw}
use remus_tutorial.QpSchedPolicy.{get_lane_idx}
use remus_tutorial.ComputeNode.{get_conn, get_rkey}
use remus_tutorial.RdmaOps.{
  read_config, write_config, write_config_seg, compare_and_swap_config, fetch_and_add_config, post,
  poll,
}
use remus_tutorial.RdmaOps.Ibv.{Verbs, SendWr, blank}
use remus_tutorial.ComputeThread.{Machine, enter_lane, leave_lane, one_op_counter, one_staging_buf}

-- What the operations look up before they fill a request.
pub record Route : Type 0 where
  pub lane : ℕ
  pub conn : ℕ
  pub lkey : ℕ
  pub rkey : ℕ
  pub op_counter : ℕ

module _ {v : Verbs} where
  unfoldable pub take_lane : RdmaPtr → Machine v → Outcome (ℕ × Machine v)
  take_lane ptr m = do
    (lane, q) ← get_lane_idx (id ptr) m.thread.qp_sched_pol_
    counters ← enter_lane lane m.node.lane_op_counters_
    done (
      lane,
      record m {
        thread = record m.thread { qp_sched_pol_ = q };
        node = record m.node { lane_op_counters_ = counters };
      },
    )

  -- The end of the scope of the lane.
  unfoldable pub drop_lane : ℕ → Machine v → Outcome (Machine v)
  drop_lane lane m = do
    counters ← leave_lane lane m.node.lane_op_counters_
    done (record m { node = record m.node { lane_op_counters_ = counters } })

  unfoldable pub begin_op : RdmaPtr → Machine v → Outcome (Route × Machine v)
  begin_op ptr m = do
    (lane, m1) ← take_lane ptr m
    ci ← get_conn (raw ptr) lane m1.node
    rkey ← get_rkey (raw ptr) m1.node
    (op, t) ← one_op_counter m1.thread
    done (
      record { lane = lane; conn = ci.conn_; lkey = ci.lkey_; rkey = rkey; op_counter = op },
      record m1 { thread = t },
    )

  unfoldable pub stage : ℕ → ℕ → Machine v → Outcome (ℕ × Machine v)
  stage size align m = do
    (buf, t) ← one_staging_buf size align m.thread
    done (buf, record m { thread = t })

  -- `Post` and `Poll`.
  unfoldable pub run_op : ℕ → ℕ → List SendWr → ℕ → Machine v → Outcome (Machine v)
  run_op fuel conn chain ack m = do
    (counters, w) ← post v conn chain ack m.thread.op_counters_ m.world
    (counters', w') ← poll v fuel conn ack counters w
    done (record m { thread = record m.thread { op_counters_ = counters' }; world = w' })

  unfoldable pub is_local : RdmaPtr → Machine v → Bool
  is_local ptr m = id ptr == m.thread.node_id

  unfoldable pub seg_id : RdmaPtr → Machine v → ℕ
  seg_id ptr m = raw ptr / 2 ^ m.thread.seg_size

  module _ (fuel : ℕ) where
    unfoldable pub read : ℕ → ℕ → RdmaPtr → Bool → Machine v → Outcome (ℕ × Machine v)
    read sizeof_t alignof_t ptr fence m = do
      (r, m1) ← begin_op ptr m
      (buf, m2) ← stage sizeof_t alignof_t m1
      let wr = read_config ptr buf r.rkey r.lkey (some r.op_counter) sizeof_t true fence blank
      m3 ← run_op fuel r.conn (wr ∷ []) r.op_counter m2
      m4 ← drop_lane r.lane m3
      done (v.load buf sizeof_t m3.world, m4)

    -- The version that reads into `seg`.
    unfoldable pub read_into : RdmaPtr → ℕ → Bool → ℕ → Machine v → Outcome (Machine v)
    read_into ptr seg fence size m = do
      (r, m1) ← begin_op ptr m
      let wr = read_config ptr seg r.rkey r.lkey (some r.op_counter) size true fence blank
      m2 ← run_op fuel r.conn (wr ∷ []) r.op_counter m1
      drop_lane r.lane m2

    abbrev remote_write : ℕ → ℕ → RdmaPtr → ℕ → Bool → ℕ → Machine v → Outcome (Machine v)
    remote_write sizeof_t alignof_t ptr val fence size m = do
      (r, m1) ← begin_op ptr m
      (buf, m2) ← stage size alignof_t m1
      (wr, w) ←
          write_config v ptr val buf r.rkey r.lkey (some r.op_counter) sizeof_t size true fence
            blank m2.world
      m3 ← run_op fuel r.conn (wr ∷ []) r.op_counter (record m2 { world = w })
      drop_lane r.lane m3

    -- A pointer to the machine's own memory is written without RDMA, if the call allows it.
    unfoldable pub write : ℕ → ℕ → RdmaPtr → ℕ → Bool → ℕ → Bool → Machine v → Outcome (Machine v)
    write sizeof_t alignof_t ptr val fence size local_copy m =
        if local_copy && is_local ptr m
        then done (record m { world = v.store (address ptr) size val m.world })
        else remote_write sizeof_t alignof_t ptr val fence size m

    abbrev remote_write_from : RdmaPtr → ℕ → Bool → ℕ → Machine v → Outcome (Machine v)
    remote_write_from ptr seg fence size m = do
      (r, m1) ← begin_op ptr m
      wr ← write_config_seg ptr seg r.rkey r.lkey (some r.op_counter) size true fence blank
      m2 ← run_op fuel r.conn (wr ∷ []) r.op_counter m1
      drop_lane r.lane m2

    -- The version that writes from `seg`.
    unfoldable pub write_from : RdmaPtr → ℕ → Bool → ℕ → Bool → Machine v → Outcome (Machine v)
    write_from ptr seg fence size local_copy m =
        if local_copy && is_local ptr m
        then done
            (record m { world = v.store (address ptr) size (v.load seg size m.world) m.world })
        else remote_write_from ptr seg fence size m

    unfoldable pub compare_and_swap :
        ℕ → ℕ → RdmaPtr → ℕ → ℕ → Bool → Machine v → Outcome (ℕ × Machine v)
    compare_and_swap sizeof_t alignof_t ptr expected swap fence m = do
      (r, m1) ← begin_op ptr m
      (buf, m2) ← stage sizeof_t alignof_t m1
      let wr =
          compare_and_swap_config ptr (u64 expected) (u64 swap) buf r.rkey r.lkey
            (some r.op_counter) true fence blank
      m3 ← run_op fuel r.conn (wr ∷ []) r.op_counter m2
      m4 ← drop_lane r.lane m3
      done (v.load buf sizeof_t m3.world, m4)

    unfoldable pub fetch_and_add : ℕ → ℕ → RdmaPtr → ℕ → Bool → Machine v → Outcome (ℕ × Machine v)
    fetch_and_add sizeof_t alignof_t ptr add fence m = do
      (r, m1) ← begin_op ptr m
      (buf, m2) ← stage sizeof_t alignof_t m1
      let wr = fetch_and_add_config ptr add buf r.rkey r.lkey (some r.op_counter) true fence blank
      m3 ← run_op fuel r.conn (wr ∷ []) r.op_counter m2
      m4 ← drop_lane r.lane m3
      done (v.load buf sizeof_t m3.world, m4)
