-- ===== src/SimpleAsync.antt =====
-- rdma/include/remus/simple_async_compute_thread.h and rdma/include/remus/simple_async_result.h: the
-- operations as coroutines. A coroutine runs to the first poll that does not find its end; each
-- resumption polls once more. Its frame keeps what the body still has to do.
pub mod Handles
pub mod Owns
pub mod Await
pub mod Batches
mod Tests
use remus_tutorial.Prelude.{
  ℕ, zero, suc, Bool, true, false, ◌&&◌, if◌then◌else◌, Option, none, some, Outcome, done, diverge,
  ◌>>=◌, List, [], ◌∷◌, length,
}
use remus_tutorial.RdmaPtr.{RdmaPtr, address}
use remus_tutorial.RdmaOps.{
  read_config, write_fields, write_config, write_config_seg, post, poll_async,
}
use remus_tutorial.RdmaOps.Ibv.{Verbs, SendWr, blank}
use remus_tutorial.ComputeThread.{Machine, SeqSendWrs}
use remus_tutorial.ComputeThread.Operations.{begin_op, stage, drop_lane, is_local}
use remus_tutorial.ComputeThread.Sequences.{
  with_batch, batch_at, link_seq_send_wrs, chain, get_seq_op_result, close_batch,
}
use remus_tutorial.ComputeThread.Batches.{
  SeqRoute, fill_last, begin_seq, stage_seq, count_seq, keep_request,
}

-- A coroutine that is suspended in its loop, on a machine `M`.
pub record Frame (A M : Type 0) : Type 0 where
  pub conn : ℕ
  pub ack : ℕ
  pub rest : M → Outcome (A × M)

-- `AsyncResult`: `get_ready` with the value, or a handle to resume.
pub data AsyncResult (A M : Type 0) : Type 0 where
  ready : A → AsyncResult A M
  suspended : Frame A M → AsyncResult A M

module _ {v : Verbs} where
  module _ {A : Type 0} where
    abbrev poll_once : Frame A (Machine v) → Machine v → Outcome (Bool × Machine v)
    poll_once f m = do
      (ended, counters, w) ← poll_async v f.conn f.ack m.thread.op_counters_ m.world
      done (ended, record m { thread = record m.thread { op_counters_ = counters }; world = w })

    -- `resume`, and the first run of the loop.
    unfoldable pub resume :
        Frame A (Machine v) → Machine v → Outcome (AsyncResult A (Machine v) × Machine v)
    resume f m = do
      (ended, m') ← poll_once f m
      let finish = f.rest m' >>= λ (a, m''). done (ready a, m'')
      if ended then finish else done (suspended f, m')

    -- A caller that resumes the coroutine until it is ready, at most `fuel` times.
    unfoldable pub await : ℕ → AsyncResult A (Machine v) × Machine v → Outcome (A × Machine v)
    await fuel (ready a, m) = done (a, m)
    await zero (suspended f, m) = diverge
    await (suc fuel) (suspended f, m) = resume f m >>= await fuel

  -- `Post`, and then the loop.
  unfoldable pub run_async :
      {A : Type 0}
      → List SendWr
      → Frame A (Machine v)
      → Machine v
      → Outcome (AsyncResult A (Machine v) × Machine v)
  run_async wrs f m = do
    (counters, w) ← post v f.conn wrs f.ack m.thread.op_counters_ m.world
    resume f (record m { thread = record m.thread { op_counters_ = counters }; world = w })

  -- The end of ReadAsync and of WriteAsync.
  abbrev pub end_read : ℕ → ℕ → ℕ → Machine v → Outcome (ℕ × Machine v)
  end_read sizeof_t lane buf m = drop_lane lane m >>= λ m'. done (v.load buf sizeof_t m.world, m')

  abbrev pub end_write : ℕ → Machine v → Outcome (Unit {0} × Machine v)
  end_write lane m = drop_lane lane m >>= λ m'. done (tt, m')

  unfoldable pub read_async :
      ℕ → ℕ → RdmaPtr → Bool → Machine v → Outcome (AsyncResult ℕ (Machine v) × Machine v)
  read_async sizeof_t alignof_t ptr fence m = do
    (r, m1) ← begin_op ptr m
    (buf, m2) ← stage sizeof_t alignof_t m1
    let wr = read_config ptr buf r.rkey r.lkey (some r.op_counter) sizeof_t true fence blank
    run_async (wr ∷ [])
        (record { conn = r.conn; ack = r.op_counter; rest = end_read sizeof_t r.lane buf }) m2

  abbrev remote_write_async :
      ℕ
      → ℕ
      → RdmaPtr
      → ℕ
      → Bool
      → ℕ
      → Machine v
      → Outcome (AsyncResult (Unit {0}) (Machine v) × Machine v)
  remote_write_async sizeof_t alignof_t ptr val fence size m = do
    (r, m1) ← begin_op ptr m
    (buf, m2) ← stage size alignof_t m1
    (wr, w) ←
        write_config v ptr val buf r.rkey r.lkey (some r.op_counter) sizeof_t size true fence blank
          m2.world
    run_async (wr ∷ []) (record { conn = r.conn; ack = r.op_counter; rest = end_write r.lane })
        (record m2 { world = w })

  unfoldable pub write_async :
      ℕ
      → ℕ
      → RdmaPtr
      → ℕ
      → Bool
      → ℕ
      → Bool
      → Machine v
      → Outcome (AsyncResult (Unit {0}) (Machine v) × Machine v)
  write_async sizeof_t alignof_t ptr val fence size local_copy m =
      if local_copy && is_local ptr m
      then done (ready tt, record m { world = v.store (address ptr) size val m.world })
      else remote_write_async sizeof_t alignof_t ptr val fence size m

  abbrev remote_write_async_from :
      RdmaPtr → ℕ → Bool → ℕ → Machine v → Outcome (AsyncResult (Unit {0}) (Machine v) × Machine v)
  remote_write_async_from ptr seg fence size m = do
    (r, m1) ← begin_op ptr m
    wr ← write_config_seg ptr seg r.rkey r.lkey (some r.op_counter) size true fence blank
    run_async (wr ∷ []) (record { conn = r.conn; ack = r.op_counter; rest = end_write r.lane }) m1

  -- The version that writes from `seg`.
  unfoldable pub write_async_from :
      RdmaPtr
      → ℕ
      → Bool
      → ℕ
      → Bool
      → Machine v
      → Outcome (AsyncResult (Unit {0}) (Machine v) × Machine v)
  write_async_from ptr seg fence size local_copy m =
      if local_copy && is_local ptr m
      then done (
        ready tt,
        record m { world = v.store (address ptr) size (v.load seg size m.world) m.world },
      )
      else remote_write_async_from ptr seg fence size m
