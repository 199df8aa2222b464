-- ===== src/ComputeThread/Ended.antt =====
-- The common course of the operations that wait: stage a buffer, post, poll, and leave the lane.
use native.Mathlib.Nat.{mod-lt}
use remus_tutorial.Prelude.{
  ℕ, ◌+◌, ◌<◌, ◌≡◌, refl, arith, some, Outcome, done, ◌>>=◌, [], ◌∷◌, length, get_elem?, set,
  get_elem?-set_self, length-set,
}
use remus_tutorial.RdmaPtr.{RdmaPtr}
use remus_tutorial.RingCounter.{RingCounter}
use remus_tutorial.RingCounter.Shows.{Shows}
use remus_tutorial.RingBuf.{RingBuf}
use remus_tutorial.RdmaOps.Ibv.{Verbs, SendWr}
use remus_tutorial.RdmaOps.Wait.{Delivers}
use remus_tutorial.ComputeThread.{Machine}
use remus_tutorial.ComputeThread.Operations.{Route, begin_op, stage, drop_lane, run_op}
use remus_tutorial.ComputeThread.Ready.{
  Ready, HasRoom, begun, route_of, enter-leave_lane, begin_op_ready, stage_ready, run_op_ready,
}

module _ {v : Verbs} where
  -- The machine after a call that has ended: the node, with the counts of its lanes, is the one
  -- before the call, no slot is taken, and the counter of the operation is 0.
  pub record Ended (m : Machine v) (w : v.World) (m' : Machine v) : Type 0 where
    pub same_node : m'.node ≡ m.node
    pub no_slots : Shows [] m'.thread.op_counter_ring
    pub world : m'.world ≡ w
    pub counter : get_elem? m'.thread.op_counters_ m.thread.op_counter_ring.counter_end ≡ some 0

  -- The operation counter that `m` gives out next.
  abbrev pub ack : Machine v → ℕ
  ack m = m.thread.op_counter_ring.counter_end

  module _ {ptr : RdmaPtr} {m : Machine v} (r : Ready ptr m) where
    abbrev pub staged : RingCounter → RingBuf → v.World → Machine v
    staged ring buf w = record (begun r ring) {
      thread = record (begun r ring).thread { staging = buf };
      world = w;
    }

    abbrev pub ran : RingCounter → RingBuf → v.World → Machine v
    ran ring buf w = record (staged ring buf w) {
      thread = record (staged ring buf w).thread {
        op_counters_ = set (set m.thread.op_counters_ (ack m) 1) (ack m) 0;
      };
    }

    ack_in : ack m < length m.thread.op_counters_
    ack_in = omega (
      arith,
      r.has_counters,
      r.no_slots.covers.end_at,
      mod-lt (m.thread.op_counter_ring.counter_start + 0) {m = m.thread.op_counter_ring.counter_num}
          (omega (arith, r.no_slots.covers.start_in)),
    )

    pub drop_ran :
        (ring : RingCounter) (buf : RingBuf) (w : v.World)
        → drop_lane r.lane (ran ring buf w) ≡ done (record (ran ring buf w) { node = m.node })
    unfolding drop_lane
    drop_ran ring buf w =
        rw ((enter-leave_lane r.lane r.count m.node.lane_op_counters_ r.counted r.room).1) refl

    pub ended :
        (ring : RingCounter) (buf : RingBuf) (w : v.World)
        → Shows [] ring
        → Ended m w (record (ran ring buf w) { node = m.node })
    ended ring buf w shows = record {
      same_node = refl;
      no_slots = shows;
      world = refl;
      counter =
          get_elem?-set_self (set m.thread.op_counters_ (ack m) 1) (ack m) 0
            (omega (arith, ack_in, length-set m.thread.op_counters_ (ack m) 1));
    }

    module _ (n fuel : ℕ) (enough : n + 1 < fuel) where
      pub run_staged :
          (ring : RingCounter) (buf : RingBuf) (wr : SendWr) (w0 : v.World) {w w' : v.World}
          → v.post_send r.info.conn_ (wr ∷ []) w0 ≡ some w
          → Delivers v r.info.conn_ (ack m) n w w'
          → run_op fuel r.info.conn_ (wr ∷ []) (ack m) (staged ring buf w0) ≡ done (ran ring buf w')
      run_staged ring buf wr w0 posted d =
          run_op_ready n fuel r.info.conn_ (ack m) (wr ∷ []) (staged ring buf w0) ack_in posted d
            enough

      -- An operation that stages `sizeof_t` bytes, posts the request `wr` that its route and its buffer
      -- give, waits, and returns what stands in the buffer.
      abbrev pub fetch : ℕ → ℕ → (Route → ℕ → SendWr) → Outcome (ℕ × Machine v)
      fetch sizeof_t alignof_t wr = do
        (route, m1) ← begin_op ptr m
        (buf, m2) ← stage sizeof_t alignof_t m1
        m3 ← run_op fuel route.conn (wr route buf ∷ []) route.op_counter m2
        m4 ← drop_lane route.lane m3
        done (v.load buf sizeof_t m3.world, m4)

      pub fetch_returns :
          (sizeof_t alignof_t : ℕ) (wr : Route → ℕ → SendWr) {w w' : v.World}
          (b : HasRoom sizeof_t alignof_t m.thread.staging)
          → v.post_send r.info.conn_ (wr (route_of r) b.buf ∷ []) m.world ≡ some w
          → Delivers v r.info.conn_ (ack m) n w w'
          → (m' : Machine v) × (fetch sizeof_t alignof_t wr ≡ done (v.load b.buf sizeof_t w', m'))
            × Ended m w' m'
            × (m'.thread.staging ≡ b.after)
      fetch_returns sizeof_t alignof_t wr {w} {w'} b posted d =
          let (ring, begin, shows, _) = begin_op_ready r in
          (
            record (ran ring b.after w') { node = m.node },
            rw
                (
                  begin,
                  stage_ready (begun r ring) b,
                  run_staged ring b.after (wr (route_of r) b.buf) m.world posted d,
                  drop_ran ring b.after w',
                )
                refl,
            ended ring b.after w' shows,
            refl,
          )
