-- ===== src/ComputeThread/Ready.antt =====
-- The steps that the waiting operations share, where nothing stands in their way.
use remus_tutorial.Prelude.{
  ℕ, suc, ◌+◌, ◌<◌, ◌≡◌, inl, inr, refl, ap, arith, true, ◌&&◌, leb, not, u64, sub64, none, some,
  done, abort, List, [], length, get_elem?, set, ◌∙◌, set-set-get_elem?, get_elem?-set_self,
  get_elem?_lt,
}
use remus_tutorial.RdmaPtr.{RdmaPtr, id, raw}
use remus_tutorial.RingCounter.{RingCounter}
use remus_tutorial.RingCounter.Queue.{trim}
use remus_tutorial.RingCounter.Shows.{Shows}
use remus_tutorial.RingBuf
use remus_tutorial.RingBuf.{RingBuf, limit}
use remus_tutorial.QpSchedPolicy.{QpSchedPolicy, get_lane_idx}
use remus_tutorial.ComputeNode.{ComputeNode, ConnInfo, get_conn, get_rkey}
use remus_tutorial.RdmaOps.{post}
use remus_tutorial.RdmaOps.Ibv.{Verbs, SendWr}
use remus_tutorial.RdmaOps.Wait.{Delivers, poll_ends}
use remus_tutorial.ComputeThread.{
  Machine, enter_lane, leave_lane, one_staging_buf, acquire_staging_buf, release_staging_buf,
  in_range,
}
use remus_tutorial.ComputeThread.Operations.{Route, take_lane, begin_op, stage, run_op}
use remus_tutorial.ComputeThread.Temporaries.{one_op_counter-Shows}

-- Entering a lane and leaving it again.
pub enter-leave_lane :
    (lane count : ℕ) (counters : List ℕ)
    → get_elem? counters lane ≡ some count
    → suc count < 1024
    → (enter_lane lane counters ≡ done (set counters lane (suc count)))
      × (leave_lane lane (set counters lane (suc count)) ≡ done counters)
unfolding enter_lane leave_lane
enter-leave_lane lane count counters e h =
    let fits : u64 (count + 1) ≡ suc count = omega (arith, h) in
    let room : not (leb 1024 (suc count)) ≡ true = ground (arith, h) in
    let back : sub64 (suc count) 1 ≡ count = omega (arith, h) in
    (
      rw (e, fits, room) refl,
      rw (get_elem?-set_self counters lane (suc count) (get_elem?_lt counters lane e), back)
          (ap done (set-set-get_elem? counters lane (suc count) e)),
    )

-- The tables of connections and keys are those of the node before.
same_conn :
    (ptr lane : ℕ) (counters : List ℕ) (c : ComputeNode)
    → get_conn ptr lane (record c { lane_op_counters_ = counters }) ≡ get_conn ptr lane c
unfolding get_conn
same_conn ptr lane counters c = refl

same_rkey :
    (ptr : ℕ) (counters : List ℕ) (c : ComputeNode)
    → get_rkey ptr (record c { lane_op_counters_ = counters }) ≡ get_rkey ptr c
unfolding get_rkey
same_rkey ptr counters c = refl

-- A staging buffer of the size that a call asks for is free, and can be given back.
pub record HasRoom (size align : ℕ) (staging : RingBuf) : Type 0 where
  pub buf : ℕ
  pub taken : RingBuf
  pub after : RingBuf
  pub takes : RingBuf.acquire size align staging ≡ (some buf, taken)
  pub inside : (leb taken.ring_buf buf && leb (u64 (buf + size)) (limit taken)) ≡ true
  pub gives : RingBuf.release buf taken ≡ done after

post_done :
    (v : Verbs) (conn ack : ℕ) (chain : List SendWr) (counters : List ℕ) {w w' : v.World}
    → v.post_send conn chain w ≡ some w'
    → post v conn chain ack counters w ≡ done (set counters ack 1, w')
unfolding post
post_done v conn ack chain counters posted =
    ap (λ o. elim o [ none ↦ abort | some w'' ↦ done (set counters ack 1, w'') ]) posted

module _ {v : Verbs} where
  -- What a call finds when nothing stands in its way: the lane that the policy chooses and its
  -- count, the connection and the key, and no slot that is taken.
  pub record Ready (ptr : RdmaPtr) (m : Machine v) : Type 0 where
    pub lane : ℕ
    pub policy : QpSchedPolicy
    pub chosen : get_lane_idx (id ptr) m.thread.qp_sched_pol_ ≡ done (lane, policy)
    pub count : ℕ
    pub counted : get_elem? m.node.lane_op_counters_ lane ≡ some count
    pub room : suc count < 1024
    pub info : ConnInfo
    pub found : get_conn (raw ptr) lane m.node ≡ done info
    pub rkey : ℕ
    pub known : get_rkey (raw ptr) m.node ≡ done rkey
    pub no_slots : Shows [] m.thread.op_counter_ring
    pub has_counters : length m.thread.op_counters_ ≡ m.thread.op_counter_ring.counter_num

  abbrev pub route_of : {ptr : RdmaPtr} {m : Machine v} → Ready ptr m → Route
  route_of {m} r = record {
    lane = r.lane;
    conn = r.info.conn_;
    lkey = r.info.lkey_;
    rkey = r.rkey;
    op_counter = m.thread.op_counter_ring.counter_end;
  }

  -- The machine after `begin_op`.
  abbrev pub begun : {ptr : RdmaPtr} {m : Machine v} → Ready ptr m → RingCounter → Machine v
  begun {m} r ring = record m {
    thread = record m.thread { qp_sched_pol_ = r.policy; op_counter_ring = ring };
    node = record m.node { lane_op_counters_ = set m.node.lane_op_counters_ r.lane (suc r.count) };
  }

  take_lane_ready :
      {ptr : RdmaPtr} {m : Machine v} (r : Ready ptr m)
      → take_lane ptr m
        ≡ done (
          r.lane,
          record m {
            thread = record m.thread { qp_sched_pol_ = r.policy };
            node = record m.node {
              lane_op_counters_ = set m.node.lane_op_counters_ r.lane (suc r.count);
            };
          },
        )
  unfolding take_lane
  take_lane_ready {m} r =
      rw (r.chosen, (enter-leave_lane r.lane r.count m.node.lane_op_counters_ r.counted r.room).0)
        refl

  pub begin_op_ready :
      {ptr : RdmaPtr} {m : Machine v} (r : Ready ptr m)
      → (ring : RingCounter) × (begin_op ptr m ≡ done (route_of r, begun r ring))
        × Shows [] ring
        × (ring.counter_num ≡ m.thread.op_counter_ring.counter_num)
  unfolding begin_op trim
  begin_op_ready {ptr} {m} r =
      let counters = set m.node.lane_op_counters_ r.lane (suc r.count) in
      let t = record m.thread { qp_sched_pol_ = r.policy } in
      elim (one_op_counter-Shows t r.no_slots) [
        | inl (full, _) ↦ absurd (omega (arith, full, r.no_slots.covers.start_in))
        | inr (ring, run, shows, num) ↦ (
          ring,
          rw
              (
                take_lane_ready r,
                same_conn (raw ptr) r.lane counters m.node ∙ r.found,
                same_rkey (raw ptr) counters m.node ∙ r.known,
                run,
              )
              refl,
          shows,
          num,
        )
      ]

  pub stage_ready :
      {size align : ℕ} (m : Machine v) (b : HasRoom size align m.thread.staging)
      → stage size align m
        ≡ done (b.buf, record m { thread = record m.thread { staging = b.after } })
  unfolding stage one_staging_buf acquire_staging_buf release_staging_buf in_range
  stage_ready {size} {align} m b = rw (b.takes, b.inside, b.gives) refl

  pub run_op_ready :
      (n fuel conn ack : ℕ) (chain : List SendWr) (m : Machine v) {w w' : v.World}
      → ack < length m.thread.op_counters_
      → v.post_send conn chain m.world ≡ some w
      → Delivers v conn ack n w w'
      → n + 1 < fuel
      → run_op fuel conn chain ack m
        ≡ done (record m {
          thread = record m.thread { op_counters_ = set (set m.thread.op_counters_ ack 1) ack 0 };
          world = w';
        })
  unfolding run_op
  run_op_ready n fuel conn ack chain m inside posted d h =
      let counters = set m.thread.op_counters_ ack 1 in
      rw
        (
          post_done v conn ack chain m.thread.op_counters_ posted,
          poll_ends v conn ack n fuel counters
              (get_elem?-set_self m.thread.op_counters_ ack 1 inside) d h,
        )
        refl
