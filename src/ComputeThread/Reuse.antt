-- ===== src/ComputeThread/Reuse.antt =====
-- Which batch a request joins.
use remus_tutorial.Prelude.{
  ℕ, ◌+◌, ◌-◌, ◌%◌, ◌<◌, ◌≡◌, ◌∙◌, inl, inr, refl, ap, ap₂, sym, subst, arith, true, false,
  Bool-cases, ltb, ==_iff, Option, none, some, Outcome, done, abort, fault, diverge, ◌>>=◌, List,
  length, wrap, lookup, lookup-insert,
}
use remus_tutorial.RdmaPtr.{RdmaPtr, id}
use remus_tutorial.QpSchedPolicy.{QpSchedPolicy, get_lane_idx}
use remus_tutorial.RingCounter
use remus_tutorial.RingCounter.{RingCounter}
use remus_tutorial.RdmaOps.Ibv.{Verbs}
use remus_tutorial.ComputeThread.{ComputeThread, Machine, SeqSendWrs, acquire_seq_idx, enter_lane}
use remus_tutorial.ComputeThread.Operations.{take_lane}
use remus_tutorial.ComputeThread.Sequences.{
  last_seq_idx, open_batch, find_seq_idx, new_batch, with_batch,
}

acquire_end :
    (r : RingCounter) {o : ℕ} {r' : RingCounter}
    → RingCounter.acquire r ≡ done (some o, r')
    → (o ≡ r.counter_end) × (r'.counter_end ≡ (r.counter_end + 1) % r.counter_num)
unfolding RingCounter.acquire
acquire_end r e = (ground arith, ground arith)

-- The slot before the next one.
back_one : (n i : ℕ) → i < n → ((i + 1) % n + n - 1) % n ≡ i
back_one n i h = elim (wrap n (i + 1) (omega (arith, h))) [
  | inl (below, same) ↦ rw (same) (omega (arith, h, wrap n (i + 1 + n - 1) (omega (arith, h))))
  | inr (above, less) ↦
      rw (less) (omega (arith, h, above, wrap n (i + 1 - n + n - 1) (omega (arith, h))))
]

ltb_pos : (n : ℕ) → 0 < n → ltb 0 n ≡ true
ltb_pos n h = ground arith

module _ {v : Verbs} where
  -- What a lane leaves of the thread.
  abbrev KeepsBatches : ComputeThread → Outcome (ℕ × Machine v) → Type 0
  KeepsBatches t (done (lane, m)) =
      (m.thread.seq_op_counter_ring ≡ t.seq_op_counter_ring)
      × (m.thread.ops_per_thread ≡ t.ops_per_thread)
      × (m.thread.wrs_per_seq ≡ t.wrs_per_seq)
  KeepsBatches t abort = Unit
  KeepsBatches t fault = Unit
  KeepsBatches t diverge = Unit

  entered :
      (m : Machine v) (lane : ℕ) (q : QpSchedPolicy) (o : Outcome (List ℕ))
      → KeepsBatches m.thread (
          o >>= λ counters. done (
            lane,
            record m {
              thread = record m.thread { qp_sched_pol_ = q };
              node = record m.node { lane_op_counters_ = counters };
            },
          ))
  entered m lane q (done counters) = (refl, refl, refl)
  entered m lane q abort = tt
  entered m lane q fault = tt
  entered m lane q diverge = tt

  chosen :
      (m : Machine v) (o : Outcome (ℕ × QpSchedPolicy))
      → KeepsBatches m.thread (
          o >>= λ (lane, q). enter_lane lane m.node.lane_op_counters_ >>= λ counters. done (
            lane,
            record m {
              thread = record m.thread { qp_sched_pol_ = q };
              node = record m.node { lane_op_counters_ = counters };
            },
          ))
  chosen m (done (lane, q)) = entered m lane q (enter_lane lane m.node.lane_op_counters_)
  chosen m abort = tt
  chosen m fault = tt
  chosen m diverge = tt

  take_lane-KeepsBatches : (ptr : RdmaPtr) (m : Machine v) → KeepsBatches m.thread (take_lane ptr m)
  unfolding take_lane
  take_lane-KeepsBatches ptr m = chosen m (get_lane_idx (id ptr) m.thread.qp_sched_pol_)

  -- The batch that was opened is the last one, empty and not sent.
  pub record IsOpen (i : ℕ) (m : Machine v) : Type 0 where
    pub last : last_seq_idx m.thread ≡ i
    pub batch : SeqSendWrs
    pub there : lookup i m.thread.seq_send_wrs ≡ some batch
    pub not_sent : batch.posted ≡ false
    pub empty : length batch.send_wrs ≡ 0
    pub room : 0 < m.thread.wrs_per_seq

  abbrev OpensOne : Outcome (ℕ × Machine v) → Type 0
  OpensOne (done (i, m)) = IsOpen i m
  OpensOne abort = Unit
  OpensOne fault = Unit
  OpensOne diverge = Unit

  with_lane :
      (i : ℕ) (t : ComputeThread) (o : Outcome (ℕ × Machine v))
      → last_seq_idx t ≡ i
      → 0 < t.wrs_per_seq
      → KeepsBatches t o
      → OpensOne (
          o >>= λ (lane, m').
          done (i, with_batch i (record new_batch { seq_idx = i; lane = lane }) m'))
  with_lane i t (done (lane, m)) last wrs (ring, ops, per_seq) = record {
    last = ap₂ (λ r n. (r.counter_end + n - 1) % n) ring ops ∙ last;
    batch = record new_batch { seq_idx = i; lane = lane };
    there =
        lookup-insert i i (record new_batch { seq_idx = i; lane = lane }) m.thread.seq_send_wrs
        ∙ rw ((==_iff i i).1 refl) refl;
    not_sent = refl;
    empty = refl;
    room = omega (arith, wrs, per_seq);
  }
  with_lane i t abort last wrs k = tt
  with_lane i t fault last wrs k = tt
  with_lane i t diverge last wrs k = tt

  module _ (ptr : RdmaPtr) (m : Machine v)
      (inside : m.thread.seq_op_counter_ring.counter_end < m.thread.seq_op_counter_ring.counter_num)
      (ops : m.thread.ops_per_thread ≡ m.thread.seq_op_counter_ring.counter_num)
      (wrs : 0 < m.thread.wrs_per_seq) where
    abbrev slot_of : Option ℕ → RingCounter → Outcome (ℕ × ComputeThread)
    slot_of slot ring = elim slot [
      | none ↦ abort
      | some idx ↦ done (idx, record m.thread { seq_op_counter_ring = ring })
    ]

    abbrev go_on : Outcome (ℕ × ComputeThread) → Outcome (ℕ × Machine v)
    go_on o = o >>= λ (i, t). take_lane ptr (record m { thread = t }) >>= λ (lane, m').
        done (i, with_batch i (record new_batch { seq_idx = i; lane = lane }) m')

    with_slot :
        (o : Outcome (Option ℕ × RingCounter))
        → RingCounter.acquire m.thread.seq_op_counter_ring ≡ o
        → OpensOne (go_on (o >>= λ (slot, ring). slot_of slot ring))
    with_slot (done (some i, ring)) e =
        let t = record m.thread { seq_op_counter_ring = ring } in
        let (slot, moved) = acquire_end m.thread.seq_op_counter_ring e in
        with_lane i t (take_lane ptr (record m { thread = t }))
          (ap₂ (λ c n. (c + n - 1) % n) moved ops
            ∙ back_one m.thread.seq_op_counter_ring.counter_num
                m.thread.seq_op_counter_ring.counter_end inside
            ∙ sym slot)
          wrs (take_lane-KeepsBatches ptr (record m { thread = t }))
    with_slot (done (none, ring)) e = tt
    with_slot abort e = tt
    with_slot fault e = tt
    with_slot diverge e = tt

    open_batch-OpensOne : OpensOne (open_batch ptr m)
    unfolding open_batch acquire_seq_idx
    open_batch-OpensOne =
        elim (Bool-cases (ltb (length m.thread.seq_send_wrs) m.thread.ops_per_thread)) [
          | inl free ↦ rw (free) (with_slot (RingCounter.acquire m.thread.seq_op_counter_ring) refl)
          | inr full ↦ rw (full) tt
        ]

    -- Right after a new batch has been opened, and before a request is added, a search finds that batch,
    -- for any pointer, and changes nothing.
    pub find_seq_idx-open_batch :
        (ptr' : RdmaPtr) (m' : Machine v) (i : ℕ)
        → open_batch ptr m ≡ done (i, m')
        → find_seq_idx ptr' m' ≡ done (i, m')
    unfolding find_seq_idx
    find_seq_idx-open_batch ptr' m' i e =
        let o : IsOpen i m' = subst OpensOne e open_batch-OpensOne in
        let found : lookup (last_seq_idx m'.thread) m'.thread.seq_send_wrs ≡ some o.batch =
          ap (λ k. lookup k m'.thread.seq_send_wrs) o.last ∙ o.there in
        rw (found, o.not_sent, o.empty, ltb_pos m'.thread.wrs_per_seq o.room, o.last) refl
