-- ===== src/ComputeThread/Temporaries.antt =====
-- `op_counter_t(this).val()`: the slot of a temporary goes back at once.
use native.Mathlib.Nat.{mod-lt}
use remus_tutorial.Prelude.{
  ℕ, ◌+◌, ◌-◌, ◌%◌, ◌≡◌, ◌⊎◌, inl, inr, refl, ap, subst, arith, Bool, true, false, Option, some,
  done, abort, ◌>>=◌, [], ◌∷◌, ◌++◌, length, set, get_elem?-append_self, ◌∙◌,
}
use remus_tutorial.RingCounter
use remus_tutorial.RingCounter.{RingCounter}
use remus_tutorial.RingCounter.Queue
use remus_tutorial.RingCounter.Queue.{Queue, trim}
use remus_tutorial.RingCounter.Shows.{Shows, entry_of}
use remus_tutorial.RingCounter.Acquire.{acquire-Shows}
use remus_tutorial.RingCounter.Release.{release-Refines, Refines}
use remus_tutorial.ComputeThread.{
  ComputeThread, acquire_op_counter, release_op_counter, one_op_counter,
}

acquire_start :
    (r : RingCounter) {o : Option ℕ} {r' : RingCounter}
    → RingCounter.acquire r ≡ done (o, r')
    → r'.counter_start ≡ r.counter_start
unfolding RingCounter.acquire
acquire_start r e = ground arith

set-append_self : (q : Queue) (a b : Bool) → set (q ++ (a ∷ [])) (length q) b ≡ q ++ (b ∷ [])
set-append_self [] a b = refl
set-append_self (x ∷ q) a b = ap (λ l. x ∷ l) (set-append_self q a b)

release-acquired :
    (q : Queue) → Queue.release (length q) (q ++ (false ∷ [])) ≡ some (trim (q ++ (true ∷ [])))
unfolding Queue.release
release-acquired q =
    rw (get_elem?-append_self q false, Queue.release)
      (ap (λ l. some (trim l)) (set-append_self q false true))

given_back :
    (t : ComputeThread) (ring : RingCounter) (idx : ℕ) (q : Queue)
    → Refines ring.counter_num (some q) (RingCounter.release idx ring)
    → (ring' : RingCounter) × (release_op_counter idx (record t { op_counter_ring = ring })
        ≡ done (record t { op_counter_ring = ring' }))
      × Shows q ring'
      × (ring'.counter_num ≡ ring.counter_num)
unfolding release_op_counter
given_back t ring idx q (ring', run, shows, same) =
    (ring', ap (λ o. o >>= λ ring''. done (record t { op_counter_ring = ring'' })) run, shows, same)

-- A temporary takes the next slot and gives it back before the call goes on: the entry is marked as
-- given back, and in an empty ring it is gone. It aborts when all slots are taken.
pub one_op_counter-Shows :
    {q : Queue} (t : ComputeThread)
    → Shows q t.op_counter_ring
    → ((length q ≡ t.op_counter_ring.counter_num) × (one_op_counter t ≡ abort))
      ⊎ ((ring : RingCounter) × (one_op_counter t
            ≡ done (t.op_counter_ring.counter_end, record t { op_counter_ring = ring }))
          × Shows (trim (q ++ (true ∷ []))) ring
          × (ring.counter_num ≡ t.op_counter_ring.counter_num))
unfolding one_op_counter acquire_op_counter
one_op_counter-Shows {q} t v = elim (acquire-Shows v) [
  | inl (full, refused) ↦ inl (full, rw (refused, one_op_counter, acquire_op_counter) refl)
  | inr (r', taken, v', _, at_end, same) ↦
      (let idx = t.op_counter_ring.counter_end in
        let place : entry_of idx r' ≡ length q =
          ap (λ n. (idx + n - r'.counter_start) % n) same
          ∙ ap (λ s. (idx + t.op_counter_ring.counter_num - s) % t.op_counter_ring.counter_num)
              (acquire_start t.op_counter_ring taken)
          ∙ at_end in
        let refines = release-Refines v' idx (
          omega (
            arith,
            same,
            v.covers.end_at,
            mod-lt (t.op_counter_ring.counter_start + length q) {m = t.op_counter_ring.counter_num}
                (omega (arith, v.covers.start_in)),
          )) in
        let (ring, run, shows, num) = given_back t r' idx (trim (q ++ (true ∷ []))) (
          subst (λ o. Refines r'.counter_num o (RingCounter.release idx r'))
            (ap (λ k. Queue.release k (q ++ (false ∷ []))) place ∙ release-acquired q) refines) in
        inr (
          ring,
          rw (taken, one_op_counter, acquire_op_counter)
              (ap (λ o. o >>= λ t''. done (idx, t'')) run),
          shows,
          num ∙ same,
        ))
]
