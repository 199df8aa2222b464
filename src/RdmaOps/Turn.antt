-- ===== src/RdmaOps/Turn.antt =====
-- Polling once at a time is the loop.
use remus_tutorial.Prelude.{
  ℕ, zero, suc, ◌≡◌, refl, not, true, ◌==◌, if◌then◌else◌, Bool-cases, inl, inr, Option-cases,
  Outcome, done, abort, fault, diverge, ◌>>=◌, List, get_elem?,
}
use remus_tutorial.RdmaOps.{handle, poll, poll_async}
use remus_tutorial.RdmaOps.Ibv.{Verbs}

module _ (v : Verbs) (conn ack : ℕ) where
  -- Calls of `poll_async` until one reports the end.
  unfoldable pub drive : ℕ → List ℕ → v.World → Outcome (List ℕ × v.World)
  drive zero counters w = diverge
  drive (suc fuel) counters w = do
    (ready, counters', w') ← poll_async v conn ack counters w
    let rest = drive fuel counters' w'
    if ready then done (counters', w') else rest

  after_turn :
      (fuel : ℕ) (w : v.World)
      → ((counters : List ℕ) → drive fuel counters w ≡ poll v fuel conn ack counters w)
      → (o : Outcome (List ℕ))
      → (o
          >>= (λ c. done (not true, c, w))
          >>= (λ (ready, c, w'). if ready then done (c, w') else drive fuel c w'))
        ≡ (o >>= λ c. poll v fuel conn ack c w)
  after_turn fuel w same (done c) = same c
  after_turn fuel w same abort = refl
  after_turn fuel w same fault = refl
  after_turn fuel w same diverge = refl

  -- Whatever the completions are, calls of `poll_async` until one reports the end do what the loop
  -- of `poll` does, errors included.
  drive-poll :
      (fuel : ℕ) (counters : List ℕ) (w : v.World)
      → drive fuel counters w ≡ poll v fuel conn ack counters w
  unfolding drive poll poll_async
  drive-poll zero counters w = refl
  drive-poll (suc fuel) counters w = elim (Option-cases (get_elem? counters ack)) [
    | inl missing ↦ rw (missing) refl
    | inr (value, found) ↦ elim (Bool-cases (value == 0)) [
      | inl ended ↦ rw (found, ended) refl
      | inr going ↦
          rw (found, going)
            (after_turn fuel (v.poll_cq conn w).1 (λ c. drive-poll fuel c (v.poll_cq conn w).1)
              (handle v (v.poll_cq conn w).0 counters))
    ]
  ]
