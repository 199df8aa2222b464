-- ===== src/RdmaOps/Wait.antt =====
-- The loop that polls for the end of an operation: it ends when the completion comes, and aborts on
-- an error.
use remus_tutorial.Prelude.{
  ℕ, zero, suc, ◌+◌, ◌<◌, ◌≡◌, ◌∙◌, refl, arith, some, done, abort, ◌>>=◌, List, get_elem?, set,
  get_elem?-set_self, get_elem?_lt,
}
use remus_tutorial.RdmaOps.{complete, handle, poll}
use remus_tutorial.RdmaOps.Ibv.{Verbs, Polled, nothing, failed, completed}

module _ (v : Verbs) where
  -- After `n` polls that find nothing, the next one finds the completion of `ack`.
  pub data Delivers (conn ack : ℕ) : ℕ → v.World → v.World → Type 0 where
    arrives :
        {w w' : v.World}
        → v.poll_cq conn w ≡ (completed (some ack), w')
        → Delivers conn ack zero w w'
    waits :
        {n : ℕ} {w u w' : v.World}
        → v.poll_cq conn w ≡ (nothing, u)
        → Delivers conn ack n u w'
        → Delivers conn ack (suc n) w w'

  -- After `n` polls that find nothing, the next one finds an error.
  pub data Breaks (conn : ℕ) : ℕ → v.World → Type 0 where
    now : {w w' : v.World} → v.poll_cq conn w ≡ (failed, w') → Breaks conn zero w
    later :
        {n : ℕ} {w u : v.World}
        → v.poll_cq conn w ≡ (nothing, u)
        → Breaks conn n u
        → Breaks conn (suc n) w

  module _ (conn ack : ℕ) where
    poll_zero :
        (fuel : ℕ) (counters : List ℕ) (w : v.World)
        → get_elem? counters ack ≡ some 0
        → poll v (suc fuel) conn ack counters w ≡ done (counters, w)
    unfolding poll
    poll_zero fuel counters w e = rw (e) refl

    poll_turn :
        (fuel : ℕ) (counters : List ℕ) (w : v.World) {p : Polled} {w' : v.World}
        → get_elem? counters ack ≡ some 1
        → v.poll_cq conn w ≡ (p, w')
        → poll v (suc fuel) conn ack counters w
          ≡ (handle v p counters >>= λ counters'. poll v fuel conn ack counters' w')
    unfolding poll
    poll_turn fuel counters w e polled = rw (e, polled) refl

    -- The loop ends as soon as the completion of the operation has come, with the counter at 0 and
    -- the other counters as they were; two turns more than the empty polls are enough fuel.
    pub poll_ends :
        (n fuel : ℕ) (counters : List ℕ) {w w' : v.World}
        → get_elem? counters ack ≡ some 1
        → Delivers conn ack n w w'
        → n + 1 < fuel
        → poll v fuel conn ack counters w ≡ done (set counters ack 0, w')
    unfolding handle complete
    poll_ends n zero counters e d h = absurd (omega arith)
    poll_ends n (suc zero) counters e d h = absurd (omega arith)
    poll_ends zero (suc (suc fuel)) counters {w} {w'} e (Delivers.arrives p) h =
        poll_turn (suc fuel) counters w e p
        ∙ rw e (
            poll_zero fuel (set counters ack 0) w'
              (get_elem?-set_self counters ack 0 (get_elem?_lt counters ack e)))
    poll_ends (suc n) (suc (suc fuel)) counters {w} e (Delivers.waits p d) h =
        poll_turn (suc fuel) counters w e p ∙ poll_ends n (suc fuel) counters e d (omega arith)

    -- With the counter at 1, an error that comes right after `n` empty polls aborts.
    pub poll_aborts :
        (n fuel : ℕ) (counters : List ℕ) {w : v.World}
        → get_elem? counters ack ≡ some 1
        → Breaks conn n w
        → n < fuel
        → poll v fuel conn ack counters w ≡ abort
    unfolding handle
    poll_aborts n zero counters e d h = absurd (omega arith)
    poll_aborts zero (suc fuel) counters {w} e (Breaks.now p) h = poll_turn fuel counters w e p
    poll_aborts (suc n) (suc fuel) counters {w} e (Breaks.later p d) h =
        poll_turn fuel counters w e p ∙ poll_aborts n fuel counters e d (omega arith)
