-- ===== src/RingCounter/Runs.antt =====
-- Whole histories of a ring of slots, and what the leak test of a thread sees of one.
use remus_tutorial.Prelude.{
  ℕ, ◌<◌, ◌≡◌, inl, inr, false, Option, none, some, List, [], ◌∷◌, ◌++◌, refl, Outcome, done, abort,
  fault, diverge, ◌>>=◌, sym, subst,
}
use remus_tutorial.RingCounter.{RingCounter, acquire, release, fresh}
use remus_tutorial.RingCounter.Queue
use remus_tutorial.RingCounter.Queue.{Queue}
use remus_tutorial.RingCounter.Shows.{Shows, entry_of}
use remus_tutorial.RingCounter.Acquire.{acquire-Shows, fresh-Shows}
use remus_tutorial.RingCounter.Release.{release-Refines, Refines}

-- A client's calls: it takes a slot, or gives one back, whether or not it holds it.
pub data Call : Type 0 where
  take : Call
  give : (idx : ℕ) → Call

unfoldable pub step : Call → RingCounter → Outcome RingCounter
step take r = acquire r >>= λ result. done result.1
step (give idx) r = release idx r

unfoldable pub run : List Call → RingCounter → Outcome RingCounter
run [] r = done r
run (c ∷ cs) r = step c r >>= run cs

-- The client names slots of the ring only.
abbrev pub InRange : ℕ → List Call → Type 0
InRange n [] = Unit
InRange n (take ∷ cs) = InRange n cs
InRange n (give idx ∷ cs) = (idx < n) × InRange n cs

-- A ring of `n` slots that stands for some queue, or a failed assertion.
abbrev pub IsDefined : ℕ → Outcome RingCounter → Type 0
IsDefined n (done r) = (q : Queue) × Shows q r × (r.counter_num ≡ n)
IsDefined n abort = Unit
IsDefined n fault = ⊥
IsDefined n diverge = ⊥

step-IsDefined :
    {q : Queue} {r : RingCounter} (c : Call)
    → Shows q r
    → InRange r.counter_num (c ∷ [])
    → IsDefined r.counter_num (step c r)
unfolding step
step-IsDefined {q} {r} take v ok = elim (acquire-Shows v) [
  | inl (full, refused) ↦ rw refused (q, v, refl)
  | inr (r', taken, v', _, _, same) ↦ rw taken (q ++ (false ∷ []), v', same)
]
step-IsDefined {q} {r} (give idx) v ok =
    go (Queue.release (entry_of idx r) q) (release-Refines v idx ok.0)
  where
    go :
        (o : Option Queue)
        → Refines r.counter_num o (release idx r)
        → IsDefined r.counter_num (release idx r)
    go none e = rw e tt
    go (some q') (r', e, v', same) = rw e (q', v', same)

InRange-head :
    (n : ℕ) (c : Call) (cs : List Call) → InRange n (c ∷ cs) → InRange n (c ∷ []) × InRange n cs
InRange-head n take cs ok = (tt, ok)
InRange-head n (give idx) cs ok = ((ok.0, tt), ok.1)

run_from :
    (n : ℕ) (cs : List Call) (o : Outcome RingCounter)
    → IsDefined n o
    → InRange n cs
    → IsDefined n (o >>= run cs)
unfolding run
run_from n cs abort d ok = tt
run_from n cs fault d ok = d
run_from n cs diverge d ok = d
run_from n [] (done r) d ok = d
run_from n (c ∷ cs) (done r) (q, v, same) ok =
    let (first, rest) = InRange-head n c cs ok in
    run_from n cs (step c r)
      (subst (λ m. IsDefined m (step c r)) same
        (step-IsDefined c v (subst (λ m. InRange m (c ∷ [])) (sym same) first)))
      rest

-- However a client calls a fresh ring of slots, naming slots of the ring only, no call reads out of
-- range and no loop runs on: the history ends in a ring that stands for a queue, or in the
-- assertion.
pub run-IsDefined : (n : ℕ) (cs : List Call) → 0 < n → InRange n cs → IsDefined n (run cs (fresh n))
unfolding fresh
run-IsDefined n cs h ok = run_from n cs (done (fresh n)) ([], fresh-Shows n h, refl) ok
