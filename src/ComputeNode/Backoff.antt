-- ===== src/ComputeNode/Backoff.antt =====
-- The waits between the attempts to connect.
use remus_tutorial.Prelude.{
  ℕ, ◌+◌, ◌*◌, ◌^◌, ◌≤◌, ◌<◌, ◌≡◌, refl, subst, arith, min, ◌⊎◌, inl, inr, Outcome, done, abort,
  fault, diverge, ◌>>=◌, List, [], ◌∷◌,
}
use remus_tutorial.ComputeNode.Connect.{
  CmEvent, established, addr_resolved, rejected, unexpected, connect_backoff_min_us,
  connect_backoff_max_us, next_backoff, attempts,
}

next_backoff-zero : (id : ℕ) → next_backoff id 0 ≡ connect_backoff_min_us
unfolding next_backoff
next_backoff-zero id = refl

-- With an id of 16 bits nothing wraps, and a wait below the limit grows at least by a factor of two
-- until the limit is reached.
next_backoff_lem :
    (id wait : ℕ)
    → id < 2 ^ 16
    → 0 < wait
    → wait ≤ connect_backoff_max_us
    → next_backoff id wait ≡ min ((wait + 100 * id) * 2) connect_backoff_max_us
unfolding next_backoff
next_backoff_lem id wait i p w = ground arith

-- Each wait lies between the two limits and is at least twice the one before it, or the upper limit.
abbrev pub Doubles : ℕ → List ℕ → Type 0
Doubles before [] = Unit
Doubles before (wait ∷ waits) =
    (connect_backoff_min_us ≤ wait)
    × (min (2 * before) connect_backoff_max_us ≤ wait)
    × (wait ≤ connect_backoff_max_us)
    × Doubles wait waits

next_backoff-within :
    (id before : ℕ)
    → id < 2 ^ 16
    → before ≤ connect_backoff_max_us
    → (before ≡ 0) ⊎ (connect_backoff_min_us ≤ before)
    → (connect_backoff_min_us ≤ next_backoff id before)
      × (min (2 * before) connect_backoff_max_us ≤ next_backoff id before)
      × (next_backoff id before ≤ connect_backoff_max_us)
unfolding next_backoff
next_backoff-within id before i b (inl none_yet) = (ground arith, ground arith, ground arith)
next_backoff-within id before i b (inr some_wait) = (ground arith, ground arith, ground arith)

done-injective : (a b : List ℕ) → done a ≡ done b → a ≡ b
done-injective a b h = cc

after_wait :
    (before wait : ℕ) (o : Outcome (List ℕ)) {waits : List ℕ}
    → ((more : List ℕ) → o ≡ done more → Doubles wait more)
    → (connect_backoff_min_us ≤ wait)
      × (min (2 * before) connect_backoff_max_us ≤ wait)
      × (wait ≤ connect_backoff_max_us)
    → (o >>= λ more. done (wait ∷ more)) ≡ done waits
    → Doubles before waits
after_wait before wait (done more) {waits} tail (low, double, high) h =
    subst (Doubles before) (done-injective (wait ∷ more) waits h)
      (low, double, high, tail more refl)
after_wait before wait abort tail w h = absurd cc
after_wait before wait fault tail w h = absurd cc
after_wait before wait diverge tail w h = absurd cc

-- A machine with an id of 16 bits waits at least 100 and at most 5000000 microseconds after each
-- rejection, and below the upper limit at least twice as long as before.
pub attempts-Doubles :
    (id before : ℕ) (events : List CmEvent) {waits : List ℕ}
    → id < 2 ^ 16
    → before ≤ connect_backoff_max_us
    → (before ≡ 0) ⊎ (connect_backoff_min_us ≤ before)
    → attempts id before events ≡ done waits
    → Doubles before waits
unfolding attempts
attempts-Doubles id before [] i b z h = absurd cc
attempts-Doubles id before (established ∷ events) {waits} i b z h =
    subst (Doubles before) (done-injective [] waits h) tt
attempts-Doubles id before (addr_resolved ∷ events) i b z h =
    attempts-Doubles id before events i b z h
attempts-Doubles id before (unexpected ∷ events) i b z h = absurd cc
attempts-Doubles id before (rejected ∷ events) i b z h =
    let w = next_backoff-within id before i b z in
    after_wait before (next_backoff id before) (attempts id (next_backoff id before) events)
      (λ more e. attempts-Doubles id (next_backoff id before) events i w.2 (inr w.0) e) w h
