-- ===== src/RootTest/Moves.antt =====
-- How far a worker is from its end, and which workers can go on.
use remus_tutorial.Prelude.{
  ℕ, ◌+◌, ◌%◌, ◌<◌, ◌≡◌, ◌≢◌, ◌⊎◌, ◌∙◌, inl, inr, arith, refl, ap, ap₂, true, ◌==◌, ==_iff, if_elim,
  ℕ_discrete,
}
use remus_tutorial.Barrier
use remus_tutorial.Barrier.{Place, Thread}
use remus_tutorial.Barrier.Turns.{step_others}
use remus_tutorial.Barrier.Moves.{left_in, GoesOn, WaitsFor, goes_or_waits}
use remus_tutorial.RootTest.{
  System, Stage, first_barrier, take_root, acquiring, reading, writing, unlocking, second_barrier,
  joined, place_at, value_at, wait, try_lock, step_from, step,
}
use remus_tutorial.RootTest.Sums.{place_at_self, place_at_ne}
use remus_tutorial.RootTest.Fits.{Fits}

-- A bound on the steps that a worker has left to make, those that change nothing apart.
abbrev pub weight : Stage → Place → ℕ
weight first_barrier place = 10 + left_in place
weight take_root place = 9
weight (acquiring p) place = 8
weight (reading p) place = 7
weight (writing p v) place = 6
weight (unlocking p) place = 5
weight second_barrier place = 2 + left_in place
weight joined place = 0

abbrev pub weight_of : System → ℕ → ℕ
weight_of s j = weight (s.stage j) (s.barrier.threads j).place

-- A worker whose step may change nothing.
abbrev pub Stuck : System → ℕ → Stage → Type 0
Stuck s j first_barrier = WaitsFor s.barrier.barrier (s.barrier.threads j).place
Stuck s j take_root = ⊥
Stuck s j (acquiring p) = s.cells p ≢ 0
Stuck s j (reading p) = ⊥
Stuck s j (writing p v) = ⊥
Stuck s j (unlocking p) = ⊥
Stuck s j second_barrier = WaitsFor s.barrier.barrier (s.barrier.threads j).place
Stuck s j joined = Unit

module _ (n i : ℕ) (s : System) where
  abbrev next_barrier : Barrier.System
  next_barrier = Barrier.step n i s.barrier

  restaged :
      (j : ℕ) (st : Stage)
      → i ≢ j
      → weight (place_at i st s.stage j) (s.barrier.threads j).place ≡ weight_of s j
  restaged j st ne = ap (λ t. weight t (s.barrier.threads j).place) (place_at_ne i j st s.stage ne)

  wait_others :
      (j calls : ℕ) (next : Stage) → i ≢ j → weight_of (wait calls n next i s) j ≡ weight_of s j
  wait_others j calls next ne =
      let other = ap (λ (t : Thread). t.place) (step_others n i s.barrier j ne) in
      if_elim (λ (s' : System). weight_of s' j ≡ weight_of s j)
        ((next_barrier.threads i).passed == calls)
        (λ left. ap₂ weight (place_at_ne i j next s.stage ne) other)
        (λ still. ap (weight (s.stage j)) other)

  others_from : (st : Stage) (j : ℕ) → i ≢ j → weight_of (step_from st n i s) j ≡ weight_of s j
  others_from first_barrier j ne = wait_others j 1 take_root ne
  others_from take_root j ne = restaged j (acquiring s.root) ne
  others_from (acquiring p) j ne = restaged j _ ne
  others_from (reading p) j ne = restaged j (writing p (s.cells (p + value_at))) ne
  others_from (writing p v) j ne = restaged j (unlocking p) ne
  others_from (unlocking p) j ne = restaged j second_barrier ne
  others_from second_barrier j ne = wait_others j 2 joined ne
  others_from joined j ne = refl

  -- A step at the barrier that goes on.
  wait_moves :
      (calls base : ℕ) (stays next : Stage)
      → s.stage i ≡ stays
      → (s.barrier.threads i).passed + 1 ≡ calls
      → ((place : Place) → weight stays place ≡ base + left_in place)
      → ((place : Place) → weight next place < base)
      → GoesOn (s.barrier.threads i) (next_barrier.threads i)
      → weight_of (wait calls n next i s) i < weight stays (s.barrier.threads i).place
  wait_moves calls base stays next e before here then_less goes =
      if_elim (λ (s' : System). weight_of s' i < weight stays (s.barrier.threads i).place)
        ((next_barrier.threads i).passed == calls)
        (λ left. omega (
          arith,
          ap (λ t. weight t (next_barrier.threads i).place) (place_at_self i next s.stage),
          then_less (next_barrier.threads i).place,
          here (s.barrier.threads i).place,
        ))
        (λ still. elim goes [
          | inl out ↦
              let all =
                (==_iff (next_barrier.threads i).passed calls).1
                  (ap (λ (t : Thread). t.passed) out ∙ before) in
              absurd (cc)
          | inr (same, nearer) ↦ omega (
            arith,
            ap (λ t. weight t (next_barrier.threads i).place) e,
            here (next_barrier.threads i).place,
            here (s.barrier.threads i).place,
          )
        ])

  restaged_self :
      (st : Stage)
      → weight (place_at i st s.stage i) (s.barrier.threads i).place
        ≡ weight st (s.barrier.threads i).place
  restaged_self st = ap (λ t. weight t (s.barrier.threads i).place) (place_at_self i st s.stage)

  lock_moves : (p : ℕ) → (weight_of (try_lock p i s) i < 8) ⊎ (s.cells p ≢ 0)
  lock_moves p = elim (ℕ_discrete (s.cells p) 0) [
    | yes free ↦
        let seen : (s.cells p % 256 == 0) ≡ true = (==_iff _ 0).1 (omega arith) in
        inl (rw seen (omega (arith, restaged_self (reading p))))
    | no taken ↦ inr taken
  ]

  moves_from :
      (p value : ℕ) (st : Stage)
      → s.stage i ≡ st
      → Fits p value (s.barrier.threads i) st
      → (weight_of (step_from st n i s) i < weight st (s.barrier.threads i).place) ⊎ Stuck s i st
  moves_from p value first_barrier e f = elim (goes_or_waits n i s.barrier) [
    | inl goes ↦ inl (
        wait_moves 1 10 first_barrier take_root e (omega arith) (λ place. refl)
          (λ place. omega arith) goes)
    | inr waits ↦ inr waits
  ]
  moves_from p value take_root e f = inl (omega (arith, restaged_self (acquiring s.root)))
  moves_from p value (acquiring q) e f = lock_moves q
  moves_from p value (reading q) e f =
      inl (omega (arith, restaged_self (writing q (s.cells (q + value_at)))))
  moves_from p value (writing q v) e f = inl (omega (arith, restaged_self (unlocking q)))
  moves_from p value (unlocking q) e f =
      inl (wake_up (s.barrier.threads i).place f.0.1 (restaged_self second_barrier))
    where
      wake_up : {w : ℕ} (place : Place) → place ≡ Place.outside → w ≡ 2 + left_in place → w < 5
      wake_up place out same = omega (arith, ap left_in out)
  moves_from p value second_barrier e f = elim (goes_or_waits n i s.barrier) [
    | inl goes ↦ inl (
        wait_moves 2 2 second_barrier joined e (omega arith) (λ place. refl) (λ place. omega arith)
          goes)
    | inr waits ↦ inr waits
  ]
  moves_from p value joined e f = inr tt

  pub step_others_weight : (j : ℕ) → i ≢ j → weight_of (step n i s) j ≡ weight_of s j
  unfolding step
  step_others_weight = others_from (s.stage i)

  pub moves_or_Stuck :
      (p value : ℕ)
      → Fits p value (s.barrier.threads i) (s.stage i)
      → (weight_of (step n i s) i < weight_of s i) ⊎ Stuck s i (s.stage i)
  unfolding step
  moves_or_Stuck p value = moves_from p value (s.stage i) refl
