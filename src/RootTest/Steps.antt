-- ===== src/RootTest/Steps.antt =====
-- Every step of a worker keeps the invariant.
use remus_tutorial.Prelude.{
  AllBelow, ℕ, ◌+◌, ◌-◌, ◌%◌, ◌^◌, ◌≤◌, ◌<◌, ◌≡◌, ◌≢◌, ◌∙◌, inl, inr, arith, refl, ap, sym, subst,
  true, ℕ_discrete, u64, ◌==◌, ==_iff, if_elim, Bool-cases, List, [], ◌∷◌,
}
use remus_tutorial.Barrier
use remus_tutorial.Barrier.{Place}
use remus_tutorial.Barrier.Steps.{step-IsPhased}
use remus_tutorial.Barrier.Turns.{step_others, step-Turned}
use remus_tutorial.RootTest.{
  System, Stage, first_barrier, take_root, acquiring, reading, writing, unlocking, second_barrier,
  joined, place_at, value_at, write_cell, wait, try_lock, step_from, step, run,
}
use remus_tutorial.RootTest.Sums.{le_sum, sum-le}
use remus_tutorial.RootTest.Fits.{IsBetween, Fits, holds, added, added_le}
use remus_tutorial.RootTest.Invariant.{Inv, moved, same_value, alone}

write_cell_self : (a v : ℕ) (cells : ℕ → ℕ) → write_cell a v cells a ≡ v
write_cell_self a v cells = ground arith

write_cell_ne : (a b v : ℕ) (cells : ℕ → ℕ) → a ≢ b → write_cell a v cells b ≡ cells b
write_cell_ne a b v cells ne = ground arith

module _ {n p : ℕ} (small : n < 2 ^ 31) (pos : 0 < n) {s : System} (inv : Inv n p s) (i : ℕ)
    (i_in : i < n) where
  Fits-as : (st : Stage) → s.stage i ≡ st → Fits p (s.cells (p + value_at)) (s.barrier.threads i) st
  Fits-as st e = subst (Fits p (s.cells (p + value_at)) (s.barrier.threads i)) e (inv.fits i i_in)

  lock_le : s.cells p ≤ 1
  lock_le = omega (arith, inv.locked, inv.one)

  abbrev next_barrier : Barrier.System
  next_barrier = Barrier.step n i s.barrier

  -- The other workers at the barrier.
  waiting :
      (j : ℕ) → j < n → i ≢ j → Fits p (s.cells (p + value_at)) (next_barrier.threads j) (s.stage j)
  waiting j j_in ne =
      subst (λ t. Fits p (s.cells (p + value_at)) t (s.stage j))
        (sym (step_others n i s.barrier j ne)) (inv.fits j j_in)

  wait-Inv :
      (calls : ℕ) (stays goes : Stage)
      → s.stage i ≡ stays
      → (s.barrier.threads i).passed + 1 ≡ calls
      → holds goes ≡ holds stays
      → added goes ≡ added stays
      → ((next_barrier.threads i).passed ≡ (s.barrier.threads i).passed
          → Fits p (s.cells (p + value_at)) (next_barrier.threads i) stays)
      → (next_barrier.threads i ≡ Barrier.leave (s.barrier.threads i)
          → Fits p (s.cells (p + value_at)) (next_barrier.threads i) goes)
      → Inv n p (wait calls n goes i s)
  wait-Inv calls stays goes e before same_holds same_added stay go =
      if_elim (Inv n p) ((next_barrier.threads i).passed == calls)
        (λ left.
          moved inv i i_in next_barrier s.cells goes (step-IsPhased small pos i_in inv.phased)
            (omega (arith, ap holds e)) lock_le (omega (arith, ap added e))
            (elim (step-Turned n i s.barrier) [
              | inl same ↦ absurd (omega (arith, (==_iff _ calls).0 left))
              | inr out ↦ go out
            ])
            waiting)
        (λ still. record {
          phased = step-IsPhased small pos i_in inv.phased;
          rooted = inv.rooted;
          locked = inv.locked;
          one = inv.one;
          counted = inv.counted;
          fits = λ j j_in. elim (ℕ_discrete i j) [
            | yes ij ↦
                subst (λ m. Fits p (s.cells (p + value_at)) (next_barrier.threads m) (s.stage m)) ij
                  (subst (Fits p (s.cells (p + value_at)) (next_barrier.threads i)) (sym e)
                    (elim (step-Turned n i s.barrier) [
                      | inl same ↦ stay same
                      | inr out ↦
                          let all : ((next_barrier.threads i).passed == calls) ≡ true =
                            (==_iff _ calls).1 (ap (λ t. t.passed) out ∙ before) in
                          absurd (cc)
                    ]))
            | no ne ↦ waiting j j_in ne
          ];
        })

  -- The words after a write to the lock.
  value_stays : (v : ℕ) → write_cell p v s.cells (p + value_at) ≡ s.cells (p + value_at)
  value_stays v = write_cell_ne p (p + value_at) v s.cells (λ e. absurd (omega arith))

  -- Worker `i` changes the lock and its stage, and the value stays.
  relocked :
      (v : ℕ) (st : Stage)
      → v + holds (s.stage i) ≡ s.cells p + holds st
      → v ≤ 1
      → added (s.stage i) ≡ added st
      → ((value : ℕ) → Fits p value (s.barrier.threads i) st)
      → Inv n p (record s { cells = write_cell p v s.cells; stage = place_at i st s.stage })
  relocked v st lock le same mine =
      moved inv i i_in s.barrier (write_cell p v s.cells) st inv.phased
        (omega (arith, write_cell_self p v s.cells)) (omega (arith, write_cell_self p v s.cells))
        (omega (arith, value_stays v)) (mine _)
        (same_value inv i i_in (write_cell p v s.cells) (value_stays v))

  try_lock-Inv :
      s.stage i ≡ acquiring p → IsBetween (s.barrier.threads i) → Inv n p (try_lock p i s)
  try_lock-Inv e between = elim (Bool-cases (s.cells p == 0)) [
    | inl free ↦
        let is_zero : s.cells p ≡ 0 = (==_iff _ 0).0 free in
        rw (free, is_zero)
          (relocked 1 (reading p) (omega (arith, ap holds e)) (omega arith)
            (omega (arith, ap added e)) (λ value. (between, refl)))
    | inr taken ↦
        let is_one : s.cells p ≡ 1 = ground (arith, lock_le) in
        rw (taken, is_one)
          (relocked 1 (acquiring p) (omega (arith, ap holds e)) (omega arith)
            (omega (arith, ap added e)) (λ value. (between, refl)))
  ]

  unlock-Inv :
      s.stage i ≡ unlocking p
      → (s.barrier.threads i).passed ≡ 1
      → Inv n p (step_from (unlocking p) n i s)
  unlock-Inv e passed =
      relocked (s.cells p - s.cells p % 256) second_barrier
        (omega (arith, ap holds e, lock_le, inv.locked, le_sum holds n i s.stage i_in))
        (omega (arith, lock_le)) (omega (arith, ap added e)) (λ value. passed)

  -- The lock and the value stay.
  restaged :
      (st : Stage)
      → holds (s.stage i) ≡ holds st
      → added (s.stage i) ≡ added st
      → Fits p (s.cells (p + value_at)) (s.barrier.threads i) st
      → Inv n p (record s { stage = place_at i st s.stage })
  restaged st same_holds same_added mine =
      moved inv i i_in s.barrier s.cells st inv.phased (omega arith) lock_le (omega arith) mine
        (same_value inv i i_in s.cells refl)

  write-Inv :
      (v : ℕ)
      → s.stage i ≡ writing p v
      → IsBetween (s.barrier.threads i)
      → v ≡ s.cells (p + value_at)
      → Inv n p (step_from (writing p v) n i s)
  write-Inv v e between current =
      let cells : ℕ → ℕ = write_cell (p + value_at) (u64 (v + 1)) s.cells in
      let lock : cells p ≡ s.cells p =
        write_cell_ne (p + value_at) p (u64 (v + 1)) s.cells (λ same. absurd (omega arith)) in
      let value : cells (p + value_at) ≡ u64 (v + 1) = write_cell_self (p + value_at) _ s.cells in
      moved inv i i_in s.barrier cells (unlocking p) inv.phased (omega (arith, lock, ap holds e))
        (omega (arith, lock, lock_le))
        (omega (arith, value, inv.counted, sum-le added n s.stage added_le, ap added e))
        (between, refl) (alone inv i i_in _ (ap holds e))

  step_from-Inv : (st : Stage) → s.stage i ≡ st → Inv n p (step_from st n i s)
  step_from-Inv first_barrier e =
      let zero : (s.barrier.threads i).passed ≡ 0 = Fits-as first_barrier e in
      wait-Inv 1 first_barrier take_root e (omega arith) refl refl (λ same. same ∙ zero)
        (λ left. (ap (λ t. t.passed) left ∙ ap (λ k. k + 1) zero, ap (λ t. t.place) left))
  step_from-Inv take_root e =
      restaged (acquiring s.root) (ap holds e) (ap added e) (Fits-as take_root e, inv.rooted)
  step_from-Inv (acquiring q) e =
      let (between, same) = Fits-as (acquiring q) e in
      subst (λ a. Inv n p (try_lock a i s)) (sym same)
        (try_lock-Inv (e ∙ ap acquiring same) between)
  step_from-Inv (reading q) e =
      let (between, same) = Fits-as (reading q) e in
      subst (λ a. Inv n p (step_from (reading a) n i s)) (sym same)
        (restaged (writing p (s.cells (p + value_at))) (ap holds e) (ap added e)
          (between, refl, refl))
  step_from-Inv (writing q v) e =
      let (between, same, current) = Fits-as (writing q v) e in
      subst (λ a. Inv n p (step_from (writing a v) n i s)) (sym same)
        (write-Inv v (e ∙ ap (λ a. writing a v) same) between current)
  step_from-Inv (unlocking q) e =
      let (between, same) = Fits-as (unlocking q) e in
      subst (λ a. Inv n p (step_from (unlocking a) n i s)) (sym same)
        (unlock-Inv (e ∙ ap unlocking same) between.0)
  step_from-Inv second_barrier e =
      let once : (s.barrier.threads i).passed ≡ 1 = Fits-as second_barrier e in
      wait-Inv 2 second_barrier joined e (omega arith) refl refl (λ same. same ∙ once)
        (λ left. (ap (λ t. t.passed) left ∙ ap (λ k. k + 1) once, ap (λ t. t.place) left))
  step_from-Inv joined e = inv

  pub step-Inv : Inv n p (step n i s)
  unfolding step
  step-Inv = step_from-Inv (s.stage i) refl

module _ {n p : ℕ} (small : n < 2 ^ 31) (pos : 0 < n) where
  pub run-Inv : (is : List ℕ) {s : System} → AllBelow n is → Inv n p s → Inv n p (run n is s)
  unfolding run
  run-Inv [] known inv = inv
  run-Inv (i ∷ is) (i_in, known) inv = run-Inv is known (step-Inv small pos inv i i_in)
