-- ===== src/Barrier/Steps.antt =====
-- Every step of the barrier leads from a phase to a phase.
use remus_tutorial.Prelude.{
  AllBelow, ℕ, ◌+◌, ◌-◌, ◌*◌, ◌/◌, ◌%◌, ◌^◌, ◌<◌, ◌≡◌, ◌≢◌, inl, inr, arith, refl, ap, sym, subst,
  true, false, sub64, int_word, ◌==◌, ==_iff, if_elim, List, [], ◌∷◌,
}
use remus_tutorial.Barrier.{Place, Thread, System, leave, move, step_from, step, run}
use remus_tutorial.Barrier.Count.{here}
use remus_tutorial.Barrier.Phases.{Stands, LastAt, IsLast, IsIn, IsPhased}
use remus_tutorial.Barrier.Invariant.{keep, arrive, open_barrier}

module _ (n k c : ℕ) (t : Thread) where
  standing : (place : Place) → t.place ≡ place → IsIn n k c t → Stands n k c place t.passed
  standing place e h = subst (λ p. Stands n k c p t.passed) e h

  last_at : (place : Place) → t.place ≡ place → IsLast n k t → LastAt n k place t.passed
  last_at place e h = subst (λ p. LastAt n k p t.passed) e h

  spin-IsIn :
      (was : ℕ)
      → Stands n k c (Place.arrived was) t.passed
      → IsIn n k c (move t (Place.spinning (1 - was % 2)))
  spin-IsIn was (parity, inl (now, lt)) = (omega arith, inl now)
  spin-IsIn was (parity, inr (before, lt)) = (omega arith, inr before)

  spin-here :
      (was sense : ℕ)
      → t.place ≡ Place.arrived was
      → here k (move t (Place.spinning sense)) ≡ here k t
  spin-here was sense e = sym (here_as e)
    where
      here_as :
          {place : Place}
          → t.place ≡ place
          → here k t ≡ here k (record { place = place; passed = t.passed })
      here_as e = ap (λ p. here k (record { place = p; passed = t.passed })) e

  -- A thread that sees its sense was released in the phase before.
  sees :
      (barrier sense : ℕ)
      → barrier ≡ 2 * c + k % 2
      → Stands n k c (Place.spinning sense) t.passed
      → barrier % 2 ≡ sense
      → t.passed + 1 ≡ k
  sees barrier sense word (aim, inl now) seen = absurd (omega arith)
  sees barrier sense word (aim, inr before) seen = before

  leave-here :
      (sense : ℕ) → t.place ≡ Place.spinning sense → t.passed + 1 ≡ k → here k (leave t) ≡ here k t
  leave-here sense e before = ground arith

module _ {n : ℕ} (small : n < 2 ^ 31) (pos : 0 < n) where
  pub last_test : (was : ℕ) → ((was / 2 == sub64 (int_word n) 1) ≡ true) → was / 2 + 1 ≡ n
  last_test was e = omega (arith, (==_iff (was / 2) (sub64 (int_word n) 1)).0 e)

  pub not_last_test : (was : ℕ) → ((was / 2 == sub64 (int_word n) 1) ≡ false) → was / 2 + 1 ≢ n
  not_last_test was e all =
      let same = (==_iff (was / 2) (sub64 (int_word n) 1)).1 (omega arith) in cc

  module _ {s : System} {i : ℕ} (i_in : i < n) where
    step_from-IsPhased :
        (place : Place)
        → (s.threads i).place ≡ place
        → IsPhased n s
        → IsPhased n (step_from place n i s)
    step_from-IsPhased Place.outside e (k, c, ph) =
        (k, c + 1, arrive ph i i_in e (standing n k c _ Place.outside e (ph.within i i_in)) small)
    step_from-IsPhased (Place.arrived was) e (k, c, ph) =
        if_elim (IsPhased n) (was / 2 == sub64 (int_word n) 1)
          (λ last. (k + 1, 0, open_barrier ph i i_in was e (last_test was last)))
          (λ other. (
            k,
            c,
            keep ph i i_in (move (s.threads i) (Place.spinning (1 - was % 2)))
                (spin-IsIn n k c (s.threads i) was
                  (standing n k c _ (Place.arrived was) e (ph.within i i_in)))
                (spin-here n k c (s.threads i) was (1 - was % 2) e)
                (λ last. not_last_test was other (last_at n k c _ (Place.arrived was) e last).1)
                (λ last. last),
          ))
    step_from-IsPhased (Place.spinning sense) e (k, c, ph) =
        if_elim (IsPhased n) (s.barrier % 2 == sense)
          (λ seen.
            let before =
              sees n k c (s.threads i) s.barrier sense ph.word
                (standing n k c _ (Place.spinning sense) e (ph.within i i_in))
                ((==_iff (s.barrier % 2) sense).0 seen) in
            (
              k,
              c,
              keep ph i i_in (leave (s.threads i)) before
                  (leave-here n k c (s.threads i) sense e before)
                  (last_at n k c _ (Place.spinning sense) e) (λ last. last),
            ))
          (λ unseen. (k, c, ph))

    pub step-IsPhased : IsPhased n s → IsPhased n (step n i s)
    unfolding step
    step-IsPhased = step_from-IsPhased (s.threads i).place refl

  pub run-IsPhased :
      (is : List ℕ) {s : System} → AllBelow n is → IsPhased n s → IsPhased n (run n is s)
  unfolding run
  run-IsPhased [] known h = h
  run-IsPhased (i ∷ is) (i_in, known) h = run-IsPhased is known (step-IsPhased i_in h)
