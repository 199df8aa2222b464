-- ===== src/Barrier/Turns.antt =====
-- What one step of the barrier does to the threads.
use remus_tutorial.Prelude.{
  ℕ, ◌/◌, ◌%◌, ◌≡◌, ◌≢◌, ◌⊎◌, inl, inr, refl, ap, sub64, int_word, ◌==◌, if_elim,
}
use remus_tutorial.Barrier.{Place, Thread, System, leave, step_from, step}
use remus_tutorial.Barrier.Count.{put_self, put_ne}

module _ (n i : ℕ) (s : System) where
  others_from : (place : Place) (j : ℕ) → i ≢ j → (step_from place n i s).threads j ≡ s.threads j
  others_from Place.outside j ne = put_ne s.threads i j _ ne
  others_from (Place.arrived was) j ne =
      if_elim (λ (s' : System). s'.threads j ≡ s.threads j) (was / 2 == sub64 (int_word n) 1)
        (λ last. put_ne s.threads i j _ ne) (λ other. put_ne s.threads i j _ ne)
  others_from (Place.spinning sense) j ne =
      if_elim (λ (s' : System). s'.threads j ≡ s.threads j) (s.barrier % 2 == sense)
        (λ seen. put_ne s.threads i j _ ne) (λ unseen. refl)

  -- A thread that is still in the call, or one that has left it.
  abbrev pub Turned : Thread → Type 0
  Turned t = (t.passed ≡ (s.threads i).passed) ⊎ (t ≡ leave (s.threads i))

  Turned-from : (place : Place) → Turned ((step_from place n i s).threads i)
  Turned-from Place.outside = inl (ap (λ t. t.passed) (put_self s.threads i _))
  Turned-from (Place.arrived was) =
      if_elim (λ (s' : System). Turned (s'.threads i)) (was / 2 == sub64 (int_word n) 1)
        (λ last. inr (put_self s.threads i _))
        (λ other. inl (ap (λ t. t.passed) (put_self s.threads i _)))
  Turned-from (Place.spinning sense) =
      if_elim (λ (s' : System). Turned (s'.threads i)) (s.barrier % 2 == sense)
        (λ seen. inr (put_self s.threads i _)) (λ unseen. inl refl)

  pub step_others : (j : ℕ) → i ≢ j → (step n i s).threads j ≡ s.threads j
  unfolding step
  step_others = others_from (s.threads i).place

  pub step-Turned : Turned ((step n i s).threads i)
  unfolding step
  step-Turned = Turned-from (s.threads i).place
