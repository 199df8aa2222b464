-- ===== src/Barrier/Moves.antt =====
-- How far a thread is in its call of the barrier, and which threads can go on.
use remus_tutorial.Prelude.{
  ℕ, zero, suc, ◌+◌, ◌-◌, ◌*◌, ◌/◌, ◌%◌, ◌<◌, ◌≡◌, ◌≢◌, ◌⊎◌, inl, inr, arith, refl, ap, subst,
  sub64, int_word, ◌==◌, if_elim, ==_iff, Bool-cases,
}
use remus_tutorial.Barrier.{Place, Thread, System, leave, move, step_from, step}
use remus_tutorial.Barrier.Count.{here, count, put_self}
use remus_tutorial.Barrier.Phases.{Stands, LastAt, Phase}

-- The steps that are left in the call.
abbrev pub left_in : Place → ℕ
left_in Place.outside = 2
left_in (Place.arrived was) = 1
left_in (Place.spinning sense) = 0

-- A step that leaves the call or comes nearer to its end.
abbrev pub GoesOn : Thread → Thread → Type 0
GoesOn t t' = (t' ≡ leave t) ⊎ ((t'.passed ≡ t.passed) × (left_in t'.place < left_in t.place))

-- A thread that looks for a sense that the barrier does not have.
abbrev pub WaitsFor : ℕ → Place → Type 0
WaitsFor barrier Place.outside = ⊥
WaitsFor barrier (Place.arrived was) = ⊥
WaitsFor barrier (Place.spinning sense) = barrier % 2 ≢ sense

module _ (n i : ℕ) (s : System) where
  goes_from :
      (place : Place)
      → (s.threads i).place ≡ place
      → GoesOn (s.threads i) ((step_from place n i s).threads i) ⊎ WaitsFor s.barrier place
  goes_from Place.outside e = inl (
      inr (
        ap (λ t. t.passed) (put_self s.threads i (move (s.threads i) (Place.arrived s.barrier))),
        omega (
          arith,
          ap (λ t. left_in t.place)
              (put_self s.threads i (move (s.threads i) (Place.arrived s.barrier))),
          ap left_in e,
        ),
      ))
  goes_from (Place.arrived was) e = inl (
      if_elim (λ (s' : System). GoesOn (s.threads i) (s'.threads i))
        (was / 2 == sub64 (int_word n) 1) (λ last. inl (put_self s.threads i (leave (s.threads i))))
        (λ other. inr (
          ap (λ t. t.passed)
              (put_self s.threads i (move (s.threads i) (Place.spinning (1 - was % 2)))),
          omega (
            arith,
            ap (λ t. left_in t.place)
                (put_self s.threads i (move (s.threads i) (Place.spinning (1 - was % 2)))),
            ap left_in e,
          ),
        )))
  goes_from (Place.spinning sense) e = elim (Bool-cases (s.barrier % 2 == sense)) [
    | inl seen ↦ inl (inl (rw seen (put_self s.threads i (leave (s.threads i)))))
    | inr unseen ↦ inr (λ same. let found = (==_iff (s.barrier % 2) sense).1 same in cc)
  ]

  pub goes_or_waits :
      GoesOn (s.threads i) ((step n i s).threads i) ⊎ WaitsFor s.barrier (s.threads i).place
  unfolding step
  goes_or_waits = goes_from (s.threads i).place refl

-- A thread that waits is in the present phase.
waits_now :
    (n k c barrier : ℕ) (t : Thread) (place : Place)
    → t.place ≡ place
    → barrier ≡ 2 * c + k % 2
    → Stands n k c place t.passed
    → WaitsFor barrier place
    → (t.passed ≡ k) × (here k t ≡ 1)
waits_now n k c barrier t Place.outside e word st w = absurd w
waits_now n k c barrier t (Place.arrived was) e word st w = absurd w
waits_now n k c barrier t (Place.spinning sense) e word (aim, inl now) w = (now, ground arith)
waits_now n k c barrier t (Place.spinning sense) e word (aim, inr before) w =
    absurd (w (omega arith))

count_all :
    (n k : ℕ) (threads : ℕ → Thread)
    → ((j : ℕ) → j < n → here k (threads j) ≡ 1)
    → count n k threads ≡ n
count_all zero k threads h = refl
count_all (suc n) k threads h =
    omega (arith, h n (omega arith), count_all n k threads (λ j j_in. h j (omega arith)))

last_waits :
    (n k barrier : ℕ) (place : Place) (passed : ℕ)
    → LastAt n k place passed
    → WaitsFor barrier place
    → ⊥
last_waits n k barrier Place.outside passed last w = w
last_waits n k barrier (Place.arrived was) passed last w = w
last_waits n k barrier (Place.spinning sense) passed last w = last

module _ {n k c : ℕ} {s : System} (ph : Phase n k c s) where
  -- A thread that waits, and one outside, has passed as many calls as there were phases.
  pub waits-passed :
      (j : ℕ) → j < n → WaitsFor s.barrier (s.threads j).place → (s.threads j).passed ≡ k
  waits-passed j j_in w =
      (waits_now n k c s.barrier (s.threads j) (s.threads j).place refl ph.word (ph.within j j_in)
        w).0

  pub outside-passed :
      (j : ℕ) → j < n → (s.threads j).place ≡ Place.outside → (s.threads j).passed ≡ k
  outside-passed j j_in e =
      subst (λ place. Stands n k c place (s.threads j).passed) e (ph.within j j_in)

  -- The last thread to arrive does not wait.
  pub not_all_wait : ((j : ℕ) → j < n → WaitsFor s.barrier (s.threads j).place) → ⊥
  not_all_wait all =
      let full : count n k s.threads ≡ n = count_all n k s.threads (λ j j_in.
        (waits_now n k c s.barrier (s.threads j) (s.threads j).place refl ph.word (ph.within j j_in)
          (all j j_in)).1) in
      let (j, j_in, last) = ph.some_last (omega (arith, ph.arrivals)) in
      last_waits n k s.barrier (s.threads j).place (s.threads j).passed last (all j j_in)
