-- ===== src/Barrier/Progress.antt =====
-- The barrier does not hang: when all threads are in the call, some thread returns.
use remus_tutorial.Prelude.{
  AllBelow, ℕ, zero, suc, ◌+◌, ◌-◌, ◌*◌, ◌/◌, ◌%◌, ◌^◌, ◌<◌, ◌≡◌, ◌≢◌, ◌∙◌, inl, inr, arith, refl,
  ap, true, false, sub64, int_word, ◌==◌, ==_iff, List, [], ◌∷◌, ℕ_discrete,
}
use remus_tutorial.Barrier.{Place, Thread, System, leave, move, step_from, step, run, start}
use remus_tutorial.Barrier.Count.{here, count, put_self, count_le}
use remus_tutorial.Barrier.Phases.{Stands, LastAt, start-IsPhased}
use remus_tutorial.Barrier.Steps.{run-IsPhased}

tests-eq : (a b : ℕ) → a ≡ b → (a == b) ≡ true
tests-eq a b e = (==_iff a b).1 e

tests-ne : (a b : ℕ) → a ≢ b → (a == b) ≡ false
tests-ne a b ne = ground arith

missing :
    (n k : ℕ) (threads : ℕ → Thread)
    → count n k threads < n
    → (j : ℕ) × (j < n) × (here k (threads j) ≡ 0)
missing zero k threads h = absurd (omega arith)
missing (suc n) k threads h = elim (ℕ_discrete (here k (threads n)) 0) [
  | yes out ↦ (n, omega arith, out)
  | no is_in ↦ let (j, j_in, out) = missing n k threads (omega arith) in (j, omega arith, out)
]

module _ (n : ℕ) (small : n < 2 ^ 31) (s : System) (i : ℕ) where
  step_outside :
      (s.threads i).place ≡ Place.outside → ((step n i s).threads i).passed ≡ (s.threads i).passed
  unfolding step
  step_outside e =
      ap (λ p. ((step_from p n i s).threads i).passed) e
      ∙ ap (λ t. t.passed) (put_self s.threads i (move (s.threads i) (Place.arrived s.barrier)))

  step_last :
      (was : ℕ)
      → (s.threads i).place ≡ Place.arrived was
      → was / 2 + 1 ≡ n
      → (step n i s).threads i ≡ leave (s.threads i)
  unfolding step
  step_last was e all =
      ap (λ p. (step_from p n i s).threads i) e
      ∙ rw (tests-eq (was / 2) (sub64 (int_word n) 1) (omega arith))
          (put_self s.threads i (leave (s.threads i)))

  step_seen :
      (sense : ℕ)
      → (s.threads i).place ≡ Place.spinning sense
      → s.barrier % 2 ≡ sense
      → (step n i s).threads i ≡ leave (s.threads i)
  unfolding step
  step_seen sense e seen =
      ap (λ p. (step_from p n i s).threads i) e
      ∙ rw (tests-eq (s.barrier % 2) sense seen) (put_self s.threads i (leave (s.threads i)))

  step_turn :
      (was : ℕ)
      → (s.threads i).place ≡ Place.arrived was
      → was / 2 + 1 < n
      → ((step n i s).threads i ≡ move (s.threads i) (Place.spinning (1 - was % 2)))
        × ((step n i s).barrier ≡ s.barrier)
  unfolding step
  step_turn was e more =
      let same = tests-ne (was / 2) (sub64 (int_word n) 1) (λ same. absurd (omega arith)) in
      (
        ap (λ p. (step_from p n i s).threads i) e
            ∙ rw same (put_self s.threads i (move (s.threads i) (Place.spinning (1 - was % 2)))),
        ap (λ p. (step_from p n i s).barrier) e ∙ rw same refl,
      )

module _ (n : ℕ) (small : n < 2 ^ 31) (s : System) (i : ℕ) where
  -- A thread that leaves is outside, and its next step only begins a call.
  leaves_first :
      (step n i s).threads i ≡ leave (s.threads i)
      → ((run n (i ∷ i ∷ []) s).threads i).passed ≡ (s.threads i).passed + 1
  unfolding run
  leaves_first e = step_outside n small (step n i s) i (ap (λ t. t.place) e) ∙ ap (λ t. t.passed) e

  turns_first :
      (was : ℕ)
      → (s.threads i).place ≡ Place.arrived was
      → was / 2 + 1 < n
      → s.barrier % 2 ≡ 1 - was % 2
      → ((run n (i ∷ i ∷ []) s).threads i).passed ≡ (s.threads i).passed + 1
  unfolding run
  turns_first was e more seen =
      let (turned, same) = step_turn n small s i was e more in
      ap (λ t. t.passed)
        (step_seen n small (step n i s) i (1 - was % 2) (ap (λ t. t.place) turned)
          (ap (λ b. b % 2) same ∙ seen))
      ∙ ap (λ t. t.passed + 1) turned

  goes_on :
      (k c : ℕ) (place : Place)
      → (s.threads i).place ≡ place
      → place ≢ Place.outside
      → s.barrier ≡ 2 * c + k % 2
      → Stands n k c place (s.threads i).passed
      → here k (record { place = place; passed = (s.threads i).passed }) ≡ 0
      → ((run n (i ∷ i ∷ []) s).threads i).passed ≡ (s.threads i).passed + 1
  goes_on k c Place.outside e in_call word stands out = absurd (in_call refl)
  goes_on k c (Place.arrived was) e in_call word (parity, inl (now, lt)) out = absurd (ground arith)
  goes_on k c (Place.arrived was) e in_call word (parity, inr (before, more)) out =
      turns_first was e more (omega arith)
  goes_on k c (Place.spinning sense) e in_call word (aim, inl now) out = absurd (ground arith)
  goes_on k c (Place.spinning sense) e in_call word (aim, inr before) out =
      leaves_first (step_seen n small s i sense e (omega arith))

  opens :
      (k : ℕ) (place : Place)
      → (s.threads i).place ≡ place
      → LastAt n k place (s.threads i).passed
      → ((run n (i ∷ i ∷ []) s).threads i).passed ≡ (s.threads i).passed + 1
  opens k Place.outside e last = absurd last
  opens k (Place.arrived was) e (now, all) = leaves_first (step_last n small s i was e all)
  opens k (Place.spinning sense) e last = absurd last

-- Whatever steps `n` threads have made on a fresh barrier, where `n` is not 0 and `n` fits an
-- int, when all threads are in the call there is one that returns within its next two steps.
pub some_thread_leaves :
    (n : ℕ) (is : List ℕ)
    → 0 < n
    → n < 2 ^ 31
    → AllBelow n is
    → ((j : ℕ) → j < n → ((run n is start).threads j).place ≢ Place.outside)
    → (i : ℕ) × (i < n)
      × (((run n (i ∷ i ∷ []) (run n is start)).threads i).passed
          ≡ ((run n is start).threads i).passed + 1)
some_thread_leaves n is pos small known in_call =
    let s : System = run n is start in
    let (k, c, ph) = run-IsPhased small pos is known (start-IsPhased n pos) in
    elim (ℕ_discrete c n) [
      | yes full ↦
          let (i, i_in, last) = ph.some_last full in
          (i, i_in, opens n small s i k (s.threads i).place refl last)
      | no more ↦
          let (i, i_in, out) =
            missing n k s.threads (omega (arith, ph.arrivals, count_le n k s.threads)) in
          (
            i,
            i_in,
            goes_on n small s i k c (s.threads i).place refl (in_call i i_in) ph.word
                (ph.within i i_in) out,
          )
    ]
