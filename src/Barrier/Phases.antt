-- ===== src/Barrier/Phases.antt =====
-- The phases of the barrier, and where its threads are in them.
use remus_tutorial.Prelude.{
  ℕ, ◌+◌, ◌*◌, ◌/◌, ◌%◌, ◌≤◌, ◌<◌, ◌≡◌, ◌≢◌, ◌⊎◌, ◌∙◌, inl, inr, arith, refl, ap, sym, subst,
  ℕ_discrete,
}
use remus_tutorial.Barrier.{Place, Thread, System, put, start}
use remus_tutorial.Barrier.Count.{put_self, put_ne, here, count, count-zero}

-- Where a thread can be in phase `k` with `c` arrivals: threads that were released may still be in
-- the call of the phase before.
abbrev pub Stands : ℕ → ℕ → ℕ → Place → ℕ → Type 0
Stands n k c Place.outside passed = passed ≡ k
Stands n k c (Place.arrived was) passed =
    (was % 2 ≡ passed % 2)
    × (((passed ≡ k) × (was / 2 < c)) ⊎ ((passed + 1 ≡ k) × (was / 2 + 1 < n)))
Stands n k c (Place.spinning sense) passed =
    (sense ≡ (passed + 1) % 2) × ((passed ≡ k) ⊎ (passed + 1 ≡ k))

abbrev pub IsIn : ℕ → ℕ → ℕ → Thread → Type 0
IsIn n k c t = Stands n k c t.place t.passed

-- The thread that will open the barrier.
abbrev pub LastAt : ℕ → ℕ → Place → ℕ → Type 0
LastAt n k Place.outside passed = ⊥
LastAt n k (Place.arrived was) passed = (passed ≡ k) × (was / 2 + 1 ≡ n)
LastAt n k (Place.spinning sense) passed = ⊥

abbrev pub IsLast : ℕ → ℕ → Thread → Type 0
IsLast n k t = LastAt n k t.place t.passed

pub record Phase (n k c : ℕ) (s : System) : Type 0 where
  pub word : s.barrier ≡ 2 * c + k % 2
  pub arrivals : count n k s.threads ≡ c
  pub within : (j : ℕ) → j < n → IsIn n k c (s.threads j)
  pub one_last :
      (i j : ℕ) → i < n → j < n → IsLast n k (s.threads i) → IsLast n k (s.threads j) → i ≡ j
  pub some_last : c ≡ n → (j : ℕ) × (j < n) × IsLast n k (s.threads j)

-- A system in some phase, with some number of arrivals.
abbrev pub IsPhased : ℕ → System → Type 0
IsPhased n s = (k : ℕ) × (c : ℕ) × Phase n k c s

pub start-IsPhased : (n : ℕ) → 0 < n → IsPhased n start
start-IsPhased n h = (
  0,
  0,
  record {
    word = omega arith;
    arrivals = count-zero n 0 start.threads (λ j j_in. refl);
    within = λ j j_in. refl;
    one_last = λ i j i_in j_in last. elim last [ ];
    some_last = λ e. absurd (omega arith);
  },
)

-- What holds of every thread after one has a new place.
pub put_all :
    (P : ℕ → Thread → Type 0) (threads : ℕ → Thread) (i : ℕ) (t : Thread)
    → P i t
    → ((j : ℕ) → i ≢ j → P j (threads j))
    → (j : ℕ) → P j (put threads i t j)
put_all P threads i t new old j = elim (ℕ_discrete i j) [
  | yes e ↦ subst (λ m. P m (put threads i t m)) e (subst (P i) (sym (put_self threads i t)) new)
  | no ne ↦ subst (P j) (sym (put_ne threads i j t ne)) (old j ne)
]

pub here_outside : (k : ℕ) (t : Thread) → t.place ≡ Place.outside → here k t ≡ 0
here_outside k t e = rw e refl

pub here_arrived :
    (k was passed : ℕ)
    → passed ≡ k
    → here k (record { place = Place.arrived was; passed = passed }) ≡ 1
here_arrived k was passed e = ground arith

pub more-Stands :
    (n k c : ℕ) (place : Place) (passed : ℕ)
    → Stands n k c place passed
    → Stands n k (c + 1) place passed
more-Stands n k c Place.outside passed h = h
more-Stands n k c (Place.arrived was) passed (parity, inl (now, lt)) =
    (parity, inl (now, omega arith))
more-Stands n k c (Place.arrived was) passed (parity, inr before) = (parity, inr before)
more-Stands n k c (Place.spinning sense) passed h = h

-- While a thread is missing none is the last.
pub no_last :
    (n k c : ℕ) (place : Place) (passed : ℕ)
    → Stands n k c place passed
    → LastAt n k place passed
    → n ≤ c
no_last n k c Place.outside passed h last = absurd last
no_last n k c (Place.arrived was) passed (parity, inl (now, lt)) (now', all) = omega arith
no_last n k c (Place.arrived was) passed (parity, inr (before, lt)) (now', all) = omega arith
no_last n k c (Place.spinning sense) passed h last = absurd last

-- The others when the last one opens the barrier.
pub released :
    (n k c : ℕ) (place : Place) (passed : ℕ)
    → c ≤ n
    → Stands n k c place passed
    → here k (record { place = place; passed = passed }) ≡ 1
    → ¬ LastAt n k place passed
    → Stands n (k + 1) 0 place passed × (passed ≡ k)
released n k c Place.outside passed le h one not_last = absurd (omega arith)
released n k c (Place.arrived was) passed le (parity, inl (now, lt)) one not_last = (
  (
    parity,
    inr (
      omega arith,
      elim (ℕ_discrete (was / 2 + 1) n) [
        | yes all ↦ absurd (not_last (now, all))
        | no more ↦ omega arith
      ],
    ),
  ),
  now,
)
released n k c (Place.arrived was) passed le (parity, inr (before, lt)) one not_last =
    absurd (ground arith)
released n k c (Place.spinning sense) passed le (parity, inl now) one not_last =
    ((parity, inr (omega arith)), now)
released n k c (Place.spinning sense) passed le (parity, inr before) one not_last =
    absurd (ground arith)

pub not_yet_last :
    (n k : ℕ) (place : Place) (passed : ℕ) → passed ≡ k → ¬ LastAt n (k + 1) place passed
not_yet_last n k Place.outside passed now last = last
not_yet_last n k (Place.arrived was) passed now (next, all) = absurd (omega arith)
not_yet_last n k (Place.spinning sense) passed now last = last

pub not_here : (k : ℕ) (t : Thread) → t.passed ≡ k → here (k + 1) t ≡ 0
not_here k t e = ground arith

pub last_here :
    (n k c was passed : ℕ)
    → Stands n k c (Place.arrived was) passed
    → was / 2 + 1 ≡ n
    → (was % 2 ≡ k % 2) × (passed ≡ k) × (was / 2 < c)
last_here n k c was passed (parity, inl (now, lt)) all = (parity ∙ ap (λ m. m % 2) now, now, lt)
last_here n k c was passed (parity, inr (before, lt)) all = absurd (omega arith)
