-- ===== src/RootTest/Progress.antt =====
-- The workers of the root test do not block one another: from every state that they reach, all of
-- them can end.
use remus_tutorial.Prelude.{
  AllBelow, ℕ, zero, suc, ◌+◌, ◌*◌, ◌^◌, ◌≤◌, ◌<◌, ◌≡◌, ◌≢◌, ◌⊎◌, ◌∙◌, inl, inr, arith, refl, ap,
  sym, subst, ℕ_discrete, List, [], ◌∷◌, length,
}
use remus_tutorial.Barrier.{Place}
use remus_tutorial.Barrier.Moves.{WaitsFor, waits-passed, outside-passed, not_all_wait}
use remus_tutorial.RootTest.{
  System, Stage, first_barrier, take_root, acquiring, reading, writing, unlocking, second_barrier,
  joined, value_at, step, run, start,
}
use remus_tutorial.RootTest.Sums.{sum-none}
use remus_tutorial.RootTest.Fits.{Fits, holds}
use remus_tutorial.RootTest.Invariant.{Inv, start-Inv}
use remus_tutorial.RootTest.Steps.{step-Inv, run-Inv}
use remus_tutorial.RootTest.Moves.{weight, weight_of, Stuck, moves_or_Stuck, step_others_weight}
use remus_tutorial.RootTest.Final.{Inv-joined}

-- One of the first `n` numbers has the first property, or all have the second.
some_or_all :
    {P Q : ℕ → Type 0} (n : ℕ)
    → ((j : ℕ) → j < n → P j ⊎ Q j)
    → ((j : ℕ) × (j < n) × P j) ⊎ ((j : ℕ) → j < n → Q j)
some_or_all zero h = inr (λ j j_in. absurd (omega arith))
some_or_all {P} {Q} (suc n) h = elim (some_or_all {P = P} {Q = Q} n (λ j j_in. h j (omega arith))) [
  | inl (j, j_in, found) ↦ inl (j, omega arith, found)
  | inr all ↦ elim (h n (omega arith)) [
    | inl found ↦ inl (n, omega arith, found)
    | inr last ↦ inr (λ j j_in. elim (ℕ_discrete j n) [
      | yes e ↦ subst Q (sym e) last
      | no ne ↦ all j (omega arith)
    ])
  ]
]

abbrev total : (ℕ → ℕ) → ℕ → ℕ
total f zero = 0
total f (suc n) = total f n + f n

total-same : (n : ℕ) (f g : ℕ → ℕ) → ((j : ℕ) → j < n → f j ≡ g j) → total f n ≡ total g n
total-same zero f g h = refl
total-same (suc n) f g h =
    omega (arith, h n (omega arith), total-same n f g (λ j j_in. h j (omega arith)))

total-less :
    (n i : ℕ) (f g : ℕ → ℕ)
    → i < n
    → f i < g i
    → ((j : ℕ) → i ≢ j → f j ≡ g j)
    → total f n < total g n
total-less zero i f g h less others = absurd (omega arith)
total-less (suc n) i f g h less others = elim (ℕ_discrete i n) [
  | yes e ↦ omega (
    arith,
    subst (λ j. f j < g j) e less,
    total-same n f g (λ j j_in. others j (λ same. absurd (omega arith))),
  )
  | no ne ↦ omega (arith, others n ne, total-less n i f g (omega arith) less others)
]

Stuck-free : (s : System) (j : ℕ) (st : Stage) → Stuck s j st → holds st ≡ 0
Stuck-free s j first_barrier h = refl
Stuck-free s j take_root h = refl
Stuck-free s j (acquiring p) h = refl
Stuck-free s j (reading p) h = absurd h
Stuck-free s j (writing p v) h = absurd h
Stuck-free s j (unlocking p) h = absurd h
Stuck-free s j second_barrier h = refl
Stuck-free s j joined h = refl

-- A worker at a barrier whose thread waits.
abbrev Waits : System → ℕ → Type 0
Waits s j =
    ((s.barrier.threads j).passed ≤ 1) × WaitsFor s.barrier.barrier (s.barrier.threads j).place

module _ {n p : ℕ} {s : System} (inv : Inv n p s) where
  -- With a free lock.
  joined_or_Waits :
      s.cells p ≡ 0
      → (j : ℕ) (st : Stage) → s.stage j ≡ st
      → Fits p (s.cells (p + value_at)) (s.barrier.threads j) st
      → Stuck s j st
      → ((s.stage j ≡ joined)
          × ((s.barrier.threads j).passed ≡ 2)
          × ((s.barrier.threads j).place ≡ Place.outside))
        ⊎ Waits s j
  joined_or_Waits free j first_barrier e f h = inr (omega arith, h)
  joined_or_Waits free j take_root e f h = absurd h
  joined_or_Waits free j (acquiring q) e f h = absurd (h (ap s.cells f.1 ∙ free))
  joined_or_Waits free j (reading q) e f h = absurd h
  joined_or_Waits free j (writing q v) e f h = absurd h
  joined_or_Waits free j (unlocking q) e f h = absurd h
  joined_or_Waits free j second_barrier e f h = inr (omega arith, h)
  joined_or_Waits free j joined e f h = inl (e, f.0, f.1)

  all-Stuck : ((j : ℕ) → j < n → Stuck s j (s.stage j)) → (j : ℕ) → j < n → s.stage j ≡ joined
  all-Stuck stuck =
      let free : s.cells p ≡ 0 =
        inv.locked
        ∙ sum-none holds n s.stage (λ j j_in. Stuck-free s j (s.stage j) (stuck j j_in)) in
      let (k, c, ph) = inv.phased in
      let each = λ (j : ℕ) (j_in : j < n).
        joined_or_Waits free j (s.stage j) refl (inv.fits j j_in) (stuck j j_in) in
      elim (some_or_all n each) [
        | inl (i, i_in, (e, twice, out)) ↦
            let phase : k ≡ 2 = sym (outside-passed ph i i_in out) ∙ twice in
            λ j j_in. elim (each j j_in) [
              | inl (done, passed, out') ↦ done
              | inr (early, waits) ↦ absurd (omega (arith, waits-passed ph j j_in waits))
            ]
        | inr waiting ↦ absurd (not_all_wait ph (λ j j_in. (waiting j j_in).1))
      ]

abbrev Nearer : ℕ → System → ℕ → Type 0
Nearer n s i = weight_of (step n i s) i < weight_of s i

Nearer-total :
    (n : ℕ) (s : System) (i : ℕ)
    → i < n
    → Nearer n s i
    → total (weight_of (step n i s)) n < total (weight_of s) n
Nearer-total n s i i_in nearer =
    total-less n i (weight_of (step n i s)) (weight_of s) i_in nearer (step_others_weight n i s)

module _ {n p : ℕ} (small : n < 2 ^ 31) (pos : 0 < n) where
  Nearer-or_Stuck :
      (s : System)
      → Inv n p s
      → ((i : ℕ) × (i < n) × Nearer n s i) ⊎ ((j : ℕ) → j < n → Stuck s j (s.stage j))
  Nearer-or_Stuck s inv =
      some_or_all n (λ j j_in. moves_or_Stuck n j s p (s.cells (p + value_at)) (inv.fits j j_in))

  -- The schedule picks a worker whose step brings it nearer to its end.
  finish_all :
      (bound : ℕ) (s : System)
      → Inv n p s
      → total (weight_of s) n ≤ bound
      → (is : List ℕ) × AllBelow n is
        × (length is ≤ bound)
        × ((j : ℕ) → j < n → (run n is s).stage j ≡ joined)
  unfolding run
  finish_all zero s inv le = elim (Nearer-or_Stuck s inv) [
    | inl (i, i_in, nearer) ↦ absurd (omega (arith, Nearer-total n s i i_in nearer))
    | inr stuck ↦ ([], tt, omega arith, all-Stuck inv stuck)
  ]
  finish_all (suc bound) s inv le = elim (Nearer-or_Stuck s inv) [
    | inl (i, i_in, nearer) ↦
        let (is, known, short, all) =
          finish_all bound (step n i s) (step-Inv small pos inv i i_in)
            (omega (arith, Nearer-total n s i i_in nearer)) in
        (i ∷ is, (i_in, known), omega arith, all)
    | inr stuck ↦ ([], tt, omega arith, all-Stuck inv stuck)
  ]

weight_le : (st : Stage) (place : Place) → weight st place ≤ 12
weight_le st place = ground arith

total-le : (n : ℕ) (s : System) → total (weight_of s) n ≤ 12 * n
total-le zero s = omega arith
total-le (suc n) s = omega (arith, total-le n s, weight_le (s.stage n) (s.barrier.threads n).place)

-- Whatever steps `n` workers have made, where `n` is not 0, `n` fits an int of the barrier and
-- the bytes after `locked` are 0, there are at most 12n more steps after which all workers have
-- ended, the counter is `n` and the lock is free: no order of steps leads to a deadlock.
pub all_join :
    (n p : ℕ) (is : List ℕ)
    → 0 < n
    → n < 2 ^ 31
    → AllBelow n is
    → (more : List ℕ) × AllBelow n more
      × (length more ≤ 12 * n)
      × ((j : ℕ) → j < n → (run n more (run n is (start 0 p))).stage j ≡ joined)
      × ((run n more (run n is (start 0 p))).cells (p + value_at) ≡ n)
      × ((run n more (run n is (start 0 p))).cells p ≡ 0)
all_join n p is pos small known =
    let s : System = run n is (start 0 p) in
    let inv : Inv n p s = run-Inv small pos is known (start-Inv n p pos) in
    let (more, more_known, short, all) = finish_all small pos (12 * n) s inv (total-le n s) in
    let (count, free) = Inv-joined 0 (run-Inv small pos more more_known inv) pos (all 0 pos) in
    (more, more_known, short, all, count, free)
