-- ===== src/RootTest/Sums.antt =====
-- Sums over the stages of the workers.
use remus_tutorial.Prelude.{ℕ, zero, suc, ◌+◌, ◌≤◌, ◌<◌, ◌≡◌, ◌≢◌, arith, refl, ap, ℕ_discrete}
use remus_tutorial.RootTest.{Stage, place_at}

pub place_at_self : (i : ℕ) (st : Stage) (stage : ℕ → Stage) → place_at i st stage i ≡ st
place_at_self i st stage = ground arith

pub place_at_ne :
    (i j : ℕ) (st : Stage) (stage : ℕ → Stage) → i ≢ j → place_at i st stage j ≡ stage j
place_at_ne i j st stage h = ground arith

module _ (f : Stage → ℕ) where
  abbrev pub sum : ℕ → (ℕ → Stage) → ℕ
  sum zero stage = 0
  sum (suc n) stage = sum n stage + f (stage n)

  sum-same :
      (n : ℕ) (stage stage' : ℕ → Stage)
      → ((j : ℕ) → j < n → stage' j ≡ stage j)
      → sum n stage' ≡ sum n stage
  sum-same zero stage stage' h = refl
  sum-same (suc n) stage stage' h =
      omega (arith, ap f (h n (omega arith)), sum-same n stage stage' (λ j j_in. h j (omega arith)))

  -- The sum after one worker is changed.
  pub sum-place_at :
      (n i : ℕ) (st : Stage) (stage : ℕ → Stage)
      → i < n
      → sum n (place_at i st stage) + f (stage i) ≡ sum n stage + f st
  sum-place_at zero i st stage h = absurd (omega arith)
  sum-place_at (suc n) i st stage h = elim (ℕ_discrete i n) [
    | yes e ↦ omega (
      arith,
      ap f (place_at_self i st stage),
      ap (λ j. f (stage j)) e,
      ap (λ j. f (place_at i st stage j)) e,
      sum-same n stage (place_at i st stage)
          (λ j j_in. place_at_ne i j st stage (λ same. absurd (omega arith))),
    )
    | no ne ↦
        omega (arith, ap f (place_at_ne i n st stage ne), sum-place_at n i st stage (omega arith))
  ]

  -- A worker is part of the sum, and two workers are.
  pub le_sum : (n i : ℕ) (stage : ℕ → Stage) → i < n → f (stage i) ≤ sum n stage
  le_sum zero i stage h = absurd (omega arith)
  le_sum (suc n) i stage h = elim (ℕ_discrete i n) [
    | yes e ↦ omega (arith, ap (λ j. f (stage j)) e)
    | no ne ↦ omega (arith, le_sum n i stage (omega arith))
  ]

  pub two_le_sum :
      (n i j : ℕ) (stage : ℕ → Stage)
      → i < n
      → j < n
      → i ≢ j
      → f (stage i) + f (stage j) ≤ sum n stage
  two_le_sum zero i j stage h k ne = absurd (omega arith)
  two_le_sum (suc n) i j stage h k ne = elim (ℕ_discrete i n) [
    | yes e ↦ omega (arith, ap (λ m. f (stage m)) e, le_sum n j stage (omega arith))
    | no i_ne ↦ elim (ℕ_discrete j n) [
      | yes e ↦ omega (arith, ap (λ m. f (stage m)) e, le_sum n i stage (omega arith))
      | no j_ne ↦ omega (arith, two_le_sum n i j stage (omega arith) (omega arith) ne)
    ]
  ]

  pub sum-le : (n : ℕ) (stage : ℕ → Stage) → ((st : Stage) → f st ≤ 1) → sum n stage ≤ n
  sum-le zero stage h = omega arith
  sum-le (suc n) stage h = omega (arith, h (stage n), sum-le n stage h)

  pub sum-all : (n : ℕ) (stage : ℕ → Stage) → ((j : ℕ) → j < n → f (stage j) ≡ 1) → sum n stage ≡ n
  sum-all zero stage h = refl
  sum-all (suc n) stage h =
      omega (arith, h n (omega arith), sum-all n stage (λ j j_in. h j (omega arith)))

  pub sum-none : (n : ℕ) (stage : ℕ → Stage) → ((j : ℕ) → j < n → f (stage j) ≡ 0) → sum n stage ≡ 0
  sum-none zero stage h = refl
  sum-none (suc n) stage h =
      omega (arith, h n (omega arith), sum-none n stage (λ j j_in. h j (omega arith)))
