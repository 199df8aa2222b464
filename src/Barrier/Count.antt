-- ===== src/Barrier/Count.antt =====
-- Counting the threads that have arrived in a phase.
use remus_tutorial.Prelude.{
  ℕ, zero, suc, ◌+◌, ◌≤◌, ◌<◌, ◌≡◌, ◌≢◌, arith, refl, ap, if◌then◌else◌, ◌==◌, dec_lt, ℕ_discrete,
}
use remus_tutorial.Barrier.{Place, Thread, put}

pub put_self : (threads : ℕ → Thread) (i : ℕ) (t : Thread) → put threads i t i ≡ t
put_self threads i t = ground arith

pub put_ne : (threads : ℕ → Thread) (i j : ℕ) (t : Thread) → i ≢ j → put threads i t j ≡ threads j
put_ne threads i j t h = ground arith

-- 1 for a thread that has arrived in phase `k`.
abbrev pub here : ℕ → Thread → ℕ
here k t = elim t.place [
  | Place.outside ↦ 0
  | Place.arrived was ↦ if t.passed == k then 1 else 0
  | Place.spinning sense ↦ if t.passed == k then 1 else 0
]

-- How many of the first `n` threads have arrived.
abbrev pub count : ℕ → ℕ → (ℕ → Thread) → ℕ
count zero k threads = 0
count (suc n) k threads = count n k threads + here k (threads n)

pub here_le : (k : ℕ) (t : Thread) → here k t ≤ 1
here_le k t = ground arith

pub count_le : (n k : ℕ) (threads : ℕ → Thread) → count n k threads ≤ n
count_le zero k threads = omega arith
count_le (suc n) k threads = omega (arith, count_le n k threads, here_le k (threads n))

-- Below the number of threads where one has not arrived.
pub count_lt :
    (n k i : ℕ) (threads : ℕ → Thread) → i < n → here k (threads i) ≡ 0 → count n k threads < n
count_lt zero k i threads h out = absurd (omega arith)
count_lt (suc n) k i threads h out = elim (ℕ_discrete i n) [
  | yes e ↦ omega (arith, count_le n k threads, ap (λ j. here k (threads j)) e)
  | no ne ↦ omega (arith, count_lt n k i threads (omega arith) out, here_le k (threads n))
]

pub count-same :
    (n k : ℕ) (threads threads' : ℕ → Thread)
    → ((j : ℕ) → j < n → here k (threads' j) ≡ here k (threads j))
    → count n k threads' ≡ count n k threads
count-same zero k threads threads' h = refl
count-same (suc n) k threads threads' h =
    omega (arith, h n (omega arith), count-same n k threads threads' (λ j j_in. h j (omega arith)))

pub count-zero :
    (n k : ℕ) (threads : ℕ → Thread)
    → ((j : ℕ) → j < n → here k (threads j) ≡ 0)
    → count n k threads ≡ 0
count-zero zero k threads h = refl
count-zero (suc n) k threads h =
    omega (arith, h n (omega arith), count-zero n k threads (λ j j_in. h j (omega arith)))

-- The count after one thread is changed.
pub count-put :
    (n k i : ℕ) (threads : ℕ → Thread) (t : Thread)
    → i < n
    → count n k (put threads i t) + here k (threads i) ≡ count n k threads + here k t
count-put zero k i threads t h = absurd (omega arith)
count-put (suc n) k i threads t h = elim (ℕ_discrete i n) [
  | yes e ↦ omega (
    arith,
    ap (here k) (put_self threads i t),
    ap (λ j. here k (threads j)) e,
    ap (λ j. here k (put threads i t j)) e,
    count-same n k threads (put threads i t)
        (λ j j_in. ap (here k) (put_ne threads i j t (λ same. absurd (omega arith)))),
  )
  | no ne ↦
      omega (arith, ap (here k) (put_ne threads i n t ne), count-put n k i threads t (omega arith))
]

-- Where all threads have arrived each one has.
pub count_full :
    (n k j : ℕ) (threads : ℕ → Thread) → count n k threads ≡ n → j < n → here k (threads j) ≡ 1
count_full n k j threads full h = elim (dec_lt (here k (threads j)) 1) [
  | yes out ↦ absurd (omega (arith, count_lt n k j threads h (omega arith)))
  | no not_out ↦ omega (arith, here_le k (threads j))
]
