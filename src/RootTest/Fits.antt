-- ===== src/RootTest/Fits.antt =====
-- Where the workers can be, and who holds the lock.
use remus_tutorial.Prelude.{ℕ, ◌≤◌, ◌≡◌, arith}
use remus_tutorial.Barrier.{Place, Thread}
use remus_tutorial.RootTest.{
  Stage, first_barrier, take_root, acquiring, reading, writing, unlocking, second_barrier, joined,
}

-- 1 for a worker that holds the lock.
abbrev pub holds : Stage → ℕ
holds first_barrier = 0
holds take_root = 0
holds (acquiring p) = 0
holds (reading p) = 1
holds (writing p v) = 1
holds (unlocking p) = 1
holds second_barrier = 0
holds joined = 0

-- 1 for a worker that has written the counter.
abbrev pub added : Stage → ℕ
added first_barrier = 0
added take_root = 0
added (acquiring p) = 0
added (reading p) = 0
added (writing p v) = 0
added (unlocking p) = 1
added second_barrier = 1
added joined = 1

pub added_le : (st : Stage) → added st ≤ 1
added_le first_barrier = omega arith
added_le take_root = omega arith
added_le (acquiring p) = omega arith
added_le (reading p) = omega arith
added_le (writing p v) = omega arith
added_le (unlocking p) = omega arith
added_le second_barrier = omega arith
added_le joined = omega arith

abbrev pub IsBetween : Thread → Type 0
IsBetween t = (t.passed ≡ 1) × (t.place ≡ Place.outside)

-- What the barrier has counted for a worker, and that it has the counter at `p` and its value.
abbrev pub Fits : ℕ → ℕ → Thread → Stage → Type 0
Fits p value t first_barrier = t.passed ≡ 0
Fits p value t take_root = IsBetween t
Fits p value t (acquiring q) = IsBetween t × (q ≡ p)
Fits p value t (reading q) = IsBetween t × (q ≡ p)
Fits p value t (writing q v) = IsBetween t × (q ≡ p) × (v ≡ value)
Fits p value t (unlocking q) = IsBetween t × (q ≡ p)
Fits p value t second_barrier = t.passed ≡ 1
Fits p value t joined = (t.passed ≡ 2) × (t.place ≡ Place.outside)

-- Only the holder of the lock knows the value.
pub Fits-value :
    (p value value' : ℕ) (t : Thread) (st : Stage)
    → holds st ≡ 0
    → Fits p value t st
    → Fits p value' t st
Fits-value p value value' t first_barrier free h = h
Fits-value p value value' t take_root free h = h
Fits-value p value value' t (acquiring q) free h = h
Fits-value p value value' t (reading q) free h = absurd (omega arith)
Fits-value p value value' t (writing q v) free h = absurd (omega arith)
Fits-value p value value' t (unlocking q) free h = absurd (omega arith)
Fits-value p value value' t second_barrier free h = h
Fits-value p value value' t joined free h = h
