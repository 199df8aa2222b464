-- ===== src/RootTest/Final.antt =====
-- What the workers of the root test find: one at a time has the lock, no increment is lost, and
-- after the second barrier the counter is the number of all workers.
use remus_tutorial.Prelude.{
  AllBelow, ℕ, ◌+◌, ◌^◌, ◌≤◌, ◌<◌, ◌≡◌, ◌∙◌, arith, refl, subst, ℕ_discrete, List,
}
use remus_tutorial.Barrier.{Thread}
use remus_tutorial.Barrier.Order.{called, IsPhased-order}
use remus_tutorial.RootTest.{
  System, Stage, first_barrier, take_root, acquiring, reading, writing, unlocking, second_barrier,
  joined, value_at, start, run,
}
use remus_tutorial.RootTest.Sums.{sum-all, sum-none, two_le_sum}
use remus_tutorial.RootTest.Fits.{IsBetween, Fits, holds, added}
use remus_tutorial.RootTest.Invariant.{Inv, start-Inv}
use remus_tutorial.RootTest.Steps.{run-Inv}

called_once : (t : Thread) → IsBetween t → called t ≡ 1
called_once t (once, out) = ground arith

-- A worker that has begun its second call of the barrier is past the critical section.
past :
    (p value : ℕ) (t : Thread) (st : Stage)
    → Fits p value t st
    → called t ≤ t.passed + 1
    → 2 ≤ called t
    → (added st ≡ 1) × (holds st ≡ 0)
past p value t first_barrier f le h = absurd (omega arith)
past p value t take_root f le h = absurd (omega (arith, called_once t f))
past p value t (acquiring q) f le h = absurd (omega (arith, called_once t f.0))
past p value t (reading q) f le h = absurd (omega (arith, called_once t f.0))
past p value t (writing q v) f le h = absurd (omega (arith, called_once t f.0))
past p value t (unlocking q) f le h = absurd (omega (arith, called_once t f.0))
past p value t second_barrier f le h = (refl, refl)
past p value t joined f le h = (refl, refl)

called_le : (t : Thread) → called t ≤ t.passed + 1
called_le t = ground arith

-- In any state that keeps the invariant.
pub Inv-joined :
    {n p : ℕ} {s : System} (i : ℕ)
    → Inv n p s
    → i < n
    → s.stage i ≡ joined
    → (s.cells (p + value_at) ≡ n) × (s.cells p ≡ 0)
Inv-joined {n} {p} {s} i inv i_in e =
    let twice : (s.barrier.threads i).passed ≡ 2 =
      (subst (Fits p (s.cells (p + value_at)) (s.barrier.threads i)) e (inv.fits i i_in)).0 in
    let over : (j : ℕ) → j < n → (added (s.stage j) ≡ 1) × (holds (s.stage j) ≡ 0) = λ j j_in.
      past p (s.cells (p + value_at)) (s.barrier.threads j) (s.stage j) (inv.fits j j_in)
        (called_le (s.barrier.threads j))
        (omega (arith, IsPhased-order i j inv.phased i_in j_in)) in
    (
      inv.counted ∙ sum-all added n s.stage (λ j j_in. (over j j_in).0),
      inv.locked ∙ sum-none holds n s.stage (λ j j_in. (over j j_in).1),
    )

module _ (n p : ℕ) (is : List ℕ) (pos : 0 < n) (small : n < 2 ^ 31) (known : AllBelow n is) where
  -- Whatever the order of the steps of `n` workers, where `n` is not 0, `n` fits an int of the
  -- barrier and the bytes after `locked` are 0, two workers that hold the lock are the same worker.
  one_holder :
      (i j : ℕ)
      → i < n
      → j < n
      → holds ((run n is (start 0 p)).stage i) ≡ 1
      → holds ((run n is (start 0 p)).stage j) ≡ 1
      → i ≡ j
  one_holder i j i_in j_in hi hj =
      let s : System = run n is (start 0 p) in
      let inv = run-Inv small pos is known (start-Inv n p pos) in
      elim (ℕ_discrete i j) [
        | yes e ↦ e
        | no ne ↦ absurd (omega (arith, inv.one, two_le_sum holds n i j s.stage i_in j_in ne))
      ]

  -- Whatever the order of the steps of `n` workers, where `n` is not 0, `n` fits an int of the
  -- barrier and the bytes after `locked` are 0, once some worker has left the second barrier the
  -- counter is `n` and the lock is free.
  pub joined_count :
      (i : ℕ)
      → i < n
      → (run n is (start 0 p)).stage i ≡ joined
      → ((run n is (start 0 p)).cells (p + value_at) ≡ n) × ((run n is (start 0 p)).cells p ≡ 0)
  joined_count i i_in e = Inv-joined i (run-Inv small pos is known (start-Inv n p pos)) i_in e
