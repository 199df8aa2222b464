-- ===== src/RootTest/Invariant.antt =====
-- What every step of the workers keeps.
use remus_tutorial.Prelude.{ℕ, ◌+◌, ◌≤◌, ◌<◌, ◌≡◌, ◌≢◌, arith, refl, sym, subst, ℕ_discrete}
use remus_tutorial.Barrier
use remus_tutorial.Barrier.Phases.{IsPhased, start-IsPhased}
use remus_tutorial.RootTest.{System, Stage, place_at, value_at, start}
use remus_tutorial.RootTest.Sums.{
  sum, sum-place_at, sum-none, two_le_sum, place_at_self, place_at_ne,
}
use remus_tutorial.RootTest.Fits.{holds, added, Fits, Fits-value}

-- The lock counts its holders, and the counter those that have written it.
pub record Inv (n p : ℕ) (s : System) : Type 0 where
  pub phased : IsPhased n s.barrier
  pub rooted : s.root ≡ p
  pub locked : s.cells p ≡ sum holds n s.stage
  pub one : sum holds n s.stage ≤ 1
  pub counted : s.cells (p + value_at) ≡ sum added n s.stage
  pub fits : (j : ℕ) → j < n → Fits p (s.cells (p + value_at)) (s.barrier.threads j) (s.stage j)

pub start-Inv : (n p : ℕ) → 0 < n → Inv n p (start 0 p)
start-Inv n p pos = record {
  phased = start-IsPhased n pos;
  rooted = refl;
  locked = ground (arith, sum-none holds n (start 0 p).stage (λ j j_in. refl));
  one = omega (arith, sum-none holds n (start 0 p).stage (λ j j_in. refl));
  counted = ground (arith, sum-none added n (start 0 p).stage (λ j j_in. refl));
  fits = λ j j_in. refl;
}

module _ {n p : ℕ} {s : System} (inv : Inv n p s) (i : ℕ) (i_in : i < n) where
  -- Worker `i` goes to another stage, on a memory and a barrier that suit the others.
  pub moved :
      (b : Barrier.System) (cells : ℕ → ℕ) (st : Stage)
      → IsPhased n b
      → cells p + holds (s.stage i) ≡ s.cells p + holds st
      → cells p ≤ 1
      → cells (p + value_at) + added (s.stage i) ≡ s.cells (p + value_at) + added st
      → Fits p (cells (p + value_at)) (b.threads i) st
      → ((j : ℕ) → j < n → i ≢ j → Fits p (cells (p + value_at)) (b.threads j) (s.stage j))
      → Inv n p
          (record { barrier = b; root = s.root; cells = cells; stage = place_at i st s.stage })
  moved b cells st ph lock small count mine others = record {
    phased = ph;
    rooted = inv.rooted;
    locked = omega (arith, inv.locked, sum-place_at holds n i st s.stage i_in);
    one = omega (arith, inv.locked, sum-place_at holds n i st s.stage i_in);
    counted = omega (arith, inv.counted, sum-place_at added n i st s.stage i_in);
    fits = λ j j_in. elim (ℕ_discrete i j) [
      | yes e ↦
          subst (λ m. Fits p (cells (p + value_at)) (b.threads m) (place_at i st s.stage m)) e
            (subst (Fits p (cells (p + value_at)) (b.threads i)) (sym (place_at_self i st s.stage))
              mine)
      | no ne ↦
          subst (Fits p (cells (p + value_at)) (b.threads j)) (sym (place_at_ne i j st s.stage ne))
            (others j j_in ne)
    ];
  }

  -- The others fit while the value is the same.
  pub same_value :
      (cells : ℕ → ℕ)
      → cells (p + value_at) ≡ s.cells (p + value_at)
      → (j : ℕ) → j < n
      → i ≢ j
      → Fits p (cells (p + value_at)) (s.barrier.threads j) (s.stage j)
  same_value cells e j j_in ne =
      subst (λ v. Fits p v (s.barrier.threads j) (s.stage j)) (sym e) (inv.fits j j_in)

  -- The holder of the lock is alone, so the others do not look at the value.
  pub alone :
      (value : ℕ)
      → holds (s.stage i) ≡ 1
      → (j : ℕ) → j < n
      → i ≢ j
      → Fits p value (s.barrier.threads j) (s.stage j)
  alone value mine j j_in ne =
      Fits-value p (s.cells (p + value_at)) value (s.barrier.threads j) (s.stage j)
        (omega (arith, inv.one, two_le_sum holds n i j s.stage i_in j_in ne)) (inv.fits j j_in)
