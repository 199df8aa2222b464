-- ===== src/Rand/Parity.antt =====
-- The lowest bit of the generator: it flips at every call.
use native.Mathlib.Nat.{mod-mod_of_dvd, dvd_of_mod-eq-zero}
use remus_tutorial.Prelude.{ℕ, ◌+◌, ◌%◌, ◌≡◌, arith}
use remus_tutorial.Rand.{Rand, rand, advance}

-- A number modulo an even number keeps its lowest bit.
pub mod-even : (x n : ℕ) → n % 2 ≡ 0 → x % n % 2 ≡ x % 2
mod-even x n h = mod-mod_of_dvd 2 x (dvd_of_mod-eq-zero 2 h)

-- The lowest bit of a number and of the seed after it is the other one than before.
pub rand_flips :
    (g : Rand) → ((rand g).0 % 2 ≡ (g.seed + 1) % 2) × ((rand g).1.seed % 2 ≡ (g.seed + 1) % 2)
unfolding rand advance
rand_flips g = omega arith
