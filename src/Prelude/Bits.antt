-- ===== src/Prelude/Bits.antt =====
-- Masks and shifts: `x & (2^k - 1)` is a remainder, and `(q << k) | r` a sum where `r` fits k bits.
use Prim.Native.Nat.{ℕ, zero, suc, ◌+◌, ◌-◌, ◌*◌, ◌/◌, ◌%◌, ◌^◌, ◌≤◌, ◌<◌, min, max}
use Prim.Native.Nat.{digits, bit_and, bit_or, bit_and-bitwise, bit_or-bitwise}
use mathlib.Core.Path.{◌≡◌, refl, ap, sym, ◌∙◌}
use native.Mathlib.Nat.{pow-suc, one-le-pow, mod-lt, mod-eq_of_lt, mul-add-mod_self_left}
use native.Mathlib.Nat.{div-add-mod, mul-one, div-one, mul_assoc, mul_comm, div-div-eq-div-mul}
use native.Mathlib.Omega.{arith}

-- The recursion on digits does not depend on its fuel once this covers the first number.
module _ (rest : ℕ → ℕ) (op : ℕ → ℕ → ℕ) where
  abbrev walk : ℕ → ℕ → ℕ → ℕ
  walk fuel a b = digits rest op fuel a b

  walk_enough : (a b f g : ℕ) → a ≤ f → a ≤ g → walk f a b ≡ walk g a b
  walk_enough zero b zero zero p q = refl
  walk_enough zero b zero (suc g) p q = refl
  walk_enough zero b (suc f) zero p q = refl
  walk_enough zero b (suc f) (suc g) p q = refl
  walk_enough (suc a) b (suc f) (suc g) p q =
      ap (λ t. t * 2 + op (suc a % 2) (b % 2))
        (walk_enough (suc a / 2) (b / 2) f g (omega arith) (omega arith))
  walk_enough (suc a) b f g p q = absurd (omega arith)

bit_and_low : (a b : ℕ) → bit_and a b ≡ bit_and (a / 2) (b / 2) * 2 + min (a % 2) (b % 2)
bit_and_low zero b = omega (arith, bit_and-bitwise 0 b, bit_and-bitwise 0 (b / 2))
bit_and_low (suc a) b = omega (
  arith,
  bit_and-bitwise (suc a) b,
  bit_and-bitwise (suc a / 2) (b / 2),
  walk_enough (λ y. 0) min (suc a / 2) (b / 2) a (suc a / 2) (omega arith) (omega arith),
)

bit_or_low : (a b : ℕ) → bit_or a b ≡ bit_or (a / 2) (b / 2) * 2 + max (a % 2) (b % 2)
bit_or_low zero b = omega (arith, bit_or-bitwise 0 b, bit_or-bitwise 0 (b / 2))
bit_or_low (suc a) b = omega (
  arith,
  bit_or-bitwise (suc a) b,
  bit_or-bitwise (suc a / 2) (b / 2),
  walk_enough (λ y. y) max (suc a / 2) (b / 2) a (suc a / 2) (omega arith) (omega arith),
)

bit_and-zero_below : (n a : ℕ) → a ≤ n → bit_and a 0 ≡ 0
bit_and-zero_below n zero h = refl
bit_and-zero_below zero (suc a) h = absurd (omega arith)
bit_and-zero_below (suc n) (suc a) h =
    omega (arith, bit_and_low (suc a) 0, bit_and-zero_below n (suc a / 2) (omega arith))

bit_or-zero_below : (n a : ℕ) → a ≤ n → bit_or a 0 ≡ a
bit_or-zero_below n zero h = refl
bit_or-zero_below zero (suc a) h = absurd (omega arith)
bit_or-zero_below (suc n) (suc a) h =
    omega (arith, bit_or_low (suc a) 0, bit_or-zero_below n (suc a / 2) (omega arith))

-- The remainder by 2m is the lowest bit and the remainder by m of the half.
mod-double : (m a : ℕ) → 0 < m → a % (m * 2) ≡ a / 2 % m * 2 + a % 2
mod-double m a h =
    ap (λ t. t % (m * 2)) split
    ∙ mul-add-mod_self_left (m * 2) (a / 2 / m) (a / 2 % m * 2 + a % 2)
    ∙ mod-eq_of_lt (omega (arith, mod-lt (a / 2) h))
  where
    split : a ≡ m * 2 * (a / 2 / m) + (a / 2 % m * 2 + a % 2)
    split = omega (arith, div-add-mod (a / 2) m)

pub pow_pos : (k : ℕ) → 0 < 2 ^ k
pow_pos k = one-le-pow k 2 (omega arith)

mask_half : (k : ℕ) → (2 ^ suc k - 1) / 2 ≡ 2 ^ k - 1
mask_half k = omega (arith, pow-suc 2 k, pow_pos k)

-- `a & (2^k - 1)` keeps the low `k` bits.
pub bit_and_mask : (k a : ℕ) → bit_and a (2 ^ k - 1) ≡ a % 2 ^ k
bit_and_mask zero a = omega (arith, bit_and-zero_below a a (omega arith))
bit_and_mask (suc k) a = omega (
  arith,
  pow-suc 2 k,
  pow_pos k,
  bit_and_low a (2 ^ suc k - 1),
  ap (bit_and (a / 2)) (mask_half k),
  bit_and_mask k (a / 2),
  ap (λ t. a % t) (pow-suc 2 k),
  mod-double (2 ^ k) a (pow_pos k),
)

-- `a & ((2^w - 1) << k)` keeps `w` bits above the low `k`.
pub bit_and_field : (k w a : ℕ) → bit_and a ((2 ^ w - 1) * 2 ^ k) ≡ a / 2 ^ k % 2 ^ w * 2 ^ k
bit_and_field zero w a = rw (mul-one (2 ^ w - 1), div-one, mul-one (a % 2 ^ w)) (bit_and_mask w a)
bit_and_field (suc k) w a = rw (pow-suc) (
    omega (
      arith,
      bit_and_low a ((2 ^ w - 1) * (2 ^ k * 2)),
      ap (bit_and (a / 2)) half,
      bit_and_field k w (a / 2),
      ap (λ t. t % 2 ^ w * 2 ^ k * 2) quot,
      mul_assoc (a / 2 / 2 ^ k % 2 ^ w) (2 ^ k) 2,
      even,
    ))
  where
    half : (2 ^ w - 1) * (2 ^ k * 2) / 2 ≡ (2 ^ w - 1) * 2 ^ k
    half = rw (← mul_assoc) (omega arith)

    even : (2 ^ w - 1) * (2 ^ k * 2) % 2 ≡ 0
    even = rw (← mul_assoc) (omega arith)

    quot : a / (2 ^ k * 2) ≡ a / 2 / 2 ^ k
    quot = rw (mul_comm (2 ^ k) 2) (sym (div-div-eq-div-mul a 2 (2 ^ k)))

-- `(q << k) | r` where `r` fits `k` bits.
pub bit_or_field : (k q r : ℕ) → r < 2 ^ k → bit_or (q * 2 ^ k) r ≡ q * 2 ^ k + r
bit_or_field zero q zero h = rw (mul-one) (omega (arith, bit_or-zero_below q q (omega arith)))
bit_or_field zero q (suc r) h = absurd (omega arith)
bit_or_field (suc k) q r h = rw (pow-suc) (
    omega (
      arith,
      bit_or_low (q * (2 ^ k * 2)) r,
      ap (λ t. bit_or t (r / 2)) half,
      bit_or_field k q (r / 2) (omega (arith, pow-suc 2 k)),
      mul_assoc q (2 ^ k) 2,
      even,
    ))
  where
    half : q * (2 ^ k * 2) / 2 ≡ q * 2 ^ k
    half = rw (← mul_assoc) (omega arith)

    even : q * (2 ^ k * 2) % 2 ≡ 0
    even = rw (← mul_assoc) (omega arith)
