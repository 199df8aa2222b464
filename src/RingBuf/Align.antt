-- ===== src/RingBuf/Align.antt =====
-- `nextalign` at a power of two: the least multiple of it that is not below the address.
use Prim.Native.Nat.{bit_and}
use native.Mathlib.Nat.{
  mod-eq_of_lt, pow-suc, mul_assoc, div-add-mod', mul-one, div-lt_iff_lt-mul, mul-mod_left, mod-lt,
  mul-le-mul_right, suc-mul, le_trans, le_of_suc-le-suc,
}
use remus_tutorial.Prelude.{
  ℕ, zero, suc, ◌+◌, ◌-◌, ◌*◌, ◌/◌, ◌%◌, ◌^◌, ◌≤◌, ◌<◌, ◌≡◌, ap, ◌∙◌, sym, arith, u64, not64, sub64,
}
use remus_tutorial.Prelude.Bits.{bit_and_field, pow_pos}
use remus_tutorial.RingBuf.{nextalign}

pub pow_split : (j k : ℕ) → 2 ^ j * 2 ^ k ≡ 2 ^ (j + k)
pow_split j zero = mul-one (2 ^ j) ∙ ap (λ t. 2 ^ t) (omega arith)
pow_split j (suc k) =
    ap (λ t. 2 ^ j * t) (pow-suc 2 k)
    ∙ sym (mul_assoc (2 ^ j) (2 ^ k) 2)
    ∙ ap (λ t. t * 2) (pow_split j k)
    ∙ sym (pow-suc 2 (j + k))
    ∙ ap (λ t. 2 ^ t) (omega arith)

pred-mul : (x p : ℕ) → (x - 1) * p ≡ x * p - p
pred-mul zero p = omega arith
pred-mul (suc x) p = omega (arith, suc-mul x p, ap (λ (t : ℕ). t * p) (x_of x))
  where
    x_of : (y : ℕ) → suc y - 1 ≡ y
    x_of y = omega arith

rounds_up : (p a : ℕ) → 0 < p → a ≤ (a + (p - 1)) / p * p
rounds_up p a h = omega (arith, div-add-mod' (a + (p - 1)) p, mod-lt (a + (p - 1)) h)

rounds_least : (p a : ℕ) → 0 < p → (b : ℕ) → a ≤ b → b % p ≡ 0 → (a + (p - 1)) / p * p ≤ b
rounds_least p a h b le div =
    le_trans
      (mul-le-mul_right p (le_of_suc-le-suc ((div-lt_iff_lt-mul {y = suc (b / p)} h).1 below)))
      (omega (arith, div-add-mod' b p))
  where
    below : a + (p - 1) < suc (b / p) * p
    below = omega (arith, suc-mul (b / p) p, div-add-mod' b p)

-- `2^k - 1` on uint64_t.
pub mask_word : (k : ℕ) → 2 ^ k ≤ 2 ^ 64 → sub64 (2 ^ k) 1 ≡ 2 ^ k - 1
mask_word k h = omega (arith, pow_pos k)

-- `~(2^k - 1)` is a mask of the bits from `k` on.
pub not64_mask : (j k : ℕ) → j + k ≡ 64 → 2 ^ k ≤ 2 ^ 64 → not64 (2 ^ k - 1) ≡ (2 ^ j - 1) * 2 ^ k
not64_mask j k h small =
    omega (arith, pow_pos k, pow_split j k, ap (λ t. 2 ^ t) h, pred-mul (2 ^ j) (2 ^ k))

-- The quotient keeps below the top of the word.
pub quotient_small : (j k x : ℕ) → j + k ≡ 64 → x < 2 ^ 64 → x / 2 ^ k < 2 ^ j
quotient_small j k x h small =
    (div-lt_iff_lt-mul (pow_pos k)).1 (omega (arith, pow_split j k, ap (λ t. 2 ^ t) h))

nextalign_field :
    (j k a : ℕ)
    → j + k ≡ 64
    → a + 2 ^ k ≤ 2 ^ 64
    → nextalign a (2 ^ k) ≡ (a + (2 ^ k - 1)) / 2 ^ k * 2 ^ k
unfolding nextalign
nextalign_field j k a h room =
    ap (λ m. bit_and (u64 (a + m)) (not64 m)) (mask_word k (omega arith))
    ∙ ap (bit_and (u64 (a + (2 ^ k - 1)))) (not64_mask j k h (omega arith))
    ∙ ap (λ t. bit_and t ((2 ^ j - 1) * 2 ^ k)) (mod-eq_of_lt (omega (arith, pow_pos k)))
    ∙ bit_and_field k j (a + (2 ^ k - 1))
    ∙ ap (λ t. t * 2 ^ k)
        (mod-eq_of_lt (quotient_small j k (a + (2 ^ k - 1)) h (omega (arith, pow_pos k))))

pub nextalign_lt : (j k a : ℕ) → j + k ≡ 64 → a + 2 ^ k ≤ 2 ^ 64 → nextalign a (2 ^ k) < a + 2 ^ k
nextalign_lt j k a h room =
    omega (arith, nextalign_field j k a h room, div-add-mod' (a + (2 ^ k - 1)) (2 ^ k), pow_pos k)

-- For an alignment `2^k` with `k` at most 64, and an address that is further than that from the end
-- of the address space, `nextalign` gives the least multiple of the alignment from the address on.
pub nextalign_least :
    (j k a : ℕ)
    → j + k ≡ 64
    → a + 2 ^ k ≤ 2 ^ 64
    → (nextalign a (2 ^ k) % 2 ^ k ≡ 0)
      × (a ≤ nextalign a (2 ^ k))
      × ((b : ℕ) → a ≤ b → b % 2 ^ k ≡ 0 → nextalign a (2 ^ k) ≤ b)
nextalign_least j k a h room = rw (nextalign_field j k a h room) (
  mul-mod_left ((a + (2 ^ k - 1)) / 2 ^ k) (2 ^ k),
  rounds_up (2 ^ k) a (pow_pos k),
  rounds_least (2 ^ k) a (pow_pos k),
)
