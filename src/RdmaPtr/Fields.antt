-- ===== src/RdmaPtr/Fields.antt =====
-- The two fields of a pointer, and the words that they make up.
use Prim.Native.Nat.{bit_and, bit_or}
use native.Mathlib.Nat.{mod-eq_of_lt}
use remus_tutorial.Prelude.{ℕ, ◌+◌, ◌*◌, ◌/◌, ◌%◌, ◌^◌, ◌<◌, ◌≡◌, arith, ap, ◌∙◌}
use remus_tutorial.Prelude.Bits.{bit_and_mask, bit_and_field, bit_or_field}
use remus_tutorial.RdmaPtr.{
  RdmaPtr, IsWord, id, address, of_raw, of_id_address, address_bitmask, id_bitmask,
}

-- The masks of the code as plain arithmetic.
pub low_bits : (x : ℕ) → bit_and x address_bitmask ≡ x % 2 ^ 48
low_bits x = bit_and_mask 48 x

pub high_bits : (x : ℕ) → bit_and x id_bitmask ≡ x / 2 ^ 48 % 2 ^ 16 * 2 ^ 48
high_bits x = bit_and_field 48 16 x

pub join : (q r : ℕ) → r < 2 ^ 48 → bit_or (q * 2 ^ 48) r ≡ q * 2 ^ 48 + r
join q r h = bit_or_field 48 q r h

pub address_lem : (p : RdmaPtr) → address p ≡ p.raw_ % 2 ^ 48
unfolding address
address_lem p = low_bits p.raw_

pub id_lem : (p : RdmaPtr) → id p ≡ p.raw_ / 2 ^ 48 % 2 ^ 16
unfolding id
id_lem p = omega (arith, high_bits p.raw_)

pub of_id_address_lem : (i a : ℕ) → i < 2 ^ 16 → (of_id_address i a).raw_ ≡ i * 2 ^ 48 + a % 2 ^ 48
unfolding of_id_address
of_id_address_lem i a h =
    ap (λ t. bit_or t (bit_and a address_bitmask)) (mod-eq_of_lt (omega arith))
    ∙ ap (bit_or (i * 2 ^ 48)) (low_bits a)
    ∙ join i (a % 2 ^ 48) (omega arith)

-- A pointer built from a 16-bit id and a 48-bit address fits a word, and gives both back.
fields-of_id_address :
    (i a : ℕ)
    → i < 2 ^ 16
    → a < 2 ^ 48
    → IsWord (of_id_address i a) × (id (of_id_address i a) ≡ i) × (address (of_id_address i a) ≡ a)
fields-of_id_address i a hi ha = (
  omega (arith, of_id_address_lem i a hi),
  omega (arith, of_id_address_lem i a hi, id_lem (of_id_address i a)),
  omega (arith, of_id_address_lem i a hi, address_lem (of_id_address i a)),
)

-- A pointer that fits a word is the one built from its own id and address.
of_id_address-fields : (p : RdmaPtr) → IsWord p → of_id_address (id p) (address p) ≡ p
unfolding of_raw
of_id_address-fields p h = ap of_raw (
    omega (
      arith,
      id_lem p,
      address_lem p,
      of_id_address_lem (id p) (address p) (omega (arith, id_lem p)),
    ))
