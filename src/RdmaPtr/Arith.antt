-- ===== src/RdmaPtr/Arith.antt =====
-- Pointer arithmetic: it moves the address modulo 2^48 and leaves the machine id alone.
use Prim.Native.Nat.{bit_and, bit_or}
use remus_tutorial.Prelude.{ℕ, ◌+◌, ◌*◌, ◌/◌, ◌%◌, ◌^◌, ◌≡◌, arith, ap, ◌∙◌, u64, sub64}
use remus_tutorial.RdmaPtr.{RdmaPtr, IsWord, id, address, of_raw, address_bitmask, id_bitmask}
use remus_tutorial.RdmaPtr.{add_assign, sub_assign}
use remus_tutorial.RdmaPtr.Fields.{low_bits, high_bits, join, id_lem, address_lem}

-- The word that `+=` and `-=` store: the old id bits beside the low bits of `x`.
rejoin :
    (w x : ℕ)
    → bit_or (bit_and w id_bitmask) (bit_and x address_bitmask)
      ≡ w / 2 ^ 48 % 2 ^ 16 * 2 ^ 48 + x % 2 ^ 48
rejoin w x =
    ap (λ t. bit_or t (bit_and x address_bitmask)) (high_bits w)
    ∙ ap (bit_or (w / 2 ^ 48 % 2 ^ 16 * 2 ^ 48)) (low_bits x)
    ∙ join (w / 2 ^ 48 % 2 ^ 16) (x % 2 ^ 48) (omega arith)

module _ (sizeof : ℕ) where
  raw-add_assign :
      (p : RdmaPtr) (s : ℕ)
      → (add_assign sizeof p s).raw_
        ≡ p.raw_ / 2 ^ 48 % 2 ^ 16 * 2 ^ 48 + u64 (p.raw_ + u64 (sizeof * s)) % 2 ^ 48
  unfolding add_assign
  raw-add_assign p s = rejoin p.raw_ (u64 (p.raw_ + u64 (sizeof * s)))

  raw-sub_assign :
      (p : RdmaPtr) (s : ℕ)
      → (sub_assign sizeof p s).raw_
        ≡ p.raw_ / 2 ^ 48 % 2 ^ 16 * 2 ^ 48 + sub64 p.raw_ (sizeof * s) % 2 ^ 48
  unfolding sub_assign
  raw-sub_assign p s = rejoin p.raw_ (sub64 p.raw_ (sizeof * s))

  -- `p += s` keeps a word a word and the id as it is, and adds `sizeof * s` to the address modulo
  -- 2^48.
  add_assign_lem :
      (p : RdmaPtr) (s : ℕ)
      → IsWord (add_assign sizeof p s)
        × (id (add_assign sizeof p s) ≡ id p)
        × (address (add_assign sizeof p s) ≡ (address p + sizeof * s) % 2 ^ 48)
  add_assign_lem p s = (
    omega (arith, raw-add_assign p s),
    omega (arith, raw-add_assign p s, id_lem p, id_lem (add_assign sizeof p s)),
    omega (arith, raw-add_assign p s, address_lem p, address_lem (add_assign sizeof p s)),
  )

  -- `p -= s` keeps a word a word and the id as it is, and the address that it leaves, moved up by
  -- `sizeof * s` modulo 2^48, is the old address.
  sub_assign_lem :
      (p : RdmaPtr) (s : ℕ)
      → IsWord (sub_assign sizeof p s)
        × (id (sub_assign sizeof p s) ≡ id p)
        × ((address (sub_assign sizeof p s) + sizeof * s) % 2 ^ 48 ≡ address p)
  sub_assign_lem p s = (
    omega (arith, raw-sub_assign p s),
    omega (arith, raw-sub_assign p s, id_lem p, id_lem (sub_assign sizeof p s)),
    omega (arith, raw-sub_assign p s, address_lem p, address_lem (sub_assign sizeof p s)),
  )

  -- For every element size and count, with all wrap-around: subtracting what was added, and adding
  -- what was subtracted, gives the pointer back.
  add_sub_cancel :
      (p : RdmaPtr) (s : ℕ)
      → IsWord p
      → (sub_assign sizeof (add_assign sizeof p s) s ≡ p)
        × (add_assign sizeof (sub_assign sizeof p s) s ≡ p)
  unfolding of_raw
  add_sub_cancel p s h = (
    ap of_raw (omega (arith, raw-add_assign p s, raw-sub_assign (add_assign sizeof p s) s)),
    ap of_raw (omega (arith, raw-sub_assign p s, raw-add_assign (sub_assign sizeof p s) s)),
  )
