-- ===== src/ComputeNode/Keys.antt =====
-- The key of a segment is found from every address in the segment.
use Prim.Native.Nat.{bit_and, bit_or}
use native.Mathlib.Nat.{
  mul-add-mod_self_right, mod-eq_of_lt, div-add-mod', mul_assoc, add-mul, suc-mul, mul-le-mul_right,
}
use remus_tutorial.Prelude.{
  ℕ, ◌+◌, ◌-◌, ◌*◌, ◌/◌, ◌%◌, ◌^◌, ◌≤◌, ◌<◌, ◌≡◌, ◌∙◌, refl, ap, sym, arith, true, ◌==◌, ==_iff,
  not64, Option, none, some, done, ◌>>=◌, lookup, lookup-insert, dec_lt,
}
use remus_tutorial.Prelude.Bits.{bit_and_field, bit_and_mask, bit_or_field}
use remus_tutorial.RingBuf.Align.{pow_split, not64_mask, quotient_small}
use remus_tutorial.ComputeNode.{
  ComputeNode, save_region, get_rkey, region_key, node_mask, add_region,
}

-- What is saved for a key that may be there already.
abbrev pub first_of : Option ℕ → ℕ → ℕ
first_of none rkey = rkey
first_of (some old) rkey = old

-- The low bits of an address in a segment are its offset.
masked :
    (j k m offset : ℕ)
    → j + k ≡ 64
    → 2 ^ k ≤ 2 ^ 64
    → offset < 2 ^ k
    → m * 2 ^ k + offset < 2 ^ 64
    → bit_and (m * 2 ^ k + offset) (not64 (2 ^ k - 1)) ≡ m * 2 ^ k
masked j k m offset width fits h small =
    ap (bit_and (m * 2 ^ k + offset)) (not64_mask j k width fits)
    ∙ bit_and_field k j (m * 2 ^ k + offset)
    ∙ ap (λ t. t * 2 ^ k) (mod-eq_of_lt (quotient_small j k (m * 2 ^ k + offset) width small))
    ∙ omega (
      arith,
      div-add-mod' (m * 2 ^ k + offset) (2 ^ k),
      mul-add-mod_self_right m (2 ^ k) offset,
      mod-eq_of_lt h,
    )

-- The multiples of a segment's size below the end of the address space have room for the segment.
last_multiple : (j k m : ℕ) → j + k ≡ 64 → m * 2 ^ k < 2 ^ 64 → m * 2 ^ k + 2 ^ k ≤ 2 ^ 64
last_multiple j k m width below =
    let whole : 2 ^ j * 2 ^ k ≡ 2 ^ 64 = pow_split j k ∙ ap (λ t. 2 ^ t) width in
    elim (dec_lt m (2 ^ j)) [
      | yes less ↦ omega (arith, whole, suc-mul m (2 ^ k), mul-le-mul_right (2 ^ k) less)
      | no more ↦ absurd (omega (arith, whole, mul-le-mul_right (2 ^ k) (not_lt more)))
    ]
  where
    not_lt : ¬ (m < 2 ^ j) → 2 ^ j ≤ m
    not_lt h = omega arith

module _ (k node_id region : ℕ) (k_le : k ≤ 48) (node_in : node_id < 2 ^ 16)
    (region_in : region < 2 ^ 48) (aligned : region % 2 ^ k ≡ 0) where
  key_sum : region_key node_id region ≡ node_id * 2 ^ 48 + region
  key_sum =
      ap (λ id. bit_or (id * 2 ^ 48) region) (mod-eq_of_lt node_in)
      ∙ bit_or_field 48 node_id region region_in

  split : 2 ^ (48 - k) * 2 ^ k ≡ 2 ^ 48
  split = pow_split (48 - k) k ∙ ap (λ t. 2 ^ t) {y = 48} (omega arith)

  key_field : node_id * 2 ^ 48 + region ≡ (node_id * 2 ^ (48 - k) + region / 2 ^ k) * 2 ^ k
  key_field = omega (
    arith,
    add-mul (node_id * 2 ^ (48 - k)) (region / 2 ^ k) (2 ^ k),
    mul_assoc node_id (2 ^ (48 - k)) (2 ^ k),
    ap (λ t. node_id * t) split,
    div-add-mod' region (2 ^ k),
  )

  top_bits : (bit_and region node_mask == 0) ≡ true
  top_bits = (==_iff (bit_and region node_mask) 0).1 (bit_and_field 48 16 region ∙ omega arith)

  low_bits : (bit_and region (2 ^ k - 1) == 0) ≡ true
  low_bits = (==_iff (bit_and region (2 ^ k - 1)) 0).1 (bit_and_mask k region ∙ aligned)

  -- The key that `get_rkey` looks up.
  found_key :
      (offset : ℕ)
      → offset < 2 ^ k
      → bit_and (node_id * 2 ^ 48 + region + offset) (not64 (2 ^ k - 1)) ≡ region_key node_id region
  found_key offset h =
      let m : ℕ = node_id * 2 ^ (48 - k) + region / 2 ^ k in
      let end : m * 2 ^ k + 2 ^ k ≤ 2 ^ 64 =
        last_multiple (64 - k) k m (omega arith) (omega (arith, key_field)) in
      ap (λ t. bit_and (t + offset) (not64 (2 ^ k - 1))) key_field
      ∙ masked (64 - k) k m offset (omega arith) (omega arith) h (omega arith)
      ∙ sym key_field
      ∙ sym key_sum

  saved :
      (rkey : ℕ) (c : ComputeNode) (o : Option ℕ)
      → lookup (region_key node_id region) c.segment_rkeys_ ≡ o
      → (raw : ℕ) → bit_and raw (not64 c.seg_mask_) ≡ region_key node_id region
      → (elim o [
        | none ↦ done (add_region node_id (region_key node_id region) rkey c)
        | some old ↦ done c
      ]
          >>= get_rkey raw)
        ≡ done (first_of o rkey)
  unfolding get_rkey
  saved rkey c none e raw masked =
      rw
        (
          masked,
          lookup-insert (region_key node_id region) (region_key node_id region) rkey
              c.segment_rkeys_,
          (==_iff (region_key node_id region) (region_key node_id region)).1 refl,
        )
        refl
  saved rkey c (some old) e raw masked = rw (masked, e) refl

  -- On a node whose mask is that of segments of at most 2^48 bytes, a region of a memory node with
  -- an id of 16 bits is accepted if its address fits 48 bits and is aligned to the size of a segment.
  -- After that every address in the region gives its remote key, the one that was saved first.
  pub get_rkey-save_region :
      (rkey offset : ℕ) (c : ComputeNode)
      → c.seg_mask_ ≡ 2 ^ k - 1
      → offset < 2 ^ k
      → (save_region node_id region rkey c >>= get_rkey (node_id * 2 ^ 48 + region + offset))
        ≡ done (first_of (lookup (region_key node_id region) c.segment_rkeys_) rkey)
  unfolding save_region
  get_rkey-save_region rkey offset c mask h =
      rw (top_bits, ap (λ m. bit_and region m == 0) mask ∙ low_bits)
        (saved rkey c (lookup (region_key node_id region) c.segment_rkeys_) refl _ (
          ap (λ m. bit_and (node_id * 2 ^ 48 + region + offset) (not64 m)) mask
          ∙ found_key offset h))
