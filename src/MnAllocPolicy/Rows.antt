-- ===== src/MnAllocPolicy/Rows.antt =====
-- The arithmetic of the row of all segments: the next place, and the node and segment of a place.
use native.Mathlib.Nat.{
  mod-lt, mod-eq_of_lt, mod_self, mod-add-mod, mul-add-mod_self_right, eq_of_mul-eq-mul_right,
  mul-le-mul_left, mul-le-mul_right, mul-suc, mul_comm, one-mul, zero-lt-suc, le_trans,
}
use remus_tutorial.Prelude.{
  ℕ, suc, ◌+◌, ◌-◌, ◌*◌, ◌%◌, ◌^◌, ◌≤◌, ◌<◌, ◌≡◌, arith, u32, ap, ◌∙◌, sym, wrap, dec_lt, ◌==◌,
  if◌then◌else◌,
}

module _ (mn seg ns nm : ℕ) (mn_in : mn < nm) (seg_in : seg < ns) (small : ns * nm < 2 ^ 32) where
  -- The product that bounds a row, at the next node.
  pub next_row : mn * ns + ns ≤ ns * nm
  next_row = omega (arith, mul-le-mul_left ns mn_in, mul-suc ns mn, mul_comm ns mn)

  fits : (ns < 2 ^ 32) × (nm < 2 ^ 32)
  fits =
      omega (arith, next_row, mul-le-mul_right nm (le_trans (zero-lt-suc seg) seg_in), one-mul nm)

  seg_stays : suc seg < ns → u32 (seg + 1) % ns ≡ seg + 1
  seg_stays h = ap (λ t. t % ns) small_sum ∙ mod-eq_of_lt (omega arith)
    where
      small_sum : u32 (seg + 1) ≡ seg + 1
      small_sum = omega (arith, fits)

  seg_wraps : suc seg ≡ ns → u32 (seg + 1) % ns ≡ 0
  seg_wraps h = ap (λ t. t % ns) small_sum ∙ mod_self ns
    where
      small_sum : u32 (seg + 1) ≡ ns
      small_sum = omega (arith, fits)

  mn_moves : suc mn < nm → u32 (mn + 1) % nm ≡ mn + 1
  mn_moves h = ap (λ t. t % nm) small_sum ∙ mod-eq_of_lt (omega arith)
    where
      small_sum : u32 (mn + 1) ≡ mn + 1
      small_sum = omega (arith, fits)

  mn_wraps : suc mn ≡ nm → u32 (mn + 1) % nm ≡ 0
  mn_wraps h = ap (λ t. t % nm) small_sum ∙ mod_self nm
    where
      small_sum : u32 (mn + 1) ≡ nm
      small_sum = omega (arith, fits)

  two_rows : suc seg ≡ ns → suc mn < nm → mn * ns + seg + 1 < ns * nm
  two_rows h more =
      omega (arith, mul-le-mul_left ns more, mul-suc ns (suc mn), mul-suc ns mn, mul_comm ns mn)

  whole : suc seg ≡ ns → suc mn ≡ nm → mn * ns + seg + 1 ≡ ns * nm
  whole h end = omega (arith, ap (λ (t : ℕ). ns * t) end, mul-suc ns mn, mul_comm ns mn)

  abbrev seg' : ℕ
  seg' = u32 (seg + 1) % ns

  pub row_step :
      (if seg' == 0 then u32 (mn + 1) % nm else mn) * ns + seg' ≡ (mn * ns + seg + 1) % (ns * nm)
  row_step = elim (dec_lt (suc seg) ns) [
    | yes inside ↦ rw (seg_stays inside) (
        ground
          (arith, mod-eq_of_lt {n = mn * ns + seg + 1} {m = ns * nm} (omega (arith, next_row))))
    | no last ↦ elim (dec_lt (suc mn) nm) [
      | yes more ↦
          rw (seg_wraps (omega arith), mn_moves more)
            (omega (
              arith,
              mod-eq_of_lt {n = mn * ns + seg + 1} {m = ns * nm} (two_rows (omega arith) more),
            ))
      | no end ↦
          rw (seg_wraps (omega arith), mn_wraps (omega arith))
            (omega (
              arith,
              ap (λ t. t % (ns * nm)) (whole (omega arith) (omega arith)),
              mod_self (ns * nm),
            ))
    ]
  ]

-- How far a place is behind `r`, going round.
abbrev pub turns : ℕ → ℕ → ℕ → ℕ
turns total r target = (target + total - r % total) % total

pub turns_reach :
    (total r target : ℕ) → target < total → (r + turns total r target) % total ≡ target
turns_reach total r target h =
    sym (mod-add-mod r total (turns total r target))
    ∙ omega (
      arith,
      mod-lt r {m = total},
      mod-lt (target + total - r % total) {m = total},
      wrap total (target + total - r % total),
      wrap total (r % total + turns total r target),
    )

-- A place in the row names one node and one segment.
pub same_cell :
    {mn seg mn' seg' : ℕ} (ns : ℕ)
    → seg < ns
    → seg' < ns
    → mn * ns + seg ≡ mn' * ns + seg'
    → ◌≡◌ {A = ℕ × ℕ} (mn, seg) (mn', seg')
same_cell {mn} {seg} {mn'} {seg'} ns h h' e =
    let same_seg : seg ≡ seg' =
      sym (mod-eq_of_lt h)
      ∙ sym (mul-add-mod_self_right mn ns seg)
      ∙ ap (λ x. x % ns) e
      ∙ mul-add-mod_self_right mn' ns seg'
      ∙ mod-eq_of_lt h' in
    let same_mn : mn ≡ mn' =
      eq_of_mul-eq-mul_right ns (omega arith) mn mn' (omega (arith, e, same_seg)) in
    λ i. (same_mn i, same_seg i)
