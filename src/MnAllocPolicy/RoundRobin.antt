-- ===== src/MnAllocPolicy/RoundRobin.antt =====
-- GLOBAL_RR goes through all segments of all nodes in turn.
use native.Mathlib.Nat.{mod-lt, mod-add-mod}
use remus_tutorial.Prelude.{
  ℕ, zero, suc, ◌+◌, ◌-◌, ◌*◌, ◌%◌, ◌<◌, ◌≡◌, arith, refl, ap, ◌∙◌, sym, ap₂, wrap,
}
use remus_tutorial.MnAllocPolicy.{MnAllocPolicy, Policy, get_mn_seg, advance}
use remus_tutorial.MnAllocPolicy.Range.{IsValid, Keeps, get_mn_seg-Keeps}
use remus_tutorial.MnAllocPolicy.Rows.{next_row, row_step, turns, turns_reach, same_cell}

-- The segments of all nodes in one row.
abbrev pub row : MnAllocPolicy → ℕ
row p = p.last_mn_ * p.num_segs_ + p.last_seg_

-- The policy after `k` calls.
unfoldable pub after : ℕ → MnAllocPolicy → MnAllocPolicy
after zero p = p
after (suc k) p = (get_mn_seg (after k p)).1

module _ {p : MnAllocPolicy} (v : IsValid p) (rr : p.policy_ ≡ Policy.global_rr) where
  row-get_mn_seg :
      (row (get_mn_seg p).1 ≡ (row p + 1) % p.total_segs_)
      × ((get_mn_seg p).1.policy_ ≡ Policy.global_rr)
  unfolding get_mn_seg
  row-get_mn_seg =
      rw (rr, advance, v.total)
        (row_step p.last_mn_ p.last_seg_ p.num_segs_ p.num_mns_ v.mn_in v.seg_in v.small, refl)

-- What the calls keep.
record Turns (p p' : MnAllocPolicy) : Type 0 where
  keeps : Keeps p p'
  policy : p'.policy_ ≡ Policy.global_rr

row_lt : {p : MnAllocPolicy} → IsValid p → row p < p.total_segs_
row_lt {p} v = omega (
  arith,
  v.total,
  next_row p.last_mn_ p.last_seg_ p.num_segs_ p.num_mns_ v.mn_in v.seg_in v.small,
)

same_total : {p p' : MnAllocPolicy} → IsValid p → Keeps p p' → p'.total_segs_ ≡ p.total_segs_
same_total v k = k.valid.total ∙ ap₂ ◌*◌ k.same_segs k.same_mns ∙ sym v.total

module _ {p : MnAllocPolicy} (v : IsValid p) (rr : p.policy_ ≡ Policy.global_rr) where
  after-Turns : (k : ℕ) → Turns p (after k p) × (row (after k p) ≡ (row p + k) % p.total_segs_)
  unfolding after
  after-Turns zero = (
    record { keeps = record { valid = v; same_segs = refl; same_mns = refl }; policy = rr },
    omega (arith, row_lt v, wrap p.total_segs_ (row p + 0) (omega (arith, row_lt v))),
  )
  after-Turns (suc k) =
      let (t, at) = after-Turns k in
      let valid = t.keeps.valid in
      let next = (get_mn_seg-Keeps valid).2 in
      let (moved, still) = row-get_mn_seg valid t.policy in
      (
        record {
          keeps = record {
            valid = next.valid;
            same_segs = next.same_segs ∙ t.keeps.same_segs;
            same_mns = next.same_mns ∙ t.keeps.same_mns;
          };
          policy = still;
        },
        (moved
            ∙ ap₂ (λ a b. (a + 1) % b) at (same_total v t.keeps)
            ∙ mod-add-mod (row p + k) p.total_segs_ 1
            ∙ ap (λ a. a % p.total_segs_) (omega arith)),
      )

  -- On a valid policy the calls under GLOBAL_RR go through the segments in a row: the `k`-th call returns the node and
  -- the segment that stand `k` places after the first ones, modulo the number of all segments.
  round_robin :
      (k : ℕ)
      → let (mn, seg) = (get_mn_seg (after k p)).0 in
        (mn * p.num_segs_ + seg ≡ (row p + suc k) % p.total_segs_)
        × (mn < p.num_mns_)
        × (seg < p.num_segs_)
  unfolding get_mn_seg after
  round_robin k =
      let (t, at) = after-Turns (suc k) in
      (
        ap (λ (n : ℕ). (after (suc k) p).last_mn_ * n + (after (suc k) p).last_seg_)
              (sym t.keeps.same_segs)
            ∙ at,
        omega (arith, t.keeps.valid.mn_in, t.keeps.same_mns),
        omega (arith, t.keeps.valid.seg_in, t.keeps.same_segs),
      )

  -- Under GLOBAL_RR, with a valid policy, within as many calls as there are segments every segment of every node is returned.
  pub round_robin_covers :
      (mn seg : ℕ)
      → mn < p.num_mns_
      → seg < p.num_segs_
      → (k : ℕ) × (k < p.total_segs_) × ((get_mn_seg (after k p)).0 ≡ (mn, seg))
  round_robin_covers mn seg mn_in seg_in =
      let target : ℕ = mn * p.num_segs_ + seg in
      let total : ℕ = p.total_segs_ in
      let below : target < total =
        omega (arith, v.total, next_row mn seg p.num_segs_ p.num_mns_ mn_in seg_in v.small) in
      let k : ℕ = turns total (row p + 1) target in
      let (place, got_mn, got_seg) = round_robin k in
      (
        k,
        mod-lt (target + total - (row p + 1) % total) (omega arith),
        same_cell p.num_segs_ got_seg seg_in (
            place ∙ ap (λ x. x % total) (omega arith) ∙ turns_reach total (row p + 1) target below),
      )
