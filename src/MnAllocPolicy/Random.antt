-- ===== src/MnAllocPolicy/Random.antt =====
-- RAND: two numbers are drawn for each call, so the lowest bit of the second is that of the seed.
use remus_tutorial.Prelude.{ℕ, zero, suc, ◌%◌, ◌≡◌, arith, refl, ap, ◌∙◌}
use remus_tutorial.Rand
use remus_tutorial.Rand.{Rand}
use remus_tutorial.Rand.Parity.{mod-even, rand_flips}
use remus_tutorial.MnAllocPolicy.{MnAllocPolicy, Policy, get_mn_seg, advance}
use remus_tutorial.MnAllocPolicy.RoundRobin.{after}

-- What the calls under RAND keep: the lowest bit of the seed and the number of segments.
record KeepsBit (p p' : MnAllocPolicy) : Type 0 where
  policy : p'.policy_ ≡ Policy.rand
  bit : p'.prng_.seed % 2 ≡ p.prng_.seed % 2
  segs : p'.num_segs_ ≡ p.num_segs_

draw_twice :
    (g : Rand)
    → let g' = (Rand.rand g).1 in
      ((Rand.rand g').0 % 2 ≡ g.seed % 2) × ((Rand.rand g').1.seed % 2 ≡ g.seed % 2)
draw_twice g = omega (arith, rand_flips g, rand_flips (Rand.rand g).1)

call-KeepsBit : (p : MnAllocPolicy) → p.policy_ ≡ Policy.rand → KeepsBit p (get_mn_seg p).1
unfolding get_mn_seg
call-KeepsBit p e =
    rw (e, advance) (record { policy = refl; bit = (draw_twice p.prng_).1; segs = refl })

seg_bit :
    (p : MnAllocPolicy)
    → p.policy_ ≡ Policy.rand
    → p.num_segs_ % 2 ≡ 0
    → (get_mn_seg p).0.1 % 2 ≡ p.prng_.seed % 2
unfolding get_mn_seg
seg_bit p e even =
    rw (e, advance)
      (mod-even (Rand.rand (Rand.rand p.prng_).1).0 p.num_segs_ even ∙ (draw_twice p.prng_).0)

after-KeepsBit : (k : ℕ) (p : MnAllocPolicy) → p.policy_ ≡ Policy.rand → KeepsBit p (after k p)
unfolding after
after-KeepsBit zero p e = record { policy = e; bit = refl; segs = refl }
after-KeepsBit (suc k) p e =
    let before = after-KeepsBit k p e in
    let call = call-KeepsBit (after k p) before.policy in
    record { policy = call.policy; bit = call.bit ∙ before.bit; segs = call.segs ∙ before.segs }

-- Under RAND with an even number of segments, every call returns a segment of the parity of the
-- first seed: the other half of the segments is never used.
pub random_parity :
    (p : MnAllocPolicy) (k : ℕ)
    → p.policy_ ≡ Policy.rand
    → p.num_segs_ % 2 ≡ 0
    → (get_mn_seg (after k p)).0.1 % 2 ≡ p.prng_.seed % 2
random_parity p k e even =
    let kept = after-KeepsBit k p e in
    seg_bit (after k p) kept.policy (ap (λ n. n % 2) kept.segs ∙ even) ∙ kept.bit
