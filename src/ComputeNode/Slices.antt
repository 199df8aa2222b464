-- ===== src/ComputeNode/Slices.antt =====
-- The threads of a node get slices of its buffer one after the other.
use native.Mathlib.Nat.{pow-suc, mul-le-mul_right, mul-le-mul_left, suc-mul}
use remus_tutorial.Prelude.{
  ℕ, zero, suc, ◌+◌, ◌-◌, ◌*◌, ◌/◌, ◌^◌, ◌≤◌, ◌<◌, ◌≡◌, refl, ap, arith, true, false, ◌==◌, ==_iff,
  leb, u64, sub64, if_elim, Outcome, done, abort, ◌>>=◌,
}
use remus_tutorial.Prelude.Bits.{pow_pos}
use remus_tutorial.Config.{Config}
use remus_tutorial.ComputeNode.{ComputeNode, bit_width, capacity, construct, register_thread}

bit_width_lt : (fuel x : ℕ) → x < 2 ^ fuel → x < 2 ^ bit_width fuel x
unfolding bit_width
bit_width_lt zero x h = h
bit_width_lt (suc fuel) x h =
    if_elim (λ w. x < 2 ^ w) (x == 0) (λ none_set. omega (arith, (==_iff x 0).0 none_set))
      (λ some_set. omega (
        arith,
        pow-suc 2 (bit_width fuel (x / 2)),
        bit_width_lt fuel (x / 2) (omega (arith, pow-suc 2 fuel)),
      ))

-- The capacity of the buffer is enough for all threads.
capacity_enough : (n b : ℕ) → 0 < n * b → n * b < 2 ^ 64 → n * b ≤ capacity n b
capacity_enough n b pos small =
    omega (arith, bit_width_lt 64 (n * b - 1) (omega arith), ap (λ x. 2 ^ bit_width 64 x) exact)
  where
    exact : sub64 (u64 (n * b)) 1 ≡ n * b - 1
    exact = omega arith

-- The node after `k` threads have registered.
unfoldable pub registered : ℕ → ComputeNode → Outcome ComputeNode
registered zero c = done c
registered (suc k) c = registered k c >>= λ c'. register_thread c' >>= λ (given, c''). done c''

lt→not_leb : (n k : ℕ) → k < n → leb n k ≡ false
lt→not_leb n k h = ground arith

le→leb : (n k : ℕ) → n ≤ k → leb n k ≡ true
le→leb n k h = ground arith

module _ (c : ComputeNode) (small : c.num_threads_ < 2 ^ 64) where
  abbrev with_threads : ℕ → ComputeNode
  with_threads k = record c { threads_ = k }

  next_thread :
      (k : ℕ)
      → k < c.num_threads_
      → register_thread (with_threads k)
        ≡ done ((k, c.seg_ + k * c.thread_bufsz_), with_threads (k + 1))
  unfolding register_thread
  next_thread k h =
      rw (lt→not_leb c.num_threads_ k h)
        (ap (λ t. done ((k, c.seg_ + k * c.thread_bufsz_), with_threads t)) (omega arith))

  registered-done :
      (k : ℕ) → c.threads_ ≡ 0 → k ≤ c.num_threads_ → registered k c ≡ done (with_threads k)
  unfolding registered
  registered-done zero e h = λ i. done (with_threads (e i))
  registered-done (suc k) e h =
      rw (registered-done k e (omega arith), next_thread k (omega arith))
        (ap (λ t. done (with_threads t)) (omega arith))

module _ (args : Config) (seg : ℕ) where
  abbrev node : ComputeNode
  node = construct args seg

  -- On a new node the thread that registers after `k` others, where there are more threads than
  -- that and their bytes together fit a word, gets the id `k` and the bytes behind those of the `k`
  -- threads before, and its slice lies in the buffer.
  thread_slice :
      (k : ℕ)
      → k < args.cn_threads
      → args.cn_threads * 2 ^ args.cn_thread_bufsz < 2 ^ 64
      → (registered k node >>= register_thread
          ≡ done ((k, seg + k * 2 ^ args.cn_thread_bufsz), record node { threads_ = k + 1 }))
        × (k * 2 ^ args.cn_thread_bufsz + 2 ^ args.cn_thread_bufsz ≤ node.seg_capacity)
  unfolding construct
  thread_slice k h small =
      let size : ℕ = 2 ^ args.cn_thread_bufsz in
      let room : k * size + size ≤ args.cn_threads * size =
        omega (arith, suc-mul k size, mul-le-mul_right size h) in
      let few : args.cn_threads < 2 ^ 64 =
        omega (arith, mul-le-mul_left args.cn_threads (pow_pos args.cn_thread_bufsz)) in
      (
        rw (registered-done node few k refl (omega arith)) (next_thread node few k h),
        omega (
          arith,
          room,
          capacity_enough args.cn_threads size (omega (arith, room, pow_pos args.cn_thread_bufsz))
              small,
        ),
      )

  -- When as many threads have registered as the node supports, one more aborts.
  no_more_threads :
      args.cn_threads < 2 ^ 64 → registered args.cn_threads node >>= register_thread ≡ abort
  unfolding construct register_thread
  no_more_threads small =
      rw
        (
          registered-done node small args.cn_threads refl (omega arith),
          le→leb args.cn_threads args.cn_threads (omega arith),
        )
        refl
