-- ===== src/Rand.antt =====
-- `rdtsc_rand_t` of rdma/include/remus/util.h. The first seed is what `__rdtsc()` returned.
pub mod Parity
use remus_tutorial.Prelude.{ℕ, ◌+◌, ◌*◌, u32, u64}

pub record Rand : Type 0 where
  pub seed : ℕ

unfoldable pub advance : ℕ → ℕ
advance seed = u64 (u64 (seed * 1103515245) + 12345)

-- The number, and the generator after the call.
unfoldable pub rand : Rand → ℕ × Rand
rand g = let seed' = advance g.seed in (u32 seed', record { seed = seed' })
