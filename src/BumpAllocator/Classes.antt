-- ===== src/BumpAllocator/Classes.antt =====
-- The classes of sizes.
use remus_tutorial.Prelude.{ℕ, ◌+◌, ◌*◌, ◌%◌, ◌^◌, ◌≤◌, ◌<◌, ◌≡◌, arith, u64}
use remus_tutorial.BumpAllocator.{calculate_slabclass, compute_size, header_size}

-- The class of a size that is 1024 away from the end of the words is not below the size, at most
-- 1023 bytes above it and a multiple of 64; the class of a class is itself, so a block goes back to
-- the list it came from.
slabclass_lem :
    (size : ℕ)
    → size + 1023 < 2 ^ 64
    → let class = calculate_slabclass size in
      (size ≤ class)
      × (class ≤ size + 1023)
      × (class % 64 ≡ 0)
      × (calculate_slabclass class ≡ class)
unfolding calculate_slabclass
slabclass_lem size h = ground arith

-- A block has room for its elements and the header, and at most 1023 bytes more, where these do not
-- overflow.
compute_size-room :
    (sizeof_t n : ℕ)
    → sizeof_t * n + header_size + 1023 < 2 ^ 64
    → (sizeof_t * n + header_size ≤ compute_size sizeof_t n)
      × (compute_size sizeof_t n ≤ sizeof_t * n + header_size + 1023)
unfolding compute_size
compute_size-room sizeof_t n h =
    rw fits
      (let class = slabclass_lem (sizeof_t * n + header_size) (omega arith) in (class.0, class.1))
  where
    fits : u64 (u64 (sizeof_t * n) + header_size) ≡ sizeof_t * n + header_size
    fits = omega arith

-- The size that is computed for a request is a class.
pub compute_size-class :
    (sizeof_t n : ℕ)
    → sizeof_t * n + header_size + 1023 < 2 ^ 64
    → calculate_slabclass (compute_size sizeof_t n) ≡ compute_size sizeof_t n
unfolding compute_size
compute_size-class sizeof_t n h =
    (slabclass_lem (u64 (u64 (sizeof_t * n) + header_size)) (omega arith)).3
