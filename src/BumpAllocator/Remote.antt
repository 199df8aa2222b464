-- ===== src/BumpAllocator/Remote.antt =====
-- What `try_allocate_global` is given: where a segment begins, the hint for a segment, and the two
-- RDMA operations on the words of remote memory, with what RDMA promises of them.
use remus_tutorial.Prelude.{ℕ, ◌+◌, ◌≡◌, ◌≢◌, u64}

pub record Remote : Type 1 where
  pub World : Type 0
  pub read : ℕ → World → ℕ
  pub seg_locator : ℕ → ℕ → ℕ
  pub hint : ℕ → ℕ → World → ℕ
  -- A compare-exchange that succeeds.
  pub set_hint : ℕ → ℕ → ℕ → World → World
  -- The word before, and the world after.
  pub faa : ℕ → ℕ → World → ℕ × World
  pub writer : ℕ → ℕ → World → World
  pub faa_was : (p v : ℕ) (w : World) → (faa p v w).0 ≡ read p w
  pub faa_self : (p v : ℕ) (w : World) → read p (faa p v w).1 ≡ u64 (read p w + v)
  pub faa_other : (p q v : ℕ) (w : World) → p ≢ q → read q (faa p v w).1 ≡ read q w
  pub faa_hint : (p v mn seg : ℕ) (w : World) → hint mn seg (faa p v w).1 ≡ hint mn seg w
  pub writer_self : (p v : ℕ) (w : World) → read p (writer p v w) ≡ u64 v
  pub writer_other : (p q v : ℕ) (w : World) → p ≢ q → read q (writer p v w) ≡ read q w
  pub writer_hint : (p v mn seg : ℕ) (w : World) → hint mn seg (writer p v w) ≡ hint mn seg w
  pub set_hint_self : (mn seg v : ℕ) (w : World) → hint mn seg (set_hint mn seg v w) ≡ v
  pub set_hint_read : (mn seg v p : ℕ) (w : World) → read p (set_hint mn seg v w) ≡ read p w
