-- ===== src/RingBuf/Alias.antt =====
-- A full ring: `ring_buf_start == ring_buf_end` while blocks are in use. `acquire` reads that state
-- as an empty ring.
use remus_tutorial.Prelude.{ℕ, ◌+◌, ◌≤◌, ◌≡◌, true, some, arith, lookup, ap}
use remus_tutorial.RingBuf.{RingBuf, limit, nextalign, keep_align, place, acquire}

-- Blocks are in use and the next free address is that of the oldest of them.
pub record IsFull (r : RingBuf) : Type 0 where
  pub next : ℕ
  pub meet : r.ring_buf_start ≡ r.ring_buf_end
  pub live :
      lookup r.ring_buf_start r.ring_buf_allocations
      ≡ some (record { next_available_addr = next; in_use = true })

keep_align_id :
    (align : ℕ) (r : RingBuf)
    → nextalign r.ring_buf_end align ≡ r.ring_buf_end
    → keep_align align r ≡ r
unfolding keep_align
keep_align_id align r h = ground arith

-- On a full ring a call returns the block at the start although that block is in use, if its
-- address is aligned as asked and the request fits between it and the limit.
pub acquire_full :
    (size align : ℕ) (r : RingBuf)
    → IsFull r
    → nextalign r.ring_buf_start align ≡ r.ring_buf_start
    → size + nextalign r.ring_buf align ≤ limit r
    → r.ring_buf_start + size ≤ limit r
    → (acquire size align r).0 ≡ some r.ring_buf_start
unfolding acquire place
acquire_full size align r f al fits room =
    ground (arith, f.meet, ap (λ a. nextalign a align) f.meet, keep_align_id align r)
