-- ===== src/RingBuf/Ordered.antt =====
-- `acquire` keeps the entries in the order that `release` relies on.
use remus_tutorial.Prelude.{
  ℕ, ◌+◌, ◌≤◌, ◌≡◌, true, false, arith, refl, ◌&&◌, leb, ltb, ◌==◌, if_elim, if◌then◌else◌, length,
  u64, ap, Option, lookup,
}
use remus_tutorial.Prelude.Bits.{pow_pos}
use remus_tutorial.RingBuf.{
  RingBuf, fresh, limit, nextalign, keep_align, place, place_wrapped, place_front, wrap_end,
  acquire, real_size,
}
use remus_tutorial.RingBuf.Bounds.{
  InBounds, IsRequest, aligned_up, real_end, same-IsRequest, keep_align_lem, keep_align_same,
  wrap_end_lem,
}
use remus_tutorial.RingBuf.Release.{IsOrdered, note-IsOrdered}

fresh-IsOrdered : (base size : ℕ) → IsOrdered (fresh base size)
unfolding fresh lookup
fresh-IsOrdered base size addr x e = ground (arith, e)

module _ (size align : ℕ) where
  keep_align-IsOrdered :
      (r : RingBuf)
      → InBounds r
      → IsRequest size align r
      → IsOrdered r
      → IsOrdered (keep_align align r)
  unfolding keep_align
  keep_align-IsOrdered r v l o =
      if_elim IsOrdered (nextalign r.ring_buf_end align == r.ring_buf_end) (λ same. o)
        (λ moved.
          note-IsOrdered r.ring_buf_end (nextalign r.ring_buf_end align) false
            (record r { ring_buf_end = nextalign r.ring_buf_end align }) o
            (λ back. v.end_high, λ on. (aligned_up l r.ring_buf_end v.end_high).1))

  -- The end of a block that fits does not wrap.
  block_end :
      (r : RingBuf)
      → IsRequest size align r
      → nextalign r.ring_buf_end align + size ≤ limit r
      → u64 ((keep_align align r).ring_buf_end + size) ≡ (keep_align align r).ring_buf_end + size
  block_end r l h = omega (arith, keep_align_lem align r, l.room, l.power, pow_pos l.bits)

  place-IsOrdered :
      (r : RingBuf)
      → InBounds r
      → IsRequest size align r
      → IsOrdered r
      → nextalign r.ring_buf_end align + size ≤ limit r
      → IsOrdered (place size align r).1
  unfolding place
  place-IsOrdered r v l o h =
      let r' = keep_align align r in
      let fits = block_end r l h in
      let (base, total, _) = keep_align_same align r in
      note-IsOrdered r'.ring_buf_end (u64 (r'.ring_buf_end + size)) true
        (record r' { ring_buf_end = u64 (r'.ring_buf_end + size) }) (keep_align-IsOrdered r v l o)
        (
          λ back. omega (arith, fits, base, total, keep_align_lem align r),
          λ on. omega (arith, fits),
        )

  place_wrapped-IsOrdered :
      (r : RingBuf)
      → InBounds r
      → IsRequest size align r
      → IsOrdered r
      → nextalign r.ring_buf_end align + size ≤ limit r
      → IsOrdered (place_wrapped size align r).1
  unfolding place_wrapped
  place_wrapped-IsOrdered r v l o h =
      let r' = keep_align align r in
      let end = u64 (r'.ring_buf_end + size) in
      let fits = block_end r l h in
      let (base, total, _) = keep_align_same align r in
      let low : r'.ring_buf_end ≤ limit r' = omega (arith, base, total, keep_align_lem align r) in
      note-IsOrdered r'.ring_buf_end (if end == limit r' then r'.ring_buf else end) true
        (record r' { ring_buf_end = end }) (keep_align-IsOrdered r v l o)
        (λ back. low, λ on. ground (arith, fits, on))

  wrap_end-IsOrdered : (r : RingBuf) → InBounds r → IsOrdered r → IsOrdered (wrap_end r)
  unfolding wrap_end
  wrap_end-IsOrdered r v o =
      if_elim IsOrdered (leb r.ring_buf_start r.ring_buf_end)
        (λ _.
          note-IsOrdered r.ring_buf_end r.ring_buf false (record r { ring_buf_end = r.ring_buf }) o
            (λ back. v.end_high, λ on. absurd (on refl)))
        (λ _. o)

  place_front-IsOrdered :
      (r : RingBuf)
      → InBounds r
      → IsRequest size align r
      → IsOrdered r
      → (r.ring_buf_start ≡ r.ring_buf_end → r.ring_buf_end ≡ r.ring_buf)
      → size + nextalign r.ring_buf align ≤ limit r
      → IsOrdered (place_front size align r).1
  unfolding place_front
  place_front-IsOrdered r v l o front h =
      if_elim P (r.ring_buf_start == r.ring_buf_end)
        (λ same.
          if_elim P (length r.ring_buf_allocations == 1)
            (λ _.
              place_wrapped-IsOrdered r v l o (ground (arith, front, ap (λ a. nextalign a align))))
            (λ _. o))
        (λ apart.
          if_elim P (leb (u64 (r.ring_buf_end + real_size size align r)) r.ring_buf_start)
            (λ fits. place_wrapped-IsOrdered r v l o (ground (arith, v.start_high, real_end r v l)))
            (λ _. o))
    where
      P : Option ℕ × RingBuf → Type 0
      P out = IsOrdered out.1

  -- Where the two ends lie in the buffer, and the buffer is further from the top of the address space
  -- than the request is large, a call keeps the entries in the order that `release` relies on: each
  -- leads on, or back to the front from no further than the limit.
  pub acquire-IsOrdered :
      (r : RingBuf)
      → InBounds r
      → IsRequest size align r
      → IsOrdered r
      → IsOrdered (acquire size align r).1
  unfolding acquire
  acquire-IsOrdered r v l o =
      if_elim P (ltb (limit r) (u64 (size + nextalign r.ring_buf align))) (λ _. o)
        (λ enough.
          let (v', base, total, start, front) = wrap_end_lem size align r v in
          if_elim P
            (leb r.ring_buf_start r.ring_buf_end
              && leb (u64 (r.ring_buf_end + real_size size align r)) (limit r))
            (λ fits. place-IsOrdered r v l o (ground (arith, real_end r v l)))
            (λ _.
              place_front-IsOrdered (wrap_end r) v' (same-IsRequest r l (wrap_end r) base total)
                (wrap_end-IsOrdered r v o) front
                (ground (
                  arith,
                  l.room,
                  base,
                  total,
                  ap (λ a. nextalign a align) base,
                  aligned_up l r.ring_buf,
                ))))
    where
      P : Option ℕ × RingBuf → Type 0
      P out = IsOrdered out.1
