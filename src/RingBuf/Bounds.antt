-- ===== src/RingBuf/Bounds.antt =====
-- Where `acquire` puts a block: aligned, and inside the buffer.
use remus_tutorial.Prelude.{
  ℕ, ◌+◌, ◌%◌, ◌^◌, ◌≤◌, ◌<◌, ◌≡◌, Option, none, some, arith, refl, ◌&&◌, leb, ltb, ◌==◌, if_elim,
  length, u64, ap, ◌∙◌,
}
use remus_tutorial.RingBuf.{
  RingBuf, limit, nextalign, keep_align, place, place_wrapped, place_front, wrap_end, acquire,
  real_size,
}
use remus_tutorial.RingBuf.Align.{nextalign_least, nextalign_lt}

-- The two ends of the occupied part lie in the buffer.
pub record InBounds (r : RingBuf) : Type 0 where
  pub start_low : r.ring_buf ≤ r.ring_buf_start
  pub start_high : r.ring_buf_start ≤ limit r
  pub end_low : r.ring_buf ≤ r.ring_buf_end
  pub end_high : r.ring_buf_end ≤ limit r

-- The block of `size` bytes at `buf` is aligned and lies in the buffer of `r`.
abbrev pub IsPlaced : ℕ → ℕ → RingBuf → Option ℕ → Type 0
IsPlaced size align r none = Unit
IsPlaced size align r (some buf) =
    (buf % align ≡ 0) × (r.ring_buf ≤ buf) × (buf + size ≤ limit r) × (r.ring_buf_end ≡ buf + size)

-- The alignment that a call asks for, and a buffer that is further from the top of the address space
-- than the request is large.
pub record IsRequest (size align : ℕ) (r : RingBuf) : Type 0 where
  pub bits : ℕ
  pub rest : ℕ
  pub word : rest + bits ≡ 64
  pub power : align ≡ 2 ^ bits
  pub room : limit r + align + size ≤ 2 ^ 64

pub aligned_up :
    {size align : ℕ} {r : RingBuf} (l : IsRequest size align r) (a : ℕ)
    → a ≤ limit r
    → (nextalign a align % align ≡ 0) × (a ≤ nextalign a align) × (nextalign a align < a + align)
aligned_up {size} {align} {r} l a h = rw l.power (least.0, least.1, small)
  where
    least : (nextalign a (2 ^ l.bits) % 2 ^ l.bits ≡ 0) × (a ≤ nextalign a (2 ^ l.bits))
    least =
        let (x, y, _) = nextalign_least l.rest l.bits a l.word (omega (arith, l.room, l.power)) in
        (x, y)

    small : nextalign a (2 ^ l.bits) < a + 2 ^ l.bits
    small = nextalign_lt l.rest l.bits a l.word (omega (arith, l.room, l.power))

-- The same request on the buffer with other ends.
pub same-IsRequest :
    {size align : ℕ} (r : RingBuf)
    → IsRequest size align r
    → (r' : RingBuf) → r'.ring_buf ≡ r.ring_buf
    → r'.ring_buf_size ≡ r.ring_buf_size
    → IsRequest size align r'
same-IsRequest r l r' base total = record {
  bits = l.bits;
  rest = l.rest;
  word = l.word;
  power = l.power;
  room = omega (arith, l.room, base, total);
}

-- The sum that the second test makes does not wrap.
pub real_end :
    {size align : ℕ} (r : RingBuf)
    → InBounds r
    → IsRequest size align r
    → u64 (r.ring_buf_end + real_size size align r) ≡ nextalign r.ring_buf_end align + size
real_end r v l =
    let (_, _, up) = aligned_up l r.ring_buf_end v.end_high in omega (arith, up, l.room, v.end_high)

-- What a call on `r` returns: a block in place, and the two ends in the buffer as before.
pub record Fits (size align : ℕ) (r : RingBuf) (out : Option ℕ × RingBuf) : Type 0 where
  pub placed : IsPlaced size align out.1 out.0
  pub bounds : InBounds out.1
  pub same_buf : out.1.ring_buf ≡ r.ring_buf
  pub same_size : out.1.ring_buf_size ≡ r.ring_buf_size
  pub same_start : out.1.ring_buf_start ≡ r.ring_buf_start

pub keep_align_lem :
    (align : ℕ) (r : RingBuf) → (keep_align align r).ring_buf_end ≡ nextalign r.ring_buf_end align
unfolding keep_align
keep_align_lem align r = ground arith

pub keep_align_same :
    (align : ℕ) (r : RingBuf)
    → ((keep_align align r).ring_buf ≡ r.ring_buf)
      × ((keep_align align r).ring_buf_size ≡ r.ring_buf_size)
      × ((keep_align align r).ring_buf_start ≡ r.ring_buf_start)
unfolding keep_align
keep_align_same align r = ground arith

module _ (size align : ℕ) where
  place-Fits :
      (r : RingBuf)
      → InBounds r
      → IsRequest size align r
      → nextalign r.ring_buf_end align + size ≤ limit r
      → Fits size align r (place size align r)
  unfolding place
  place-Fits r v l h =
      ground (arith, aligned_up l r.ring_buf_end, keep_align_lem align r, keep_align_same align r)

  place_wrapped-Fits :
      (r : RingBuf)
      → InBounds r
      → IsRequest size align r
      → nextalign r.ring_buf_end align + size ≤ limit r
      → Fits size align r (place_wrapped size align r)
  unfolding place_wrapped
  place_wrapped-Fits r v l h =
      ground (arith, aligned_up l r.ring_buf_end, keep_align_lem align r, keep_align_same align r)

  refused_Fits : (r : RingBuf) → InBounds r → Fits size align r (none, r)
  refused_Fits r v = record {
    placed = tt;
    bounds = v;
    same_buf = refl;
    same_size = refl;
    same_start = refl;
  }

  place_front-Fits :
      (r : RingBuf)
      → InBounds r
      → IsRequest size align r
      → (r.ring_buf_start ≡ r.ring_buf_end → r.ring_buf_end ≡ r.ring_buf)
      → size + nextalign r.ring_buf align ≤ limit r
      → Fits size align r (place_front size align r)
  unfolding place_front
  place_front-Fits r v l front h =
      if_elim P (r.ring_buf_start == r.ring_buf_end)
        (λ same.
          if_elim P (length r.ring_buf_allocations == 1)
            (λ _. place_wrapped-Fits r v l (ground (arith, front, ap (λ a. nextalign a align))))
            (λ _. refused_Fits r v))
        (λ apart.
          if_elim P (leb (u64 (r.ring_buf_end + real_size size align r)) r.ring_buf_start)
            (λ fits. place_wrapped-Fits r v l (ground (arith, v.start_high, real_end r v l)))
            (λ _. refused_Fits r v))
    where
      P : Option ℕ × RingBuf → Type 0
      P = Fits size align r

  pub wrap_end_lem :
      (r : RingBuf)
      → InBounds r
      → InBounds (wrap_end r)
        × ((wrap_end r).ring_buf ≡ r.ring_buf)
        × ((wrap_end r).ring_buf_size ≡ r.ring_buf_size)
        × ((wrap_end r).ring_buf_start ≡ r.ring_buf_start)
        × ((wrap_end r).ring_buf_start ≡ (wrap_end r).ring_buf_end
            → (wrap_end r).ring_buf_end ≡ (wrap_end r).ring_buf)
  unfolding wrap_end
  wrap_end_lem r v = ground arith

  place_front-wrap_end-Fits :
      (r : RingBuf)
      → InBounds r
      → IsRequest size align r
      → size + nextalign r.ring_buf align ≤ limit r
      → Fits size align r (place_front size align (wrap_end r))
  place_front-wrap_end-Fits r v l h =
      let (v', base, total, start, front) = wrap_end_lem r v in
      let l' = same-IsRequest r l (wrap_end r) base total in
      let f =
        place_front-Fits (wrap_end r) v' l' front
          (omega (arith, ap (λ a. nextalign a align) base)) in
      record {
        placed = f.placed;
        bounds = f.bounds;
        same_buf = f.same_buf ∙ base;
        same_size = f.same_size ∙ total;
        same_start = f.same_start ∙ start;
      }

  -- If the start and the end of the occupied part lie in the buffer, and the buffer is further from
  -- the top of the address space than the request is large, they lie in the buffer after a call too. The
  -- block that a call returns is aligned, lies in the buffer and ends at the new end; the call moves
  -- neither the buffer nor the start.
  pub acquire-Fits :
      (r : RingBuf) → InBounds r → IsRequest size align r → Fits size align r (acquire size align r)
  unfolding acquire
  acquire-Fits r v l =
      if_elim P (ltb (limit r) (u64 (size + nextalign r.ring_buf align))) (λ _. refused_Fits r v)
        (λ enough.
          if_elim P
            (leb r.ring_buf_start r.ring_buf_end
              && leb (u64 (r.ring_buf_end + real_size size align r)) (limit r))
            (λ fits. place-Fits r v l (ground (arith, real_end r v l)))
            (λ _.
              place_front-wrap_end-Fits r v l (ground (arith, l.room, aligned_up l r.ring_buf))))
    where
      P : Option ℕ × RingBuf → Type 0
      P = Fits size align r
