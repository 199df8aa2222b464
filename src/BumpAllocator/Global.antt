-- ===== src/BumpAllocator/Global.antt =====
-- `try_allocate_global` of rdma/include/remus/compute_thread.h: allocation from a segment of a
-- memory node, by a fetch-and-add on its bump counter.
use remus_tutorial.Prelude.{
  ℕ, zero, suc, ◌+◌, leb, ltb, u64, if◌then◌else◌, Option, none, some, Outcome, done, diverge,
}
use remus_tutorial.MnAllocPolicy.{MnAllocPolicy, get_mn_seg}
use remus_tutorial.BumpAllocator.{header_size}
use remus_tutorial.BumpAllocator.Remote.{Remote}

-- `offsetof(ControlBlock, allocated_)`, and the place of the padding in a block's header.
abbrev pub allocated_at : ℕ
allocated_at = 8

abbrev pub padding_at : ℕ
padding_at = 8

module _ (r : Remote) where
  abbrev pub counter : ℕ → ℕ → ℕ
  counter mn seg = u64 (r.seg_locator mn seg + allocated_at)

  -- The loop that raises the hint. No other thread acts between the load of the hint and the
  -- compare-exchange, so this succeeds at once.
  abbrev pub raise_hint : ℕ → ℕ → ℕ → r.World → r.World
  raise_hint mn seg new_hint w =
      if leb (r.hint mn seg w) new_hint then r.set_hint mn seg new_hint w else w

  -- The body of the loop after the fetch-and-add has returned `offset`.
  abbrev pub finish : ℕ → ℕ → ℕ → ℕ → ℕ → r.World → Option ℕ × r.World
  finish seg_size size mn seg offset w =
      if ltb seg_size (u64 (offset + size))
      then (none, w)
      else (let ptr = u64 (r.seg_locator mn seg + offset) in
          let raised = raise_hint mn seg (u64 (offset + size)) w in
          let sized = r.writer ptr size raised in
          (some (u64 (ptr + header_size)), r.writer (u64 (ptr + padding_at)) 0 sized))

  -- The body of the loop: the pointer, or none where it goes on to the next segment.
  unfoldable pub try_segment : ℕ → ℕ → ℕ → ℕ → r.World → Option ℕ × r.World
  try_segment seg_size size mn seg w =
      if ltb seg_size (u64 (r.hint mn seg w + size))
      then (none, w)
      else (let (offset, w') = r.faa (counter mn seg) size w in
          finish seg_size size mn seg offset w')

  -- The pointer, the policy and the world after; `fuel` bounds the turns of the loop.
  unfoldable pub try_allocate_global :
      ℕ → ℕ → ℕ → MnAllocPolicy → r.World → Outcome (ℕ × MnAllocPolicy × r.World)
  try_allocate_global zero seg_size size p w = diverge
  try_allocate_global (suc fuel) seg_size size p w =
      let ((mn, seg), p') = get_mn_seg p in
      let (got, w') = try_segment seg_size size mn seg w in
      let rest = try_allocate_global fuel seg_size size p' w' in
      elim got [ none ↦ rest | some ptr ↦ done (ptr, p', w') ]
