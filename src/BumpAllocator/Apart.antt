-- ===== src/BumpAllocator/Apart.antt =====
-- The blocks that the threads get from one segment do not overlap.
use remus_tutorial.Prelude.{ℕ, ◌+◌, ◌-◌, ◌^◌, ◌≤◌, ◌<◌, arith, Option, none, some, List, [], ◌∷◌}
use remus_tutorial.BumpAllocator.{header_size}
use remus_tutorial.BumpAllocator.Remote.{Remote}
use remus_tutorial.BumpAllocator.Global.{counter, try_segment}
use remus_tutorial.BumpAllocator.Grant.{Grants, try_segment-Grants}

-- The bytes of the blocks, as the addresses behind the headers and the sizes with the headers: each
-- block ends before the next one begins, the first one not before `from`, the last one by `end`.
abbrev pub IsApart : ℕ → ℕ → List (ℕ × ℕ) → Type 0
IsApart from end [] = Unit
IsApart from end ((ptr, size) ∷ more) =
    (from + header_size ≤ ptr)
    × (ptr + size ≤ end + header_size)
    × IsApart (ptr - header_size + size) end more

abbrev pub AllSizes : List ℕ → Type 0
AllSizes [] = Unit
AllSizes (size ∷ sizes) = (header_size ≤ size) × AllSizes sizes

abbrev pub total : List ℕ → ℕ
total [] = 0
total (size ∷ sizes) = size + total sizes

IsApart-le :
    (from from' end : ℕ) (blocks : List (ℕ × ℕ))
    → from ≤ from'
    → IsApart from' end blocks
    → IsApart from end blocks
IsApart-le from from' end [] le h = tt
IsApart-le from from' end ((ptr, size) ∷ more) le (above, below, rest) = (omega arith, below, rest)

module _ (r : Remote) (seg_size mn seg : ℕ) where
  -- The blocks that attempts with these sizes get, in the order of the attempts, whichever threads
  -- make them.
  unfoldable pub attempts : List ℕ → r.World → List (ℕ × ℕ)
  attempts [] w = []
  attempts (size ∷ sizes) w =
      let (got, w') = try_segment r seg_size size mn seg w in
      let rest = attempts sizes w' in elim got [ none ↦ rest | some ptr ↦ (ptr, size) ∷ rest ]

  abbrev base : ℕ
  base = r.seg_locator mn seg

  -- The blocks that attempts made one after another at one segment get lie in the segment and do not
  -- overlap, whichever threads make them and in whatever order of sizes. The segment lies in the
  -- address space, its counter begins behind the first two words, every size includes the header,
  -- and the counter does not overflow on all the sizes.
  pub attempts-IsApart :
      (sizes : List ℕ) (w : r.World)
      → base + seg_size < 2 ^ 64
      → 16 ≤ r.read (counter r mn seg) w
      → AllSizes sizes
      → r.read (counter r mn seg) w + total sizes < 2 ^ 64
      → IsApart (base + r.read (counter r mn seg) w) (base + seg_size) (attempts sizes w)
  unfolding attempts
  attempts-IsApart [] w seg_fits above all no_wrap = tt
  attempts-IsApart (size ∷ sizes) w seg_fits above (has_header, all) no_wrap =
      next (try_segment r seg_size size mn seg w)
        (try_segment-Grants r seg_size size mn seg w seg_fits above has_header (omega arith))
        (λ w' above' no_wrap'. attempts-IsApart sizes w' seg_fits above' all no_wrap')
    where
      next :
          (tried : Option ℕ × r.World)
          → Grants r seg_size size mn seg w tried
          → ((w' : r.World)
              → 16 ≤ r.read (counter r mn seg) w'
              → r.read (counter r mn seg) w' + total sizes < 2 ^ 64
              → IsApart (base + r.read (counter r mn seg) w') (base + seg_size) (attempts sizes w'))
          → IsApart (base + r.read (counter r mn seg) w) (base + seg_size) (elim tried.0 [
            | none ↦ attempts sizes tried.1
            | some ptr ↦ (ptr, size) ∷ attempts sizes tried.1
          ])
      next (none, w') (more, less) rest =
          IsApart-le _ (base + r.read (counter r mn seg) w') _ (attempts sizes w') (omega arith)
            (rest w' (omega arith) (omega arith))
      next (some ptr, w') g rest = (
        omega (arith, g.place),
        omega (arith, g.fits),
        IsApart-le _ (base + r.read (counter r mn seg) w') _ (attempts sizes w')
            (omega (arith, g.place, g.bumped))
            (rest w' (omega (arith, g.bumped)) (omega (arith, g.bumped))),
      )
