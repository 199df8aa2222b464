-- ===== src/Segment/Places.antt =====
-- `find_mmap_location` finds a place that is free.
use remus_tutorial.Prelude.{
  ℕ, ◌+◌, ◌%◌, ◌^◌, ◌≤◌, ◌<◌, ◌≡◌, ◌⊎◌, inl, inr, arith, ltb, leb, u64, true, Bool-cases, Option,
  none, some, Outcome, done, abort, fault, diverge, List, [], ◌∷◌,
}
use remus_tutorial.Segment.{Line, is_power, scan, find_mmap_location}

-- What the C library promises of `roundup` to a power of two, as long as no word overflows.
pub record RoundsUp (roundup : ℕ → ℕ → ℕ) (len : ℕ) : Type 0 where
  pub up : (x : ℕ) → x + len ≤ 2 ^ 64 → x ≤ roundup x len
  pub aligned : (x : ℕ) → x + len ≤ 2 ^ 64 → roundup x len % len ≡ 0
  pub inside : (x : ℕ) → x + len ≤ 2 ^ 64 → roundup x len + len ≤ 2 ^ 64

-- The regions are sorted and do not overlap, and `len` bytes fit behind each of them.
abbrev pub IsSorted : ℕ → ℕ → List Line → Type 0
IsSorted len from [] = Unit
IsSorted len from (none ∷ lines) = IsSorted len from lines
IsSorted len from (some (l, u) ∷ lines) =
    (from ≤ l) × (l ≤ u) × (u + len ≤ 2 ^ 64) × IsSorted len u lines

-- No region meets the `len` bytes at `addr`.
abbrev pub IsFree : ℕ → ℕ → List Line → Type 0
IsFree len addr [] = Unit
IsFree len addr (none ∷ lines) = IsFree len addr lines
IsFree len addr (some (l, u) ∷ lines) = ((addr + len ≤ l) ⊎ (u ≤ addr)) × IsFree len addr lines

-- Below the regions all is free.
below-IsFree :
    (len addr from : ℕ) (lines : List Line)
    → IsSorted len from lines
    → addr + len ≤ from
    → IsFree len addr lines
below-IsFree len addr from [] s h = tt
below-IsFree len addr from (none ∷ lines) s h = below-IsFree len addr from lines s h
below-IsFree len addr from (some (l, u) ∷ lines) (low, order, fits, more) h =
    (inl (omega arith), below-IsFree len addr u lines more (omega arith))

-- What the loop keeps of a guess, and what it ends with.
pub record Scanned (len addr r : ℕ) (lines : List Line) : Type 0 where
  pub later : addr ≤ r
  pub aligned : r % len ≡ 0
  pub inside : r + len ≤ 2 ^ 64
  pub free : r + len < 2 ^ 64 → IsFree len r lines

module _ (roundup : ℕ → ℕ → ℕ) (len : ℕ) (up : RoundsUp roundup len) where
  scan-Scanned :
      (from addr : ℕ) (lines : List Line)
      → IsSorted len from lines
      → addr % len ≡ 0
      → addr + len ≤ 2 ^ 64
      → Scanned len addr (scan roundup len lines addr) lines
  unfolding scan
  scan-Scanned from addr [] s a h = record {
    later = omega arith;
    aligned = a;
    inside = h;
    free = λ _. tt;
  }
  scan-Scanned from addr (none ∷ lines) s a h =
      let rest = scan-Scanned from addr lines s a h in
      record { later = rest.later; aligned = rest.aligned; inside = rest.inside; free = rest.free }
  scan-Scanned from addr (some (l, u) ∷ lines) (low, order, fits, more) a h =
      elim (Bool-cases (leb (u64 (addr + len)) l)) [
        | inl before ↦ rw (before) (record {
          later = omega arith;
          aligned = a;
          inside = h;
          free = λ below. (inl (ground arith), below-IsFree len addr u lines more (ground arith));
        })
        | inr reaches ↦ elim (Bool-cases (ltb addr u)) [
          | inl meets ↦
              (let rest =
                  scan-Scanned u (roundup u len) lines more (up.aligned u fits)
                    (up.inside u fits) in
                rw (reaches, meets)
                  (record {
                    later = ground (arith, rest.later, up.up u fits);
                    aligned = rest.aligned;
                    inside = rest.inside;
                    free =
                        λ below. (inr (omega (arith, rest.later, up.up u fits)), rest.free below);
                  }))
          | inr past ↦
              (let rest = scan-Scanned u addr lines more a h in
                rw (reaches, past)
                  (record {
                    later = rest.later;
                    aligned = rest.aligned;
                    inside = rest.inside;
                    free = λ below. (inr (ground (arith, rest.later)), rest.free below);
                  }))
        ]
      ]

  -- A place that is free and has the size of a segment, or the top of the address space.
  abbrev pub Located : ℕ → List Line → Outcome (Option ℕ) → Type 0
  Located min_addr lines (done (some addr)) =
      (min_addr ≤ addr) × (addr % len ≡ 0) × (addr + len < 2 ^ 64) × IsFree len addr lines
  Located min_addr lines (done none) = scan roundup len lines (roundup min_addr len) + len ≡ 2 ^ 64
  Located min_addr lines abort = ⊥
  Located min_addr lines fault = ⊥
  Located min_addr lines diverge = ⊥

  -- For powers of two, with a first guess and regions behind which a segment fits below the end of the
  -- address space, and with regions that are sorted: the address that is found is not below the first
  -- guess, is a multiple of the size and has room for a segment that meets no region. There is none
  -- only if the search has reached the last place of the address space.
  pub find_mmap_location-Located :
      (min_addr : ℕ) (lines : List Line)
      → is_power min_addr ≡ true
      → is_power len ≡ true
      → min_addr + len ≤ 2 ^ 64
      → 0 < len
      → IsSorted len 0 lines
      → Located min_addr lines (find_mmap_location roundup min_addr len (some lines))
  unfolding find_mmap_location
  find_mmap_location-Located min_addr lines p q h pos s =
      let addr = scan roundup len lines (roundup min_addr len) in
      let found =
        scan-Scanned 0 (roundup min_addr len) lines s (up.aligned min_addr h)
          (up.inside min_addr h) in
      elim (Bool-cases (ltb (u64 (addr + len)) addr)) [
        | inl over ↦ rw (p, q, over) (ground (arith, found.inside))
        | inr fits ↦
            (let below : addr + len < 2 ^ 64 = ground (arith, found.inside) in
              rw (p, q, fits)
                (
                  omega (arith, found.later, up.up min_addr h),
                  found.aligned,
                  below,
                  found.free below,
                ))
      ]
