-- ===== src/BumpAllocator/Grant.antt =====
-- What a successful attempt at a segment hands out.
use remus_tutorial.Prelude.{
  ℕ, ◌+◌, ◌-◌, ◌^◌, ◌≤◌, ◌<◌, ◌≡◌, ◌∙◌, refl, ap, arith, false, leb, ltb, u64, if_elim, Option,
  none, some,
}
use remus_tutorial.BumpAllocator.{header_size}
use remus_tutorial.BumpAllocator.Remote.{Remote}
use remus_tutorial.BumpAllocator.Global.{counter, padding_at, raise_hint, finish, try_segment}

not_leb→le : (a b : ℕ) → leb a b ≡ false → b ≤ a
not_leb→le a b h = ground arith

not_ltb→le : (a b : ℕ) → ltb a b ≡ false → b ≤ a
not_ltb→le a b h = ground arith

module _ (r : Remote) (seg_size size mn seg : ℕ) where
  abbrev base : ℕ
  base = r.seg_locator mn seg

  -- The bytes that a block takes begin where the bump counter stood, lie in the segment, and are
  -- behind the new counter; the header holds the size and a cleared lock, and the hint is not below
  -- the new counter.
  pub record Granted (w : r.World) (ptr : ℕ) (w' : r.World) : Type 0 where
    pub place : ptr ≡ base + r.read (counter r mn seg) w + header_size
    pub fits : ptr + size ≤ base + seg_size + header_size
    pub bumped : r.read (counter r mn seg) w' ≡ r.read (counter r mn seg) w + size
    pub sized : r.read (ptr - header_size) w' ≡ size
    pub unlocked : r.read (ptr - 8) w' ≡ 0
    pub hinted : r.read (counter r mn seg) w' ≤ r.hint mn seg w'

  -- Where the counter stands.
  abbrev pub start_of : r.World → ℕ
  start_of w = r.read (counter r mn seg) w

  -- An attempt that fails may have moved the counter.
  abbrev pub Grants : r.World → Option ℕ × r.World → Type 0
  Grants w (none, w') = (start_of w ≤ start_of w') × (start_of w' ≤ start_of w + size)
  Grants w (some ptr, w') = Granted w ptr w'

  raise_hint-read : (new p : ℕ) (w : r.World) → r.read p (raise_hint r mn seg new w) ≡ r.read p w
  raise_hint-read new p w =
      if_elim (λ u. r.read p u ≡ r.read p w) (leb (r.hint mn seg w) new)
        (λ low. r.set_hint_read mn seg new p w) (λ high. refl)

  raise_hint-hint : (new : ℕ) (w : r.World) → new ≤ r.hint mn seg (raise_hint r mn seg new w)
  raise_hint-hint new w =
      if_elim (λ u. new ≤ r.hint mn seg u) (leb (r.hint mn seg w) new)
        (λ low. omega (arith, r.set_hint_self mn seg new w))
        (λ high. not_leb→le (r.hint mn seg w) new high)

  module _ (w : r.World) (seg_fits : base + seg_size < 2 ^ 64) (above : 16 ≤ start_of w)
      (has_header : header_size ≤ size) (no_wrap : start_of w + size < 2 ^ 64) where
    written :
        (w' : r.World)
        → r.read (counter r mn seg) w' ≡ start_of w + size
        → start_of w + size ≤ seg_size
        → let ptr = base + start_of w in
          let raised = raise_hint r mn seg (start_of w + size) w' in
          Granted w (ptr + header_size) (r.writer (ptr + padding_at) 0 (r.writer ptr size raised))
    written w' bumped fits =
        let ptr : ℕ = base + start_of w in
        let raised = raise_hint r mn seg (start_of w + size) w' in
        let sized = r.writer ptr size raised in
        let counts : r.read (counter r mn seg) (r.writer (ptr + 8) 0 sized) ≡ start_of w + size =
          r.writer_other (ptr + 8) (counter r mn seg) 0 sized (λ e. absurd (omega arith))
          ∙ r.writer_other ptr (counter r mn seg) size raised (λ e. absurd (omega arith))
          ∙ raise_hint-read (start_of w + size) (counter r mn seg) w'
          ∙ bumped in
        record {
          place = refl;
          fits = omega arith;
          bumped = counts;
          sized =
              (ap (λ p. r.read p (r.writer (ptr + 8) 0 sized)) (omega arith)
                ∙ r.writer_other (ptr + 8) ptr 0 sized (λ e. absurd (omega arith))
                ∙ r.writer_self ptr size raised
                ∙ omega arith);
          unlocked =
              (ap (λ p. r.read p (r.writer (ptr + 8) 0 sized)) (omega arith)
                ∙ r.writer_self (ptr + 8) 0 sized
                ∙ omega arith);
          hinted = omega (
            arith,
            counts,
            r.writer_hint (ptr + 8) 0 mn seg sized,
            r.writer_hint ptr size mn seg raised,
            raise_hint-hint (start_of w + size) w',
          );
        }

    finish-Grants :
        (offset : ℕ) (w' : r.World)
        → offset ≡ start_of w
        → r.read (counter r mn seg) w' ≡ start_of w + size
        → Grants w (finish r seg_size size mn seg offset w')
    finish-Grants offset w' e bumped =
        if_elim (Grants w) (ltb seg_size (u64 (offset + size))) (λ full. (omega arith, omega arith))
          (λ fits.
            let new : u64 (offset + size) ≡ start_of w + size = omega arith in
            let in_seg : start_of w + size ≤ seg_size =
              omega (arith, not_ltb→le seg_size (u64 (offset + size)) fits) in
            let at_ptr : u64 (base + offset) ≡ base + start_of w = omega arith in
            let at_data : u64 (base + start_of w + header_size) ≡ base + start_of w + header_size =
              omega arith in
            let at_padding : u64 (base + start_of w + padding_at) ≡ base + start_of w + padding_at =
              omega arith in
            rw (new, at_ptr, at_data, at_padding) (written w' bumped in_seg))

    -- An attempt that fails moves the counter by the size or not at all; one that succeeds takes the bytes where the bump counter stood: they lie in the
    -- segment, the counter moves behind them, their header holds the size and a cleared lock, and
    -- the hint is not below the counter. The segment lies in the address space, the counter is
    -- behind the first two words, the size includes the header, and the counter does not overflow.
    pub try_segment-Grants : Grants w (try_segment r seg_size size mn seg w)
    unfolding try_segment
    try_segment-Grants =
        if_elim (Grants w) (ltb seg_size (u64 (r.hint mn seg w + size)))
          (λ full. (omega arith, omega arith))
          (λ more.
            finish-Grants _ _ (r.faa_was (counter r mn seg) size w)
              (r.faa_self (counter r mn seg) size w ∙ omega arith))
