-- ===== src/RingBuf/Tests.antt =====
-- Runs of a ring of sixteen bytes, and the properties at concrete rings.
use remus_tutorial.Prelude.{
  ℕ, ◌+◌, ◌≤◌, ◌≡◌, Bool, true, false, some, [], ◌∷◌, arith, refl, lookup, insert, erase, done,
  ◌>>=◌,
}
use remus_tutorial.RingBuf.{
  RingBuf, Allocation, fresh, nextalign, keep_align, place, place_wrapped, place_front, wrap_end,
  acquire, drop_start, drop_unused, release,
}
use remus_tutorial.RingBuf.Bounds.{Fits, acquire-Fits}
use remus_tutorial.RingBuf.Alias.{IsFull, acquire_full}
use remus_tutorial.RingBuf.Ordered.{acquire-IsOrdered}
use remus_tutorial.RingBuf.Release.{IsLive, IsOrdered, Releases, release_lem}

abbrev block : ℕ → Bool → Allocation
block next used = record { next_available_addr = next; in_use = used }

-- The ring after two blocks of eight bytes.
abbrev two_blocks : RingBuf
two_blocks = record {
  ring_buf = 64;
  ring_buf_size = 16;
  ring_buf_start = 64;
  ring_buf_end = 80;
  ring_buf_allocations = (64, block 72 true) ∷ (72, block 80 true) ∷ [];
}

-- The ring after the first of them is released and taken again, past the wrap.
abbrev full : RingBuf
full = record {
  ring_buf = 64;
  ring_buf_size = 16;
  ring_buf_start = 72;
  ring_buf_end = 72;
  ring_buf_allocations = (72, block 80 true) ∷ (80, block 64 false) ∷ (64, block 72 true) ∷ [];
}

take8 : RingBuf → RingBuf
take8 r = (acquire 8 8 r).1

two_blocks_reached : take8 (take8 (fresh 64 16)) ≡ two_blocks
unfolding take8 acquire fresh place place_front place_wrapped wrap_end keep_align nextalign insert
two_blocks_reached = refl

full_reached : (release 64 two_blocks >>= λ r. done (take8 r)) ≡ done full
unfolding take8 acquire place place_front place_wrapped wrap_end keep_align nextalign insert release
    drop_unused drop_start erase lookup
full_reached = refl

-- The address of a block that is in use is handed out again.
full_hands_out : (acquire 8 8 full).0 ≡ some 72
unfolding acquire place place_front place_wrapped wrap_end keep_align nextalign insert
full_hands_out = refl

-- A block of sixteen bytes from 80 on, while the block of 24 bytes at 72 is in use.
overlaps :
    (release 64 (acquire 24 8 (acquire 8 8 (fresh 64 32)).1).1 >>= λ r.
    done (acquire 16 16 (acquire 8 8 r).1).0)
    ≡ done (some 80)
unfolding acquire fresh place place_front place_wrapped wrap_end keep_align nextalign insert release
    drop_unused drop_start erase lookup
overlaps = refl

acquire-Fits_example : Fits 8 8 two_blocks (acquire 8 8 two_blocks)
acquire-Fits_example =
    acquire-Fits 8 8 two_blocks (omega arith)
      (record { bits = 3; rest = 61; word = refl; power = refl; room = omega arith })

full-IsFull : IsFull full
unfolding lookup
full-IsFull = record { next = 80; meet = refl; live = refl }

full_aligned : nextalign 72 8 ≡ 72
unfolding nextalign
full_aligned = refl

full_room : 8 + nextalign 64 8 ≤ 80
unfolding nextalign
full_room = omega arith

acquire_full_example : (acquire 8 8 full).0 ≡ some 72
acquire_full_example = acquire_full 8 8 full full-IsFull full_aligned full_room (omega arith)

first_IsLive : IsLive 64 (block 72 true) two_blocks
unfolding lookup
first_IsLive = record { noted = refl; used = refl }

two_blocks-IsOrdered : IsOrdered two_blocks
unfolding lookup
two_blocks-IsOrdered addr x e = ground arith

acquire-IsOrdered_example : IsOrdered (acquire 8 8 two_blocks).1
acquire-IsOrdered_example =
    acquire-IsOrdered 8 8 two_blocks (omega arith)
      (record { bits = 3; rest = 61; word = refl; power = refl; room = omega arith })
      two_blocks-IsOrdered

release_lem_example : Releases 64 two_blocks (release 64 two_blocks)
release_lem_example = release_lem 64 (block 72 true) two_blocks two_blocks-IsOrdered first_IsLive

nothing_at_65 : (x : Allocation) → ¬ IsLive 65 x two_blocks
unfolding lookup
nothing_at_65 x v = cc (v.noted)
