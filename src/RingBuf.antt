-- ===== src/RingBuf.antt =====
-- `ring_buf_t` of rdma/include/remus/ring.h: blocks of bytes handed out round a buffer. The
-- references that its functions take are one record. An address is a number
-- of 64 bits, and sums with the size of a request wrap; the buffer itself lies in the address space.
pub mod Align
pub mod Bounds
pub mod Alias
pub mod Release
pub mod Ordered
mod Tests
use Prim.Native.Nat.{bit_and}
use remus_tutorial.Prelude.{
  ℕ, zero, suc, ◌+◌, ◌-◌, ◌≤◌, Bool, true, false, ◌&&◌, not, Option, none, some, List, [], ltb, leb,
  ◌==◌, if◌then◌else◌, length, u64, sub64, not64, Map, lookup, insert, erase, Outcome, done, abort,
  diverge, ◌>>=◌, ◌>>◌, assert,
}

-- `buf_allocation_t`
pub record Allocation : Type 0 where
  pub next_available_addr : ℕ
  pub in_use : Bool

pub record RingBuf : Type 0 where
  pub ring_buf : ℕ
  pub ring_buf_size : ℕ
  pub ring_buf_start : ℕ
  pub ring_buf_end : ℕ
  pub ring_buf_allocations : Map Allocation

-- As `ComputeThread` initialises it.
unfoldable pub fresh : ℕ → ℕ → RingBuf
fresh base size = record {
  ring_buf = base;
  ring_buf_size = size;
  ring_buf_start = base;
  ring_buf_end = base;
  ring_buf_allocations = [];
}

unfoldable pub nextalign : ℕ → ℕ → ℕ
nextalign address align = bit_and (u64 (address + sub64 align 1)) (not64 (sub64 align 1))

-- `ring_buf_allocations[address] = {next, in_use}`
abbrev pub note : ℕ → ℕ → Bool → RingBuf → RingBuf
note address next used r = record r {
  ring_buf_allocations =
      insert address (record { next_available_addr = next; in_use = used }) r.ring_buf_allocations;
}

unfoldable pub keep_align : ℕ → RingBuf → RingBuf
keep_align align r =
    let aligned = nextalign r.ring_buf_end align in
    if aligned == r.ring_buf_end
    then r
    else note r.ring_buf_end aligned false (record r { ring_buf_end = aligned })

abbrev pub limit : RingBuf → ℕ
limit r = r.ring_buf + r.ring_buf_size

-- Case 1: the block goes to the end.
unfoldable pub place : ℕ → ℕ → RingBuf → Option ℕ × RingBuf
place size align r =
    let r' = keep_align align r in
    let buf = r'.ring_buf_end in
    let next = u64 (buf + size) in
    (some buf, note buf next true (record r' { ring_buf_end = next }))

-- Cases 3 and 4: a block that reaches the limit points back to the front.
unfoldable pub place_wrapped : ℕ → ℕ → RingBuf → Option ℕ × RingBuf
place_wrapped size align r =
    let r' = keep_align align r in
    let buf = r'.ring_buf_end in
    let end = u64 (buf + size) in
    let next = if end == limit r' then r'.ring_buf else end in
    (some buf, note buf next true (record r' { ring_buf_end = end }))

abbrev pub real_size : ℕ → ℕ → RingBuf → ℕ
real_size size align r = sub64 (size + nextalign r.ring_buf_end align) r.ring_buf_end

-- Case 2: the end moves to the front.
unfoldable pub wrap_end : RingBuf → RingBuf
wrap_end r =
    if leb r.ring_buf_start r.ring_buf_end
    then note r.ring_buf_end r.ring_buf false (record r { ring_buf_end = r.ring_buf })
    else r

-- After case 2: `nullptr` is `none`.
unfoldable pub place_front : ℕ → ℕ → RingBuf → Option ℕ × RingBuf
place_front size align r =
    if r.ring_buf_start == r.ring_buf_end
    then (if length r.ring_buf_allocations == 1 then place_wrapped size align r else (none, r))
    else (if leb (u64 (r.ring_buf_end + real_size size align r)) r.ring_buf_start
        then place_wrapped size align r
        else (none, r))

unfoldable pub acquire : ℕ → ℕ → RingBuf → Option ℕ × RingBuf
acquire size align r =
    if ltb (limit r) (u64 (size + nextalign r.ring_buf align))
    then (none, r)
    else (if leb r.ring_buf_start r.ring_buf_end
          && leb (u64 (r.ring_buf_end + real_size size align r)) (limit r)
        then place size align r
        else place_front size align (wrap_end r))

-- The block at the start, if its entry is there and not in use.
abbrev pub unused_at_start : RingBuf → Option Allocation
unused_at_start r = elim (lookup r.ring_buf_start r.ring_buf_allocations) [
  | some a ↦ if a.in_use then none else some a
  | none ↦ none
]

-- One round of the loop of `release`: the start moves on, its entry goes, and the two assertions on
-- the distance hold or abort.
unfoldable pub drop_start : Allocation → RingBuf → Outcome RingBuf
drop_start a r = do
  let to_erase = r.ring_buf_start
  let r' = record r {
    ring_buf_start = a.next_available_addr;
    ring_buf_allocations = erase to_erase r.ring_buf_allocations;
  }
  assert (
      if r'.ring_buf_start == r'.ring_buf
      then leb to_erase (limit r')
      else leb to_erase r'.ring_buf_start)
  done r'

unfoldable pub drop_unused : ℕ → RingBuf → Outcome RingBuf
drop_unused zero r = diverge
drop_unused (suc fuel) r = elim (unused_at_start r) [
  | none ↦ done r
  | some a ↦ drop_start a r >>= λ r'. drop_unused fuel r'
]

-- `release`: each round of the loop erases an entry, so it takes no more rounds than there are.
unfoldable pub release : ℕ → RingBuf → Outcome RingBuf
release buf r = elim (lookup buf r.ring_buf_allocations) [
  | none ↦ abort
  | some a ↦ do
    assert a.in_use
    let r' = note buf a.next_available_addr false r
    drop_unused (suc (length r'.ring_buf_allocations)) r'
]
