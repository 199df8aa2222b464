-- ===== src/RingBuf/Release.antt =====
-- `release`: its loop ends, and blocks that other callers hold stay as they are.
use remus_tutorial.Prelude.{
  ℕ, zero, suc, ◌≤◌, ◌<◌, Bool, ◌==◌, ==_iff, if◌then◌else◌, subst, sym, ◌≡◌, ◌≢◌, true, false,
  none, some, arith, length, lookup, erase, lookup-insert, lookup-erase, length-erase_lt, Outcome,
  done, abort, fault, diverge, Option-cases, Bool-cases, Map, ◌↔◌, inl, inr, ap,
}
use remus_tutorial.RingBuf.{
  RingBuf, Allocation, limit, note, unused_at_start, drop_start, drop_unused, release,
}

-- The entry that the loop looks at is the one at the start.
unused_entry :
    (r : RingBuf) {a : Allocation}
    → unused_at_start r ≡ some a
    → (lookup r.ring_buf_start r.ring_buf_allocations ≡ some a) × (a.in_use ≡ false)
unused_entry r h = ground arith

abbrev dropped : Allocation → RingBuf → RingBuf
dropped a r = record r {
  ring_buf_start = a.next_available_addr;
  ring_buf_allocations = erase r.ring_buf_start r.ring_buf_allocations;
}

-- The entry at `addr` leads on, or back to the front of the buffer.
abbrev pub Leads : RingBuf → ℕ → ℕ → Type 0
Leads r addr next = (next ≡ r.ring_buf → addr ≤ limit r) × (next ≢ r.ring_buf → addr ≤ next)

-- Every entry does.
abbrev pub IsOrdered : RingBuf → Type 0
IsOrdered r =
    (addr : ℕ) (x : Allocation)
    → lookup addr r.ring_buf_allocations ≡ some x
    → Leads r addr x.next_available_addr

-- In order, the assertions on the distance hold.
drop_start-IsOrdered :
    (a : Allocation) (r : RingBuf)
    → IsOrdered r
    → unused_at_start r ≡ some a
    → drop_start a r ≡ done (dropped a r)
unfolding drop_start
drop_start-IsOrdered a r o h =
    let (back, on) = o r.ring_buf_start a (unused_entry r h).0 in ground (arith, back, on)

dropped-IsOrdered : (a : Allocation) (r : RingBuf) → IsOrdered r → IsOrdered (dropped a r)
dropped-IsOrdered a r o addr x e =
    let there : lookup addr r.ring_buf_allocations ≡ some x =
      ground (arith, e, lookup-erase r.ring_buf_start addr r.ring_buf_allocations) in
    o addr x there

-- The block at `addr` is in use and noted as `x`.
pub record IsLive (addr : ℕ) (x : Allocation) (r : RingBuf) : Type 0 where
  pub noted : lookup addr r.ring_buf_allocations ≡ some x
  pub used : x.in_use ≡ true

-- The loop from `r` has stopped at a start whose block is in use or has no entry, the same blocks are
-- in use as before and the entries are in order.
abbrev pub Ends : RingBuf → Outcome RingBuf → Type 0
Ends r (done r') =
    (unused_at_start r' ≡ none)
    × IsOrdered r'
    × ((addr : ℕ) (x : Allocation) → IsLive addr x r' ↔ IsLive addr x r)
Ends r abort = ⊥
Ends r fault = ⊥
Ends r diverge = ⊥

lookup_at : (k j : ℕ) (m : Map Allocation) → k ≡ j → lookup k m ≡ lookup j m
lookup_at k j m = ap (λ i. lookup i m)

dropped-IsLive_iff :
    (a : Allocation) (r : RingBuf) (addr : ℕ) (x : Allocation)
    → unused_at_start r ≡ some a
    → IsLive addr x (dropped a r) ↔ IsLive addr x r
dropped-IsLive_iff a r addr x h = (
  λ v. ground (arith, v.noted, v.used, lookup-erase r.ring_buf_start addr r.ring_buf_allocations),
  λ v. ground (
    arith,
    v.noted,
    v.used,
    unused_entry r h,
    lookup-erase r.ring_buf_start addr r.ring_buf_allocations,
    lookup_at r.ring_buf_start addr r.ring_buf_allocations,
  ),
)

dropped-Ends :
    (a : Allocation) (r : RingBuf) (o : Outcome RingBuf)
    → unused_at_start r ≡ some a
    → Ends (dropped a r) o
    → Ends r o
dropped-Ends a r (done r') h (stop, order, same) = (
  stop,
  order,
  λ addr x. (
    λ v. (dropped-IsLive_iff a r addr x h).0 ((same addr x).0 v),
    λ v. (same addr x).1 ((dropped-IsLive_iff a r addr x h).1 v),
  ),
)
dropped-Ends a r abort h e = e
dropped-Ends a r fault h e = e
dropped-Ends a r diverge h e = e

-- With more fuel than entries the loop ends.
drop_unused-Ends :
    (fuel : ℕ) (r : RingBuf)
    → IsOrdered r
    → length r.ring_buf_allocations < fuel
    → Ends r (drop_unused fuel r)
unfolding drop_unused
drop_unused-Ends zero r o h = absurd (omega arith)
drop_unused-Ends (suc fuel) r o h = elim (Option-cases (unused_at_start r)) [
  | inl stop ↦ rw (stop, drop_unused) (stop, o, λ addr x. (λ v. v, λ v. v))
  | inr (a, more) ↦
      rw (more, drop_unused, drop_start-IsOrdered a r o more)
        (dropped-Ends a r (drop_unused fuel (dropped a r)) more (
          drop_unused-Ends fuel (dropped a r) (dropped-IsOrdered a r o) (
            omega (
              arith,
              length-erase_lt r.ring_buf_start r.ring_buf_allocations a (unused_entry r more).0,
            ))))
]

-- What `release buf` does from `r`: it ends, the same blocks as before stay in use, all but the one at
-- `buf`, and the entries are in order.
abbrev pub Releases : ℕ → RingBuf → Outcome RingBuf → Type 0
Releases buf r (done r') =
    (unused_at_start r' ≡ none)
    × IsOrdered r'
    × ((addr : ℕ) (x : Allocation) → IsLive addr x r' ↔ (IsLive addr x r × (addr ≢ buf)))
Releases buf r abort = ⊥
Releases buf r fault = ⊥
Releases buf r diverge = ⊥

abbrev unused : ℕ → Allocation
unused next = record { next_available_addr = next; in_use = false }

noted-IsLive_iff :
    (buf next : ℕ) (r : RingBuf) (addr : ℕ) (x : Allocation)
    → IsLive addr x (note buf next false r) ↔ (IsLive addr x r × (addr ≢ buf))
noted-IsLive_iff buf next r addr x = (
  λ v. ground (arith, v.noted, v.used, lookup-insert buf addr (unused next) r.ring_buf_allocations),
  λ v. ground (
    arith,
    v.0.noted,
    v.0.used,
    v.1,
    lookup-insert buf addr (unused next) r.ring_buf_allocations,
  ),
)

noted-Ends :
    (buf next : ℕ) (r : RingBuf) (o : Outcome RingBuf)
    → Ends (note buf next false r) o
    → Releases buf r o
noted-Ends buf next r (done r') (stop, order, same) = (
  stop,
  order,
  λ addr x. (
    λ v. (noted-IsLive_iff buf next r addr x).0 ((same addr x).0 v),
    λ v. (same addr x).1 ((noted-IsLive_iff buf next r addr x).1 v),
  ),
)
noted-Ends buf next r abort e = e
noted-Ends buf next r fault e = e
noted-Ends buf next r diverge e = e

release_run :
    (buf : ℕ) (x : Allocation) (r : RingBuf)
    → IsLive buf x r
    → let r' = note buf x.next_available_addr false r in
      release buf r ≡ drop_unused (suc (length r'.ring_buf_allocations)) r'
unfolding release
release_run buf x r v = rw (v.noted, release, v.used)

-- A block that is noted anew is in order where its next address is.
pub note-IsOrdered :
    (buf next : ℕ) (used : Bool) (r : RingBuf)
    → IsOrdered r
    → Leads r buf next
    → IsOrdered (note buf next used r)
note-IsOrdered buf next used r o leads addr x e = elim (Bool-cases (buf == addr)) [
  | inl same ↦
      let at_next : x.next_available_addr ≡ next = ground (arith, e, same, new) in
      let at_buf : buf ≡ addr = (==_iff buf addr).0 same in
      subst (λ k. Leads r k x.next_available_addr) at_buf (subst (Leads r buf) (sym at_next) leads)
  | inr other ↦ o addr x (ground (arith, e, other, new))
]
  where
    new : lookup addr (note buf next used r).ring_buf_allocations ≡ (
        if buf == addr
        then some (record { next_available_addr = next; in_use = used })
        else lookup addr r.ring_buf_allocations)
    new =
        lookup-insert buf addr (record { next_available_addr = next; in_use = used })
          r.ring_buf_allocations

-- On a ring whose entries lead on, or back to the front from no further than the limit, `release` of
-- a block in use ends, and none of its assertions fails: the same blocks are in use but for that one,
-- the start has a block in use or no entry, and the entries still lead on.
pub release_lem :
    (buf : ℕ) (x : Allocation) (r : RingBuf)
    → IsOrdered r
    → IsLive buf x r
    → Releases buf r (release buf r)
release_lem buf x r o v =
    let r' = note buf x.next_available_addr false r in
    rw (release_run buf x r v) (
      noted-Ends buf x.next_available_addr r (drop_unused (suc (length r'.ring_buf_allocations)) r')
        (drop_unused-Ends (suc (length r'.ring_buf_allocations)) r'
          (note-IsOrdered buf x.next_available_addr false r o (o buf x v.noted)) (omega arith)))

-- `release` of any other address aborts.
release_unknown :
    (buf : ℕ) (r : RingBuf) → ((x : Allocation) → ¬ IsLive buf x r) → release buf r ≡ abort
unfolding release
release_unknown buf r h = elim (Option-cases (lookup buf r.ring_buf_allocations)) [
  | inl e ↦ rw (e, release)
  | inr (x, e) ↦ elim (Bool-cases x.in_use) [
    | inl used ↦ absurd (h x (record { noted = e; used = used }))
    | inr idle ↦ rw (e, release, idle)
  ]
]
