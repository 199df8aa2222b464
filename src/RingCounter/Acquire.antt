-- ===== src/RingCounter/Acquire.antt =====
-- `acquire` takes the slot after the youngest, or refuses a full ring.
use native.Mathlib.Nat.{mod-lt, mod-add-mod}
use remus_tutorial.Prelude.{
  wrap, ℕ, ◌+◌, ◌-◌, ◌%◌, ◌<◌, ◌≡◌, ◌⊎◌, inl, inr, false, none, some, [], ◌∷◌, ◌++◌, length,
  get_elem?, set, arith, refl, done, ap, ◌∙◌, length-set, get_elem?-set_self, get_elem?-set_ne,
  get_elem?-append_self, get_elem?-append_ne, get_elem?-eq-none, length-append, get_elem?-replicate,
  length-replicate, ℕ_discrete,
}
use remus_tutorial.RingCounter.{RingCounter, available, in_use, acquire, fresh}
use remus_tutorial.RingCounter.Queue.{Queue, IsTrimmed}
use remus_tutorial.RingCounter.Shows.{Covers, Shows, place_inj, entry_of, state_of}

fresh-Covers : (n : ℕ) → 0 < n → Covers [] (fresh n)
unfolding fresh
fresh-Covers n h = record {
  slots = length-replicate n available;
  start_in = h;
  few = omega arith;
  end_at = omega (arith, wrap n 0 (omega arith));
  cells = λ i hi. get_elem?-replicate n ((0 + i) % n) available (omega (arith, wrap n (0 + i)));
}

-- The ring that `ComputeThread` sets up stands for the empty queue.
pub fresh-Shows : (n : ℕ) → 0 < n → Shows [] (fresh n)
fresh-Shows n h = record { covers = fresh-Covers n h; trimmed = tt }

-- The ring after a slot is taken.
abbrev taken : RingCounter → RingCounter
taken r = record r {
  counter_assignments = set r.counter_assignments r.counter_end in_use;
  counter_end = (r.counter_end + 1) % r.counter_num;
}

-- The place where the next slot is taken is in range.
end_in : {q : Queue} {r : RingCounter} → Covers q r → r.counter_end < r.counter_num
end_in {q} {r} v =
    omega (arith, v.end_at, v.start_in, mod-lt (r.counter_start + length q) {m = r.counter_num})

module _ {q : Queue} {r : RingCounter} (v : Covers q r) where
  open r use {counter_start as s, counter_end as e, counter_num as n, counter_assignments as slots}

  taken-cells :
      length q < n
      → (i : ℕ) → i < n
      → get_elem? (set slots e in_use) ((s + i) % n)
        ≡ some (state_of (get_elem? (q ++ (false ∷ [])) i))
  taken-cells room i hi = elim (ℕ_discrete i (length q)) [
    | yes same ↦ ground (
      arith,
      v.end_at,
      v.slots,
      end_in v,
      get_elem?-set_self slots e in_use,
      get_elem?-append_self q false,
    )
    | no other ↦ ground (
      arith,
      v.end_at,
      v.cells i,
      place_inj n s i (length q) v.start_in hi room,
      get_elem?-set_ne slots e ((s + i) % n) in_use,
      get_elem?-append_ne q false i,
    )
  ]

  taken-Covers : length q < n → Covers (q ++ (false ∷ [])) (taken r)
  taken-Covers room = record {
    slots = length-set slots e in_use ∙ v.slots;
    start_in = v.start_in;
    few = omega (arith, length-append q (false ∷ []));
    end_at =
        ap (λ k. (k + 1) % n) v.end_at
        ∙ mod-add-mod (s + length q) n 1
        ∙ ap (λ k. k % n) (omega (arith, length-append q (false ∷ [])));
    cells = taken-cells room;
  }

  next_free : length q < n → get_elem? slots e ≡ some available
  next_free room = ground (arith, v.end_at, v.cells (length q) room, get_elem?-eq-none q (length q))

head_held : (q : Queue) → IsTrimmed q → 0 < length q → get_elem? q 0 ≡ some false
head_held [] t h = absurd (omega arith)
head_held (given ∷ q) t h = ap some t

IsTrimmed-append : (q : Queue) → IsTrimmed q → IsTrimmed (q ++ (false ∷ []))
IsTrimmed-append [] t = refl
IsTrimmed-append (given ∷ q) t = t

-- In a full ring the next slot is the oldest one, which is held.
next_held :
    {q : Queue} {r : RingCounter}
    → Shows q r
    → length q ≡ r.counter_num
    → get_elem? r.counter_assignments r.counter_end ≡ some in_use
next_held {q} {r} v full =
    ap (get_elem? r.counter_assignments) same_place
    ∙ v.covers.cells 0 (omega arith)
    ∙ ap (λ o. some (state_of o)) (head_held q v.trimmed (omega arith))
  where
    same_place : r.counter_end ≡ (r.counter_start + 0) % r.counter_num
    same_place = omega (
      arith,
      v.covers.end_at,
      wrap r.counter_num (r.counter_start + length q) (omega arith),
      wrap r.counter_num (r.counter_start + 0) (omega arith),
    )

-- A full ring refuses and stays as it is. Any other ring hands out a free slot, and stands for the
-- queue with one more entry, whose place is that slot; the number of slots stays.
pub acquire-Shows :
    {q : Queue} {r : RingCounter}
    → Shows q r
    → ((length q ≡ r.counter_num) × (acquire r ≡ done (none, r)))
      ⊎ ((r' : RingCounter) × (acquire r ≡ done (some r.counter_end, r'))
          × Shows (q ++ (false ∷ [])) r'
          × (get_elem? r.counter_assignments r.counter_end ≡ some available)
          × (entry_of r.counter_end r ≡ length q)
          × (r'.counter_num ≡ r.counter_num))
unfolding acquire
acquire-Shows {q} {r} v = elim (ℕ_discrete (length q) r.counter_num) [
  | yes full ↦ inl (full, rw (next_held v full))
  | no room ↦ inr (
    taken r,
    rw (next_free v.covers (omega arith)),
    record { covers = taken-Covers v.covers (omega arith); trimmed = IsTrimmed-append q v.trimmed },
    next_free v.covers (omega arith),
    omega (
      arith,
      v.covers.end_at,
      wrap r.counter_num (r.counter_start + length q) (omega arith),
      wrap r.counter_num (r.counter_end + r.counter_num - r.counter_start)
          (omega (arith, end_in v.covers)),
    ),
    refl,
  )
]
