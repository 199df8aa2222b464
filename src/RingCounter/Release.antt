-- ===== src/RingCounter/Release.antt =====
-- `release` gives a held slot back and frees the oldest slots that are given back; anything else
-- fails its assertion.
use native.Mathlib.Nat.{mod-lt, mod-add-mod}
use remus_tutorial.Prelude.{
  wrap, ℕ, zero, suc, ◌+◌, ◌-◌, ◌%◌, ◌<◌, ◌≡◌, ◌≢◌, Bool, true, false, Option, none, some, [], ◌∷◌,
  length, get_elem?, set, arith, refl, done, abort, Outcome, ap, ◌∙◌, sym, subst, length-set,
  get_elem?-set_self, get_elem?-set_ne, get_elem?_lt, get_elem?-eq-none, ℕ_discrete, dec_lt,
}
use remus_tutorial.RingCounter.{RingCounter, available, to_be_freed, release, free_from}
use remus_tutorial.RingCounter.Queue
use remus_tutorial.RingCounter.Queue.{Queue, IsTrimmed, trim, trim-IsTrimmed}
use remus_tutorial.RingCounter.Shows.{Covers, Shows, place_inj, entry_of, state_of}

first_cell :
    {q : Queue} {r : RingCounter}
    → Covers q r
    → get_elem? r.counter_assignments r.counter_start ≡ some (state_of (get_elem? q 0))
first_cell {q} {r} v =
    ap (get_elem? r.counter_assignments)
      (omega (arith, wrap r.counter_num (r.counter_start + 0) (omega arith)))
    ∙ v.cells 0 (omega arith)

-- The ring after one round of the loop.
abbrev freed : RingCounter → RingCounter
freed r = record r {
  counter_assignments = set r.counter_assignments r.counter_start available;
  counter_start = (r.counter_start + 1) % r.counter_num;
}

module _ {q : Queue} {r : RingCounter} (v : Covers (true ∷ q) r) where
  open r use {counter_start as s, counter_num as n, counter_assignments as slots}

  -- The next place counted from the new start.
  shift : (i : ℕ) → ((s + 1) % n + i) % n ≡ (s + suc i) % n
  shift i = mod-add-mod (s + 1) n i ∙ ap (λ k. k % n) (omega arith)

  freed-cells :
      (i : ℕ)
      → i < n
      → get_elem? (set slots s available) (((s + 1) % n + i) % n) ≡ some (state_of (get_elem? q i))
  freed-cells i hi = ap (get_elem? (set slots s available)) (shift i) ∙ at_shifted
    where
      at_shifted :
          get_elem? (set slots s available) ((s + suc i) % n) ≡ some (state_of (get_elem? q i))
      at_shifted = elim (dec_lt (suc i) n) [
        | yes inside ↦
            get_elem?-set_ne slots s ((s + suc i) % n) available
              (λ e. absurd (omega (arith, wrap n (s + suc i) (omega arith))))
            ∙ v.cells (suc i) inside
        | no last ↦
            ap (get_elem? (set slots s available)) (omega (arith, wrap n (s + suc i) (omega arith)))
            ∙ get_elem?-set_self slots s available (omega arith)
            ∙ sym (ap (λ o. some (state_of o)) (get_elem?-eq-none q i (omega arith)))
      ]

  freed-Covers : Covers q (freed r)
  freed-Covers = record {
    slots = length-set slots s available ∙ v.slots;
    start_in = mod-lt (s + 1) (omega arith);
    few = omega arith;
    end_at = v.end_at ∙ sym (shift (length q));
    cells = freed-cells;
  }

-- With more fuel than entries the loop ends; it has dropped the entries that were given back.
free_from-Covers :
    (fuel : ℕ) (q : Queue) (r : RingCounter)
    → length q < fuel
    → Covers q r
    → (r' : RingCounter) × (free_from fuel r ≡ done r')
      × Covers (trim q) r'
      × (r'.counter_num ≡ r.counter_num)
unfolding free_from trim
free_from-Covers zero q r h v = absurd (omega arith)
free_from-Covers (suc fuel) [] r h v = (r, rw (first_cell v, free_from), v, refl)
free_from-Covers (suc fuel) (false ∷ q) r h v = (r, rw (first_cell v, free_from), v, refl)
free_from-Covers (suc fuel) (true ∷ q) r h v =
    let (r', run, covers, same) =
      free_from-Covers fuel q (freed r) (omega arith) (freed-Covers v) in
    (r', rw (first_cell v, free_from) run, covers, same)

-- The ring after the released slot is marked.
abbrev marked : ℕ → RingCounter → RingCounter
marked idx r = record r { counter_assignments = set r.counter_assignments idx to_be_freed }

module _ {q : Queue} {r : RingCounter} (v : Covers q r) (k : ℕ)
    (held : get_elem? q k ≡ some false) where
  open r use {counter_start as s, counter_num as n, counter_assignments as slots}

  marked-Covers : Covers (set q k true) (marked ((s + k) % n) r)
  marked-Covers = record {
    slots = length-set slots ((s + k) % n) to_be_freed ∙ v.slots;
    start_in = v.start_in;
    few = omega (arith, length-set q k true);
    end_at = v.end_at ∙ ap (λ m. (s + m) % n) (sym (length-set q k true));
    cells = λ i hi. elim (ℕ_discrete k i) [
      | yes same ↦ ground (
        arith,
        v.slots,
        mod-lt (s + k) {m = n},
        get_elem?-set_self slots ((s + k) % n) to_be_freed,
        get_elem?-set_self q k true,
        get_elem?_lt q k held,
      )
      | no other ↦ ground (
        arith,
        v.cells i,
        get_elem?_lt q k held,
        place_inj n s k i,
        get_elem?-set_ne slots ((s + k) % n) ((s + i) % n) to_be_freed,
        get_elem?-set_ne q k i true,
      )
    ];
  }

-- What a call ends in, as the queue says: an aborted call, or a ring that stands for a queue.
-- The number of slots is `n`.
abbrev pub Refines : ℕ → Option Queue → Outcome RingCounter → Type 0
Refines n none o = o ≡ abort
Refines n (some q) o = (r : RingCounter) × (o ≡ done r) × Shows q r × (r.counter_num ≡ n)

module _ {q : Queue} {r : RingCounter} (v : Shows q r) (idx : ℕ)
    (inside : idx < r.counter_num) where
  open r use {counter_start as s, counter_num as n, counter_assignments as slots}

  abbrev entry : ℕ
  entry = entry_of idx r

  -- The place of that entry is the slot.
  entry_place : (s + entry) % n ≡ idx
  entry_place = omega (
    arith,
    v.covers.start_in,
    wrap n (idx + n - s) (omega arith),
    wrap n (s + entry) (omega (arith, mod-lt (idx + n - s) {m = n})),
  )

  slot_state : get_elem? slots idx ≡ some (state_of (get_elem? q entry))
  slot_state =
      ap (get_elem? slots) (sym entry_place)
      ∙ v.covers.cells entry (mod-lt (idx + n - s) (omega arith))

  slot_of : (o : Option Bool) → get_elem? q entry ≡ o → get_elem? slots idx ≡ some (state_of o)
  slot_of o e = slot_state ∙ ap (λ t. some (state_of t)) e

  refused :
      (o : Option Bool)
      → get_elem? q entry ≡ o
      → o ≢ some false
      → (Queue.release entry q ≡ none) × (release idx r ≡ abort)
  unfolding release Queue.release
  refused none e h = (rw (e, Queue.release), rw (slot_of none e, release))
  refused (some true) e h = (rw (e, Queue.release), rw (slot_of (some true) e, release))
  refused (some false) e h = absurd (h refl)

  marks :
      get_elem? q entry ≡ some false
      → (Queue.release entry q ≡ some (trim (set q entry true)))
        × (release idx r ≡ free_from (suc n) (marked idx r))
  unfolding release Queue.release
  marks e = (rw (e, Queue.release), rw (slot_of (some false) e, release))

  gives_back :
      get_elem? q entry ≡ some false
      → (r' : RingCounter) × (release idx r ≡ done r')
        × Shows (trim (set q entry true)) r'
        × (r'.counter_num ≡ n)
  gives_back e =
      let covers =
        subst (λ place. Covers (set q entry true) (marked place r)) entry_place
          (marked-Covers v.covers entry e) in
      let (r', run, kept, same) =
        free_from-Covers (suc n) (set q entry true) (marked idx r) (omega (arith, covers.few))
          covers in
      (
        r',
        (marks e).1 ∙ run,
        record { covers = kept; trimmed = trim-IsTrimmed (set q entry true) },
        same,
      )

  -- On every slot of the ring `release` does what the queue does at that slot's entry: it gives a
  -- held entry back and drops the oldest entries that are given back, and it aborts on a slot that
  -- is free or was already given back. The number of slots stays.
  pub release-Refines : Refines n (Queue.release entry q) (release idx r)
  release-Refines = cases (get_elem? q entry) refl
    where
      abort_both :
          (o : Option Bool)
          → get_elem? q entry ≡ o
          → o ≢ some false
          → Refines n (Queue.release entry q) (release idx r)
      abort_both o e h = let (spec, run) = refused o e h in rw spec run

      cases :
          (o : Option Bool)
          → get_elem? q entry ≡ o
          → Refines n (Queue.release entry q) (release idx r)
      cases none e = abort_both none e (λ h. cc)
      cases (some true) e = abort_both (some true) e (λ h. cc)
      cases (some false) e = rw ((marks e).0) (gives_back e)
