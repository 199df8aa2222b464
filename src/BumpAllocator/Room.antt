-- ===== src/BumpAllocator/Room.antt =====
-- A block that the local lists hand out has room for the request.
use remus_tutorial.Prelude.{
  ℕ, ◌+◌, ◌≤◌, ◌≡◌, refl, sym, subst, arith, leb, ◌==◌, u64, sub64, if_elim, Option, none, some,
  List, [], ◌∷◌, ◌++◌, insert, leb→le, ==_iff,
}
use remus_tutorial.BumpAllocator.{
  BumpAllocator, calculate_slabclass, header_size, alloc_med_thresh, first_fit, pop_back, freelist,
  take_large, take_small, try_allocate_local, reclaim,
}
use remus_tutorial.BumpAllocator.Local.{freelist-insert}

-- The blocks of a list have at least `class` bytes each; `room` says how many bytes a block has.
abbrev pub AllRoom : (ℕ → ℕ) → ℕ → List ℕ → Type 0
AllRoom room class [] = Unit
AllRoom room class (x ∷ xs) = (class ≤ room x) × AllRoom room class xs

abbrev pub AllChunks : (ℕ → ℕ) → List (ℕ × ℕ) → Type 0
AllChunks room [] = Unit
AllChunks room ((chunk, x) ∷ xs) = (chunk ≤ room x) × AllChunks room xs

-- Every block stands in a list whose class is no larger than the block.
pub record Holds (room : ℕ → ℕ) (a : BumpAllocator) : Type 0 where
  pub lists : (class : ℕ) → AllRoom room class (freelist class a.freelists_)
  pub chunks : AllChunks room a.free_blocks_

-- What a local allocation returns, if anything, is the pointer into a block with enough room.
abbrev pub Gives : (ℕ → ℕ) → ℕ → Option ℕ → Type 0
Gives room size none = Unit
Gives room size (some ptr) = (block : ℕ) × (ptr ≡ u64 (block + header_size)) × (size ≤ room block)

module _ (room : ℕ → ℕ) where
  append-AllRoom :
      (class : ℕ) (xs : List ℕ) (x : ℕ)
      → AllRoom room class xs
      → class ≤ room x
      → AllRoom room class (xs ++ (x ∷ []))
  append-AllRoom class [] x all h = (h, tt)
  append-AllRoom class (y ∷ xs) x (first, all) h = (first, append-AllRoom class xs x all h)

  append-AllChunks :
      (xs : List (ℕ × ℕ)) (chunk x : ℕ)
      → AllChunks room xs
      → chunk ≤ room x
      → AllChunks room (xs ++ ((chunk, x) ∷ []))
  append-AllChunks [] chunk x all h = (h, tt)
  append-AllChunks (y ∷ xs) chunk x (first, all) h = (first, append-AllChunks xs chunk x all h)

  -- What is left of a list after its last element, and that element.
  abbrev Popped : ℕ → Option (ℕ × List ℕ) → Type 0
  Popped class none = Unit
  Popped class (some (x, xs)) = (class ≤ room x) × AllRoom room class xs

  pop_back-Popped : (class : ℕ) (xs : List ℕ) → AllRoom room class xs → Popped class (pop_back xs)
  unfolding pop_back
  pop_back-Popped class [] all = tt
  pop_back-Popped class (x ∷ xs) (first, all) = step (pop_back xs) (pop_back-Popped class xs all)
    where
      step :
          (o : Option (ℕ × List ℕ))
          → Popped class o
          → Popped class (elim o [ none ↦ some (x, []) | some (y, ys) ↦ some (y, x ∷ ys) ])
      step none h = (first, tt)
      step (some (y, ys)) (last, h) = (last, (first, h))

  abbrev Fitted : ℕ → Option (ℕ × List (ℕ × ℕ)) → Type 0
  Fitted size none = Unit
  Fitted size (some (x, xs)) = (size ≤ room x) × AllChunks room xs

  first_fit-Fitted :
      (size : ℕ) (xs : List (ℕ × ℕ)) → AllChunks room xs → Fitted size (first_fit size xs)
  unfolding first_fit
  first_fit-Fitted size [] all = tt
  first_fit-Fitted size ((chunk, x) ∷ xs) (first, all) =
      if_elim (Fitted size) (leb size chunk) (λ fits. (omega (arith, leb→le size chunk fits), all))
        (λ more. step (first_fit size xs) (first_fit-Fitted size xs all))
    where
      step :
          (o : Option (ℕ × List (ℕ × ℕ)))
          → Fitted size o
          → Fitted size
              (elim o [ none ↦ none | some (found, left) ↦ some (found, (chunk, x) ∷ left) ])
      step none h = tt
      step (some (y, ys)) (fits, h) = (fits, (first, h))

  with_list-Holds :
      (a : BumpAllocator) (class : ℕ) (l : List ℕ)
      → Holds room a
      → AllRoom room class l
      → Holds room (record a { freelists_ = insert class l a.freelists_ })
  with_list-Holds a class l h all = record {
    lists = λ j. subst (AllRoom room j) (sym (freelist-insert class j l a.freelists_)) (
        if_elim (AllRoom room j) (class == j)
          (λ same. subst (λ i. AllRoom room i l) ((==_iff class j).0 same) all)
          (λ other. h.lists j));
    chunks = h.chunks;
  }

  -- Reclaiming a block with enough room for the class of its size keeps every block in a list whose
  -- class is no larger than the block.
  pub reclaim-Holds :
      (ptr size : ℕ) (a : BumpAllocator)
      → Holds room a
      → calculate_slabclass size ≤ room (sub64 ptr header_size)
      → Holds room (reclaim ptr size a)
  unfolding reclaim
  reclaim-Holds ptr size a h fits =
      let class : ℕ = calculate_slabclass size in
      if_elim (Holds room) (leb class alloc_med_thresh)
        (λ small. with_list-Holds a class _ h (append-AllRoom class _ _ (h.lists class) fits))
        (λ large. record {
          lists = h.lists;
          chunks = append-AllChunks a.free_blocks_ class _ h.chunks fits;
        })

  -- A local allocation returns a block with room for the request, or none, and keeps every block
  -- in a list whose class is no larger than the block.
  pub try_allocate_local-Gives :
      (size : ℕ) (a : BumpAllocator)
      → Holds room a
      → let (got, a') = try_allocate_local size a in Gives room size got × Holds room a'
  unfolding try_allocate_local
  try_allocate_local-Gives size a h =
      if_elim (λ ((got, a') : Option ℕ × BumpAllocator). Gives room size got × Holds room a')
        (leb size alloc_med_thresh)
        (λ small.
          from_list (pop_back (freelist size a.freelists_)) (pop_back-Popped size _ (h.lists size)))
        (λ large. from_chunks (first_fit size a.free_blocks_) (first_fit-Fitted size _ h.chunks))
    where
      from_list :
          (o : Option (ℕ × List ℕ))
          → Popped size o
          → Gives room size (take_small o size a).0 × Holds room (take_small o size a).1
      from_list none p = (tt, with_list-Holds a size [] h tt)
      from_list (some (ptr, left)) (fits, all) =
          ((ptr, refl, fits), with_list-Holds a size left h all)

      from_chunks :
          (o : Option (ℕ × List (ℕ × ℕ)))
          → Fitted size o
          → Gives room size (take_large o a).0 × Holds room (take_large o a).1
      from_chunks none p = (tt, h)
      from_chunks (some (ptr, left)) (fits, all) =
          ((ptr, refl, fits), record { lists = h.lists; chunks = all })
