-- ===== src/BumpAllocator/Local.antt =====
-- A block that was reclaimed is what the next request of its class gets.
use remus_tutorial.Prelude.{
  ℕ, ◌+◌, ◌^◌, ◌≤◌, ◌<◌, ◌≡◌, ◌∙◌, refl, ap, arith, leb, ◌==◌, u64, sub64, if◌then◌else◌, if_elim,
  true, some, List, [], ◌∷◌, ◌++◌, Map, insert, lookup-insert, ==_iff,
}
use remus_tutorial.BumpAllocator.{
  BumpAllocator, calculate_slabclass, header_size, alloc_med_thresh, pop_back, freelist, take_small,
  try_allocate_local, reclaim,
}

pop_back-append : (xs : List ℕ) (x : ℕ) → pop_back (xs ++ (x ∷ [])) ≡ some (x, xs)
unfolding pop_back
pop_back-append [] x = refl
pop_back-append (y ∷ xs) x = rw (pop_back-append xs x) refl

pub freelist-insert :
    (k j : ℕ) (l : List ℕ) (m : Map (List ℕ))
    → freelist j (insert k l m) ≡ (if k == j then l else freelist j m)
unfolding freelist
freelist-insert k j l m = rw (lookup-insert k j l m, freelist) (ground arith)

freelist-insert_self : (k : ℕ) (l : List ℕ) (m : Map (List ℕ)) → freelist k (insert k l m) ≡ l
freelist-insert_self k l m = freelist-insert k k l m ∙ ground arith

le→leb : (a b : ℕ) → a ≤ b → leb a b ≡ true
le→leb a b h = ground arith

module _ (size : ℕ) (a : BumpAllocator) where
  take_small-block :
      (left : List ℕ) (block : ℕ)
      → freelist size a.freelists_ ≡ left ++ (block ∷ [])
      → take_small (pop_back (freelist size a.freelists_)) size a ≡ (
        some (u64 (block + header_size)),
        record a { freelists_ = insert size left a.freelists_ },
      )
  take_small-block left block e =
      ap (λ l. take_small (pop_back l) size a) e
      ∙ ap (λ o. take_small o size a) (pop_back-append left block)

  try_allocate_local-small :
      size ≤ alloc_med_thresh
      → try_allocate_local size a ≡ take_small (pop_back (freelist size a.freelists_)) size a
  unfolding try_allocate_local
  try_allocate_local-small h = rw (le→leb size alloc_med_thresh h) refl

abbrev with_block : ℕ → ℕ → BumpAllocator → BumpAllocator
with_block class block a = record a {
  freelists_ = insert class (freelist class a.freelists_ ++ (block ∷ [])) a.freelists_;
}

reclaim-small :
    (ptr size : ℕ) (a : BumpAllocator)
    → calculate_slabclass size ≤ alloc_med_thresh
    → reclaim ptr size a ≡ with_block (calculate_slabclass size) (sub64 ptr header_size) a
unfolding reclaim
reclaim-small ptr size a h = rw (le→leb (calculate_slabclass size) alloc_med_thresh h) refl

-- The lists after a block was put in and taken out.
put_back :
    (class j : ℕ) (l : List ℕ) (m : Map (List ℕ))
    → freelist j (insert class (freelist class m) (insert class l m)) ≡ freelist j m
put_back class j l m =
    freelist-insert class j (freelist class m) (insert class l m)
    ∙ if_elim (λ t. t ≡ freelist j m) (class == j)
        (λ same. ap (λ i. freelist i m) ((==_iff class j).0 same))
        (λ other. freelist-insert class j l m ∙ rw other refl)

-- A block of a class up to 8192, with a pointer behind a header, that is reclaimed is what the next request of its class gets, and
-- the lists are then as before.
pub allocate-reclaim :
    (ptr size : ℕ) (a : BumpAllocator)
    → header_size ≤ ptr
    → ptr < 2 ^ 64
    → calculate_slabclass size ≤ alloc_med_thresh
    → let (got, a') = try_allocate_local (calculate_slabclass size) (reclaim ptr size a) in
      (got ≡ some ptr)
      × ((class : ℕ) → freelist class a'.freelists_ ≡ freelist class a.freelists_)
      × (a'.free_blocks_ ≡ a.free_blocks_)
allocate-reclaim ptr size a above small h =
    let class : ℕ = calculate_slabclass size in
    let block : ℕ = sub64 ptr header_size in
    let l : List ℕ = freelist class a.freelists_ in
    let e : try_allocate_local class (reclaim ptr size a) ≡ (
      some (u64 (block + header_size)),
      record a { freelists_ = insert class l (insert class (l ++ (block ∷ [])) a.freelists_) },
    ) =
      ap (try_allocate_local class) (reclaim-small ptr size a h)
      ∙ try_allocate_local-small class (with_block class block a) h
      ∙ take_small-block class (with_block class block a) l block
          (freelist-insert_self class (l ++ (block ∷ [])) a.freelists_) in
    (
      ap (λ r. r.0) e ∙ ap some (omega arith),
      λ j.
          ap (λ r. freelist j r.1.freelists_) e ∙ put_back class j (l ++ (block ∷ [])) a.freelists_,
      ap (λ r. r.1.free_blocks_) e,
    )
