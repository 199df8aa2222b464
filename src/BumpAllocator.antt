-- ===== src/BumpAllocator.antt =====
-- `BumpAllocator` of rdma/include/remus/compute_thread.h: the classes of sizes and the local lists
-- of free blocks. BumpAllocator/Global is the allocation from a segment of a memory node.
pub mod Classes
pub mod Local
pub mod Room
pub mod Remote
pub mod Global
pub mod Search
pub mod Grant
pub mod Apart
pub mod Heap
mod Tests
use remus_tutorial.Prelude.{
  ℕ, zero, suc, ◌+◌, ◌-◌, ◌*◌, ◌/◌, ◌^◌, ◌≤◌, ◌<◌, leb, u64, sub64, if◌then◌else◌, Option, none,
  some, List, [], ◌∷◌, ◌++◌, Map, lookup, insert,
}
use remus_tutorial.Config.{Config}
use remus_tutorial.Rand.{Rand}
use remus_tutorial.MnAllocPolicy
use remus_tutorial.MnAllocPolicy.{MnAllocPolicy}

abbrev pub alloc_small_thresh : ℕ
alloc_small_thresh = 1024

abbrev pub alloc_med_thresh : ℕ
alloc_med_thresh = 8192

-- Two words: the size, and padding.
abbrev pub header_size : ℕ
header_size = 16

unfoldable pub calculate_slabclass : ℕ → ℕ
calculate_slabclass size =
    if leb size alloc_small_thresh
    then u64 (size + 63) / 2 ^ 6 * 2 ^ 6
    else if leb size alloc_med_thresh
    then u64 (size + 1023) / 2 ^ 10 * 2 ^ 10
    else u64 (size + 63) / 2 ^ 6 * 2 ^ 6

-- `n` elements of `sizeof_t` bytes and the header.
unfoldable pub compute_size : ℕ → ℕ → ℕ
compute_size sizeof_t n = calculate_slabclass (u64 (u64 (sizeof_t * n) + header_size))

-- `free_blocks_` holds sizes with addresses.
pub record BumpAllocator : Type 0 where
  pub seg_size_ : ℕ
  pub freelists_ : Map (List ℕ)
  pub free_blocks_ : List (ℕ × ℕ)
  pub mn_alloc_pol_ : MnAllocPolicy

-- The classes that the two loops of the constructor make lists for: `n` of them from `i` on.
abbrev pub empty_lists : ℕ → ℕ → ℕ → Map (List ℕ) → Map (List ℕ)
empty_lists zero i step lists = lists
empty_lists (suc n) i step lists = empty_lists n (i + step) step (insert i [] lists)

-- 15 classes below 1024, and 8 from 1024 to 8192.
unfoldable pub construct : Config → Rand → BumpAllocator
construct args g = record {
  seg_size_ = u64 (2 ^ args.seg_size);
  freelists_ = empty_lists 8 1024 1024 (empty_lists 15 64 64 []);
  free_blocks_ = [];
  mn_alloc_pol_ = MnAllocPolicy.construct args g;
}

-- `std::find_if` and `erase`: the first chunk that is large enough, and the other chunks.
unfoldable pub first_fit : ℕ → List (ℕ × ℕ) → Option (ℕ × List (ℕ × ℕ))
first_fit size [] = none
first_fit size ((chunk, ptr) ∷ more) =
    let rest = first_fit size more in
    if leb size chunk
    then some (ptr, more)
    else elim rest [ none ↦ none | some (found, left) ↦ some (found, (chunk, ptr) ∷ left) ]

-- `back` and `pop_back`, for a vector that is not empty.
unfoldable pub pop_back : List ℕ → Option (ℕ × List ℕ)
pop_back [] = none
pop_back (x ∷ xs) = elim (pop_back xs) [ none ↦ some (x, []) | some (y, ys) ↦ some (y, x ∷ ys) ]

-- `operator[]` of the map: a key that is missing gets an empty vector.
unfoldable pub freelist : ℕ → Map (List ℕ) → List ℕ
freelist size lists = elim (lookup size lists) [ none ↦ [] | some l ↦ l ]

abbrev pub take_large : Option (ℕ × List (ℕ × ℕ)) → BumpAllocator → Option ℕ × BumpAllocator
take_large none a = (none, a)
take_large (some (ptr, left)) a = (some (u64 (ptr + header_size)), record a { free_blocks_ = left })

abbrev pub take_small : Option (ℕ × List ℕ) → ℕ → BumpAllocator → Option ℕ × BumpAllocator
take_small none size a = (none, record a { freelists_ = insert size [] a.freelists_ })
take_small (some (ptr, left)) size a =
    (some (u64 (ptr + header_size)), record a { freelists_ = insert size left a.freelists_ })

unfoldable pub try_allocate_local : ℕ → BumpAllocator → Option ℕ × BumpAllocator
try_allocate_local size a =
    if leb size alloc_med_thresh
    then take_small (pop_back (freelist size a.freelists_)) size a
    else take_large (first_fit size a.free_blocks_) a

-- `ptr` is the raw pointer, and `size` what was read from the header.
unfoldable pub reclaim : ℕ → ℕ → BumpAllocator → BumpAllocator
reclaim ptr size a =
    let slabclass = calculate_slabclass size in
    let block = sub64 ptr header_size in
    if leb slabclass alloc_med_thresh
    then record a {
      freelists_ = insert slabclass (freelist slabclass a.freelists_ ++ (block ∷ [])) a.freelists_;
    }
    else record a { free_blocks_ = a.free_blocks_ ++ ((slabclass, block) ∷ []) }
