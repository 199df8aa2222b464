-- ===== src/BumpAllocator/Tests.antt =====
-- Runs of the allocator, and uses of the theorems at concrete inputs.
use remus_tutorial.Prelude.{
  ℕ, sym, ◌+◌, ◌*◌, ◌^◌, ◌≤◌, ◌≡◌, ◌≢◌, arith, refl, u64, ◌==◌, if◌then◌else◌, lookup, done, [],
  ◌∷◌,
}
use remus_tutorial.MnAllocPolicy.{MnAllocPolicy, Policy}
use remus_tutorial.MnAllocPolicy.Range.{IsValid}
use remus_tutorial.BumpAllocator.{
  BumpAllocator, calculate_slabclass, compute_size, freelist, try_allocate_local, reclaim,
}
use remus_tutorial.BumpAllocator.Room.{Holds, Gives, reclaim-Holds, try_allocate_local-Gives}
use remus_tutorial.BumpAllocator.Remote.{Remote}
use remus_tutorial.BumpAllocator.Global.{try_segment, try_allocate_global}
use remus_tutorial.BumpAllocator.Search.{global_rr_allocates}
use remus_tutorial.BumpAllocator.Grant.{Grants, try_segment-Grants}
use remus_tutorial.BumpAllocator.Heap.{allocate, deallocate, allocate-deallocate}
use remus_tutorial.BumpAllocator.Apart.{attempts, attempts-IsApart, IsApart}

-- Words by address, and one hint for each segment.
record Words : Type 0 where
  word : ℕ → ℕ
  hints : ℕ → ℕ → ℕ

abbrev store : (ℕ → ℕ) → ℕ → ℕ → ℕ → ℕ
store word p v q = if p == q then v else word q

store_self : (word : ℕ → ℕ) (p v : ℕ) → store word p v p ≡ v
store_self word p v = ground arith

store_other : (word : ℕ → ℕ) (p v q : ℕ) → p ≢ q → store word p v q ≡ word q
store_other word p v q ne = ground arith

hint_self :
    (hints : ℕ → ℕ → ℕ) (mn seg v : ℕ)
    → (if mn == mn then if seg == seg then v else hints mn seg else hints mn seg) ≡ v
hint_self hints mn seg v = ground arith

-- Segments of 4096 bytes, two for each node.
abbrev two_segments : Remote
two_segments = record {
  World = Words;
  read = λ p w. w.word p;
  seg_locator = λ mn seg. (mn + 1) * 2 ^ 48 + seg * 4096;
  hint = λ mn seg w. w.hints mn seg;
  set_hint = λ mn seg v w. record {
    word = w.word;
    hints = λ m s. if mn == m then if seg == s then v else w.hints m s else w.hints m s;
  };
  faa = λ p v w. (w.word p, record { word = store w.word p (u64 (w.word p + v)); hints = w.hints });
  writer = λ p v w. record { word = store w.word p (u64 v); hints = w.hints };
  faa_was = λ p v w. refl;
  faa_self = λ p v w. store_self w.word p (u64 (w.word p + v));
  faa_other = λ p q v w ne. store_other w.word p (u64 (w.word p + v)) q ne;
  faa_hint = λ p v mn seg w. refl;
  writer_self = λ p v w. store_self w.word p (u64 v);
  writer_other = λ p q v w ne. store_other w.word p (u64 v) q ne;
  writer_hint = λ p v mn seg w. refl;
  set_hint_self = λ mn seg v w. hint_self w.hints mn seg v;
  set_hint_read = λ mn seg v p w. refl;
}

abbrev fresh : Words
fresh = record { word = λ p. 64; hints = λ mn seg. 64 }

abbrev policy : MnAllocPolicy
policy = record {
  policy_ = Policy.global_rr;
  prng_ = record { seed = 7 };
  num_segs_ = 2;
  num_mns_ = 2;
  total_segs_ = 4;
  last_mn_ = 0;
  last_seg_ = 1;
}

policy-IsValid : IsValid policy
policy-IsValid = record {
  segs = omega arith;
  mns = omega arith;
  total = refl;
  small = omega arith;
  mn_in = omega arith;
  seg_in = omega arith;
}

abbrev empty : BumpAllocator
empty = record { seg_size_ = 4096; freelists_ = []; free_blocks_ = []; mn_alloc_pol_ = policy }

classes :
    (calculate_slabclass 65 ≡ 128)
    × (calculate_slabclass 1025 ≡ 2048)
    × (calculate_slabclass 8193 ≡ 8256)
    × (compute_size 8 6 ≡ 64)
unfolding calculate_slabclass compute_size
classes = (refl, refl, refl, refl)

class_128 : calculate_slabclass 128 ≤ 8192
unfolding calculate_slabclass
class_128 = omega arith

-- Every block has 4096 bytes.
abbrev room : ℕ → ℕ
room block = 4096

empty-Holds : Holds room empty
unfolding freelist lookup
empty-Holds = record { lists = λ class. tt; chunks = tt }

class_128-fits : calculate_slabclass 128 ≤ 4096
unfolding calculate_slabclass
class_128-fits = omega arith

reclaimed-Holds : Holds room (reclaim 4176 128 empty)
reclaimed-Holds = reclaim-Holds room 4176 128 empty empty-Holds class_128-fits

try_allocate_local-Gives_example :
    let (got, a') = try_allocate_local 128 (reclaim 4176 128 empty) in
    Gives room 128 got × Holds room a'
try_allocate_local-Gives_example =
    try_allocate_local-Gives room 128 (reclaim 4176 128 empty) reclaimed-Holds

try_segment-Grants_example :
    Grants two_segments 4096 128 1 0 fresh (try_segment two_segments 4096 128 1 0 fresh)
try_segment-Grants_example =
    try_segment-Grants two_segments 4096 128 1 0 fresh (omega arith) (omega arith) (omega arith)
      (omega arith)

attempts-IsApart_example :
    IsApart
      (2 ^ 48 * 2 + 64)
      (2 ^ 48 * 2 + 4096)
      (attempts two_segments 4096 1 0 (128 ∷ 2048 ∷ 2048 ∷ 64 ∷ []) fresh)
attempts-IsApart_example =
    attempts-IsApart two_segments 4096 1 0 (128 ∷ 2048 ∷ 2048 ∷ 64 ∷ []) fresh (omega arith)
      (omega arith) (omega arith, (omega arith, (omega arith, (omega arith, tt)))) (omega arith)

global_rr_allocates_example :
    (result : ℕ × MnAllocPolicy × Words) × (try_allocate_global two_segments 4 4096 128 policy fresh
      ≡ done result)
global_rr_allocates_example =
    global_rr_allocates two_segments 4096 128 fresh 1 0 policy-IsValid refl (omega arith)
      (omega arith) (record { by_hint = omega arith; by_counter = omega arith })

-- The header of a block at 4160 holds the size 64.
abbrev one_block : Words
one_block = record { word = store (λ p. 0) 4160 64; hints = λ mn seg. 64 }

one_block-size : compute_size 8 6 ≡ 64
unfolding compute_size calculate_slabclass
one_block-size = refl

allocate-deallocate_example :
    (a' : BumpAllocator) × (allocate two_segments 0 8 6
        (deallocate two_segments 4176 empty one_block)
        one_block
      ≡ done (4176, a', one_block))
allocate-deallocate_example =
    allocate-deallocate two_segments 0 8 6 4176 empty one_block (omega arith) (omega arith)
      (sym one_block-size) (omega arith) (omega (arith, one_block-size))
