-- ===== src/BumpAllocator/Heap.antt =====
-- `allocate` and `deallocate` of rdma/include/remus/compute_thread.h: the local lists first, then the
-- segments of the memory nodes.
use remus_tutorial.Prelude.{
  ℕ, ◌+◌, ◌*◌, ◌^◌, ◌≤◌, ◌<◌, ◌≡◌, ap, subst, arith, sub64, Option, none, some, Outcome, done,
  ◌>>=◌,
}
use remus_tutorial.BumpAllocator.{
  BumpAllocator, compute_size, header_size, alloc_med_thresh, try_allocate_local, reclaim,
}
use remus_tutorial.BumpAllocator.Classes.{compute_size-class}
use remus_tutorial.BumpAllocator.Local.{allocate-reclaim}
use remus_tutorial.BumpAllocator.Remote.{Remote}
use remus_tutorial.BumpAllocator.Global.{try_allocate_global}

module _ (r : Remote) where
  abbrev allocate_from :
      Option ℕ → ℕ → ℕ → BumpAllocator → r.World → Outcome (ℕ × BumpAllocator × r.World)
  allocate_from (some ptr) fuel size a w = done (ptr, a, w)
  allocate_from none fuel size a w = do
    (ptr, p, w') ← try_allocate_global r fuel a.seg_size_ size a.mn_alloc_pol_ w
    done (ptr, record a { mn_alloc_pol_ = p }, w')

  -- `n` elements of `sizeof_t` bytes; `fuel` bounds the turns of the loop over the segments.
  unfoldable pub allocate :
      ℕ → ℕ → ℕ → BumpAllocator → r.World → Outcome (ℕ × BumpAllocator × r.World)
  allocate fuel sizeof_t n a w =
      let size = compute_size sizeof_t n in
      let (local, a') = try_allocate_local size a in allocate_from local fuel size a' w

  -- The size is read from the header.
  unfoldable pub deallocate : ℕ → BumpAllocator → r.World → BumpAllocator
  deallocate ptr a w = reclaim ptr (r.read (sub64 ptr header_size) w) a

  -- Memory that is given back, with the size of a request in its header that is at most 8192, is what
  -- the next request of that size gets, without any turn of the loop over the segments. The pointer
  -- is behind a header, and the size of the request does not overflow.
  pub allocate-deallocate :
      (fuel sizeof_t n ptr : ℕ) (a : BumpAllocator) (w : r.World)
      → header_size ≤ ptr
      → ptr < 2 ^ 64
      → r.read (sub64 ptr header_size) w ≡ compute_size sizeof_t n
      → sizeof_t * n + header_size + 1023 < 2 ^ 64
      → compute_size sizeof_t n ≤ alloc_med_thresh
      → (a' : BumpAllocator) × (allocate fuel sizeof_t n (deallocate ptr a w) w ≡ done (ptr, a', w))
  unfolding allocate deallocate
  allocate-deallocate fuel sizeof_t n ptr a w above small header fits le =
      let size : ℕ = compute_size sizeof_t n in
      let class = compute_size-class sizeof_t n fits in
      let back : (try_allocate_local size (reclaim ptr size a)).0 ≡ some ptr =
        subst (λ c. (try_allocate_local c (reclaim ptr size a)).0 ≡ some ptr) class
          ((allocate-reclaim ptr size a above small (omega (arith, class, le))).0) in
      let after : BumpAllocator = (try_allocate_local size (reclaim ptr size a)).1 in
      (after, rw (header) (ap (λ o. allocate_from o fuel size after w) back))
