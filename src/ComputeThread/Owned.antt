-- ===== src/ComputeThread/Owned.antt =====
-- The map of the blocks that a thread holds, after `local_allocate`.
use remus_tutorial.Prelude.{
  ℕ, ◌+◌, ◌*◌, ◌≡◌, ◌≢◌, refl, ◌∙◌, arith, ◌==◌, ==_iff, false, ◌&&◌, leb, Bool-cases, inl, inr,
  u64, Option, none, some, Option-cases, Outcome, done, abort, fault, diverge, ◌>>=◌, lookup,
  lookup-insert,
}
use remus_tutorial.RingBuf
use remus_tutorial.RingBuf.{RingBuf, limit}
use remus_tutorial.ComputeThread.{
  ComputeThread, CachedBuf, acquire_cached_buf, release_cached_buf, move_cached_buf, in_range,
}
use remus_tutorial.ComputeThread.Local.{emplace, local_allocate}

-- The block was not held, it is held now, and the other blocks are held as before; or the call aborts.
abbrev pub Grants : ComputeThread → Outcome (ℕ × ComputeThread) → Type 0
Grants t (done (buf, t')) =
    (lookup buf t.cached_buf_manager_ ≡ none)
    × ((size : ℕ) × (lookup buf t'.cached_buf_manager_
          ≡ some (record { size_ = size; buf_ = some buf })))
    × ((k : ℕ) → k ≢ buf → lookup k t'.cached_buf_manager_ ≡ lookup k t.cached_buf_manager_)
Grants t abort = Unit
Grants t fault = ⊥
Grants t diverge = ⊥

module _ (t : ComputeThread) (size : ℕ) (ring : RingBuf) where
  abbrev t1 : ComputeThread
  t1 = record t { cached = ring }

  abbrev keep : Option ℕ → Outcome (ℕ × ComputeThread)
  keep buf = do
    key ← in_range size buf ring
    t2 ← emplace key (record { size_ = size; buf_ = buf }) t1
    place ← in_range size buf t2.cached
    done (place, t2)

  keep-Grants : (buf : Option ℕ) → Grants t (keep buf)
  unfolding in_range release_cached_buf move_cached_buf
  keep-Grants none = tt
  keep-Grants (some buf) =
      elim (Bool-cases (leb ring.ring_buf buf && leb (u64 (buf + size)) (limit ring))) [
        | inr outside ↦ rw (outside) tt
        | inl inside ↦ elim (Option-cases (lookup buf t.cached_buf_manager_)) [
          | inr (old, held) ↦ rw (inside, emplace, held) tt
          | inl free ↦
              rw (inside, emplace, free, inside)
                (let mine : CachedBuf = record { size_ = size; buf_ = some buf } in
                  (
                    free,
                    (
                      size,
                      lookup-insert buf buf mine t.cached_buf_manager_
                          ∙ rw ((==_iff buf buf).1 refl) refl,
                    ),
                    λ k other.
                        lookup-insert buf k mine t.cached_buf_manager_
                        ∙ rw (differs buf k other) refl,
                  ))
        ]
      ]
    where
      differs : (buf k : ℕ) → k ≢ buf → (buf == k) ≡ false
      differs buf k h = ground (arith, h)

-- No block was noted in the map under the address that `local_allocate` returns, and the other blocks
-- of the map stay as they are; where the address has a block already the call aborts. Blocks that
-- start elsewhere may still overlap with the new one.
pub local_allocate-Grants :
    (sizeof_t alignof_t num_elements : ℕ) (t : ComputeThread)
    → Grants t (local_allocate sizeof_t alignof_t num_elements t)
unfolding local_allocate acquire_cached_buf
local_allocate-Grants sizeof_t alignof_t num_elements t =
    let size = u64 (sizeof_t * num_elements) in
    let (buf, ring) = RingBuf.acquire size alignof_t t.cached in keep-Grants t size ring buf
