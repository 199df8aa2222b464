-- ===== src/ComputeThread/Local.antt =====
-- Memory of a thread's own slice: `local_allocate`, `local_deallocate` and `reset_cache_slice` of
-- `ComputeThread`.
use remus_tutorial.Prelude.{
  ℕ, ◌*◌, u64, none, some, Outcome, done, abort, ◌>>=◌, [], ◌∷◌, Map, lookup, insert, erase,
}
use remus_tutorial.ComputeThread.{
  ComputeThread, CachedBuf, acquire_cached_buf, release_cached_buf, move_cached_buf, in_range,
}

-- `emplace`: a key that is there already fails the assertion. The object that is moved from owns
-- nothing any more when it is destroyed.
abbrev pub emplace : ℕ → CachedBuf → ComputeThread → Outcome ComputeThread
emplace key b t = elim (lookup key t.cached_buf_manager_) [
  | some old ↦ abort
  | none ↦
      (let (mine, moved) = move_cached_buf b in
        release_cached_buf moved
          (record t { cached_buf_manager_ = insert key mine t.cached_buf_manager_ }))
]

unfoldable pub local_allocate : ℕ → ℕ → ℕ → ComputeThread → Outcome (ℕ × ComputeThread)
local_allocate sizeof_t alignof_t num_elements t = do
  let n_bytes = u64 (sizeof_t * num_elements)
  let (b, t1) = acquire_cached_buf n_bytes alignof_t t
  key ← in_range n_bytes b.buf_ t1.cached
  t2 ← emplace key b t1
  place ← in_range n_bytes b.buf_ t2.cached
  done (place, t2)

-- Erasing destroys the object; an address that is not in the map changes nothing.
unfoldable pub local_deallocate : ℕ → ComputeThread → Outcome ComputeThread
local_deallocate buf t = elim (lookup buf t.cached_buf_manager_) [
  | none ↦ done t
  | some b ↦
      (release_cached_buf b (record t { cached_buf_manager_ = erase buf t.cached_buf_manager_ }))
]

unfoldable pub clear_from : Map CachedBuf → ComputeThread → Outcome ComputeThread
clear_from [] t = done t
clear_from ((key, b) ∷ more) t = release_cached_buf b t >>= λ t'. clear_from more t'

unfoldable pub reset_cache_slice : ComputeThread → Outcome ComputeThread
reset_cache_slice t = do
  t' ← clear_from t.cached_buf_manager_ t
  done (record t' { cached_buf_manager_ = [] })
