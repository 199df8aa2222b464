-- ===== src/ComputeThread/Roots.antt =====
-- The root pointer in segment 0 of memory node 0, and objects that are made and reclaimed:
-- `set_root` to `ReclaimDeferred` of `ComputeThread`.
use remus_tutorial.Prelude.{
  ℕ, ◌+◌, ◌==◌, true, not, u64, Outcome, done, ◌>>=◌, ◌>>◌, assert, List, [], ◌∷◌, ◌++◌,
}
use remus_tutorial.RdmaPtr.{RdmaPtr, of_raw, raw, eq_null}
use remus_tutorial.ComputeNode.{get_seg_start}
use remus_tutorial.BumpAllocator.{BumpAllocator}
use remus_tutorial.BumpAllocator.Remote.{Remote}
use remus_tutorial.BumpAllocator.Heap.{allocate, deallocate}
use remus_tutorial.RdmaOps.Ibv.{Verbs}
use remus_tutorial.ComputeThread.{ComputeThread, Machine}
use remus_tutorial.ComputeThread.Operations.{read, write, compare_and_swap, fetch_and_add}

-- `offsetof(ControlBlock, root_)`
abbrev pub root_at : ℕ
root_at = 32

module _ {v : Verbs} where
  unfoldable pub root_ptr : Machine v → Outcome RdmaPtr
  root_ptr m = get_seg_start 0 0 m.node >>= λ start. done (of_raw (u64 (start + root_at)))

  module _ (fuel : ℕ) where
    unfoldable pub set_root : RdmaPtr → Machine v → Outcome (Machine v)
    set_root root m = root_ptr m >>= λ ptr. write fuel 8 8 ptr (raw root) true 8 true m

    unfoldable pub get_root : Machine v → Outcome (RdmaPtr × Machine v)
    get_root m = do ptr ← root_ptr m; (root, m') ← read fuel 8 8 ptr true m; done (of_raw root, m')

    unfoldable pub cas_root : RdmaPtr → RdmaPtr → Machine v → Outcome (ℕ × Machine v)
    cas_root old_root new_root m =
        root_ptr m >>= λ ptr. compare_and_swap fuel 8 8 ptr (raw old_root) (raw new_root) true m

    unfoldable pub faa_root : ℕ → Machine v → Outcome (ℕ × Machine v)
    faa_root add m = root_ptr m >>= λ ptr. fetch_and_add fuel 8 8 ptr add true m

module _ (r : Remote) where
  -- `New`, on the allocator of the thread.
  unfoldable pub new_object :
      ℕ → ℕ → ℕ → BumpAllocator → r.World → Outcome (ℕ × BumpAllocator × r.World)
  new_object fuel sizeof_t n a w = do
    (ptr, a', w') ← allocate r fuel sizeof_t n a w
    assert (not (eq_null (of_raw ptr)))
    done (ptr, a', w')

  -- `Delete`
  unfoldable pub delete_object : ℕ → BumpAllocator → r.World → Outcome BumpAllocator
  delete_object ptr a w = do assert (not (ptr == 0)); done (deallocate r ptr a w)

  abbrev delete_all : List ℕ → BumpAllocator → r.World → Outcome BumpAllocator
  delete_all [] a w = done a
  delete_all (ptr ∷ more) a w = delete_object ptr a w >>= λ a'. delete_all more a' w

  -- `ReclaimDeferred`
  unfoldable pub reclaim_deferred : ComputeThread → r.World → Outcome ComputeThread
  reclaim_deferred t w = do
    a ← delete_all t.scheduled_reclamations t.allocator w
    done (record t { allocator = a; scheduled_reclamations = [] })

-- `SchedReclaim`
unfoldable pub sched_reclaim : ℕ → ComputeThread → Outcome ComputeThread
sched_reclaim ptr t = do
  assert (not (ptr == 0))
  done (record t { scheduled_reclamations = t.scheduled_reclamations ++ (ptr ∷ []) })
