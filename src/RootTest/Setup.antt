-- ===== src/RootTest/Setup.antt =====
-- What `main` of rdma/test/root.cc, rdma/test/helloworld.cc and rdma/test/read.cc does on one machine
-- before it starts its threads.
use remus_tutorial.Prelude.{
  ℕ, zero, suc, ◌+◌, ◌-◌, ◌*◌, true, leb, ◌&&◌, u64, int_word, sub64, if◌then◌else◌, Bool, Option,
  none, some, Outcome, done, ◌>>=◌, List, [], ◌∷◌,
}
use remus_tutorial.RdmaPtr.{RdmaPtr, of_raw, raw}
use remus_tutorial.Config.{Config}
use remus_tutorial.ComputeNode
use remus_tutorial.ComputeNode.{ComputeNode}
use remus_tutorial.ComputeNode.Connect.{
  RegionInfo, Peers, machine_id, connect_local, connect_remote,
}
use remus_tutorial.MemoryNode
use remus_tutorial.MemoryNode.{MemoryNode, get_local_rkeys}
use remus_tutorial.RdmaOps.Ibv.{Verbs}
use remus_tutorial.ComputeThread.{Machine}
use remus_tutorial.ComputeThread.Operations.{write}
use remus_tutorial.ComputeThread.Roots.{set_root, get_root, cas_root, faa_root}
use remus_tutorial.RootTest.{value_at}

-- The loop over the ids of the memory nodes, from the first one on.
abbrev pub ids_from : ℕ → ℕ → List ℕ
ids_from m0 zero = []
ids_from m0 (suc n) = machine_id m0 ∷ ids_from (m0 + 1) n

abbrev pub memnodes : Config → List ℕ
memnodes args = ids_from args.first_mn_id (args.last_mn_id + 1 - args.first_mn_id)

abbrev pub is_among : ℕ → ℕ → ℕ → Bool
is_among id first last = leb first id && leb id last

-- The parts that this machine has.
pub record Node : Type 0 where
  pub memory_node : Option MemoryNode
  pub compute_node : Option ComputeNode

module _ (p : Peers) where
  abbrev pub connect_self : Option MemoryNode → Config → ComputeNode → Outcome ComputeNode
  connect_self none args c = done c
  connect_self (some m) args c =
      connect_local p (machine_id args.node_id) args.qp_lanes (memnodes args) (get_local_rkeys m) c

  abbrev pub connect : Option MemoryNode → Config → ComputeNode → Outcome ComputeNode
  connect m args c =
      connect_self m args c
      >>= connect_remote p (machine_id args.node_id) args.qp_lanes (memnodes args)

  abbrev pub memory_node_of : List RegionInfo → Config → Option MemoryNode
  memory_node_of segs args =
      if is_among args.node_id args.first_mn_id args.last_mn_id
      then some (MemoryNode.construct args (machine_id args.node_id) segs)
      else none

  -- The memory node first, with the segments `segs`; then the compute node, with its buffer.
  unfoldable pub set_up : List RegionInfo → ℕ → Config → Outcome Node
  set_up segs buffer args =
      let m = memory_node_of segs args in
      let both = connect m args (ComputeNode.construct args buffer) >>= λ c.
      done (record { memory_node = m; compute_node = some c }) in
      if is_among args.node_id args.first_cn_id args.last_cn_id
      then both
      else done (record { memory_node = m; compute_node = none })

-- The threads that a machine starts, and what it takes for the number of them all.
unfoldable pub workers : Config → ℕ → ℕ
workers args id = if is_among id args.first_cn_id args.last_cn_id then args.cn_threads else 0

unfoldable pub total_threads : Config → ℕ
total_threads args = u64 (u64 (sub64 args.last_cn_id args.first_cn_id + 1) * args.cn_threads)

-- The number as the barrier of each thread takes it: an int, which it compares with a word.
unfoldable pub barrier_threads : Config → ℕ
barrier_threads args = int_word (total_threads args)

-- What the first thread does with the root before it allocates the counter.
unfoldable pub try_root : {v : Verbs} → ℕ → Machine v → Outcome (Machine v)
try_root fuel m = do
  m1 ← set_root fuel (of_raw 0) m
  (root, m2) ← get_root fuel m1
  (old, m3) ← cas_root fuel (of_raw 0) (of_raw 1) m2
  (was, m4) ← faa_root fuel 1 m3
  done m4

-- What it does with the counter that it has allocated at `ptr`.
unfoldable pub publish : {v : Verbs} → ℕ → RdmaPtr → Machine v → Outcome (Machine v)
publish fuel ptr m = do
  m1 ← write fuel 8 8 (of_raw (u64 (raw ptr + value_at))) 0 true 8 true m
  m2 ← write fuel 1 1 (of_raw (raw ptr)) 0 true 1 true m1
  set_root fuel ptr m2
