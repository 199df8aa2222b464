-- ===== src/RootTest/Tests.antt =====
-- Runs of the root test with two workers, and uses of the theorems at concrete inputs.
use remus_tutorial.Prelude.{
  AllBelow, ℕ, ◌+◌, ◌*◌, ◌^◌, ◌≤◌, ◌<◌, ◌≡◌, arith, refl, some, done, sub64, List, [], ◌∷◌, length,
}
use remus_tutorial.Config.{Config}
use remus_tutorial.ComputeNode.{ComputeNode}
use remus_tutorial.ComputeNode.Connect.{RegionInfo, Peers}
use remus_tutorial.ComputeNode.Counts.{IsSound, AllAligned}
use remus_tutorial.MemoryNode
use remus_tutorial.Barrier
use remus_tutorial.RootTest.{System, acquiring, reading, joined, value_at, step, run, start}
use remus_tutorial.RootTest.Setup.{set_up, memory_node_of, workers, barrier_threads}
use remus_tutorial.RootTest.Machines.{
  HasIds, started, Connects, set_up-Connects, total_threads-started,
}
use remus_tutorial.RootTest.Final.{joined_count}
use remus_tutorial.RootTest.Progress.{all_join}
use remus_tutorial.RootTest.Padding.{padding_admits_both}

-- Both pass the first barrier, and worker 0 takes the lock.
abbrev to_lock : List ℕ
to_lock = 0 ∷ 1 ∷ 1 ∷ 0 ∷ 0 ∷ 0 ∷ 0 ∷ []

-- Worker 1 tries once in vain; then both add one and pass the second barrier.
abbrev to_end : List ℕ
to_end = 0 ∷ 1 ∷ 1 ∷ 0 ∷ 0 ∷ 0 ∷ 0 ∷ 1 ∷ 1 ∷ 0 ∷ 0 ∷ 0 ∷ 1 ∷ 1 ∷ 1 ∷ 1 ∷ 0 ∷ 1 ∷ 1 ∷ 0 ∷ 0 ∷ []

ends : (run 2 to_end (start 0 4096)).cells 4104 ≡ 2
unfolding run step Barrier.step
ends = refl

has_joined : (run 2 to_end (start 0 4096)).stage 1 ≡ joined
unfolding run step Barrier.step
has_joined = refl

joined_count_example :
    ((run 2 to_end (start 0 4096)).cells (4096 + value_at) ≡ 2)
    × ((run 2 to_end (start 0 4096)).cells 4096 ≡ 0)
joined_count_example =
    joined_count 2 4096 to_end (omega arith) (omega arith) (omega arith) 1 (omega arith) has_joined

all_join_example :
    (more : List ℕ) × AllBelow 2 more
    × (length more ≤ 12 * 2)
    × ((j : ℕ) → j < 2 → (run 2 more (run 2 to_lock (start 0 4096))).stage j ≡ joined)
    × ((run 2 more (run 2 to_lock (start 0 4096))).cells (4096 + value_at) ≡ 2)
    × ((run 2 more (run 2 to_lock (start 0 4096))).cells 4096 ≡ 0)
all_join_example = all_join 2 4096 to_lock (omega arith) (omega arith) (omega arith)

-- Both wait for a lock whose byte is 0 in a word that is not.
abbrev both_wait : System
both_wait = record (start 1 4096) { stage = λ i. acquiring 4096 }

padding_admits_both_example :
    ((step 2 1 (step 2 0 both_wait)).stage 0 ≡ reading 4096)
    × ((step 2 1 (step 2 0 both_wait)).stage 1 ≡ reading 4096)
    × ((step 2 1 (step 2 0 both_wait)).cells 4096 ≡ both_wait.cells 4096)
padding_admits_both_example =
    padding_admits_both 2 4096 0 1 both_wait (omega arith) refl refl (omega arith) refl

-- Machine 1 of 0 to 2 has both roles; machines 0 and 1 have memory.
abbrev config : Config
config = record {
  node_id = 1;
  seg_size = 20;
  segs_per_mn = 1;
  first_cn_id = 1;
  last_cn_id = 2;
  first_mn_id = 0;
  last_mn_id = 1;
  qp_lanes = 2;
  qp_sched_pol = "MOD";
  mn_port = 33330;
  cn_threads = 3;
  cn_thread_bufsz = 12;
  alloc_pol = "RAND";
  cn_ops_per_thread = 4;
  cn_wrs_per_seq = 4;
}

abbrev regions : List RegionInfo
regions = record { raddr = 2 ^ 20 * 3; rkey = 7 } ∷ []

abbrev peers : Peers
peers = record {
  dial = λ node i. record { conn_ = i; lkey_ = 9 };
  deliver = λ node i. some regions;
}

regions-AllAligned : AllAligned (sub64 (2 ^ 20) 1) regions
regions-AllAligned = (record { top = refl; low = refl }, tt)

peers-IsSound : IsSound (sub64 (2 ^ 20) 1) peers
peers-IsSound = record {
  regions = λ node i. regions;
  delivered = λ node i. refl;
  aligned = λ node i. regions-AllAligned;
}

ids : HasIds config
ids = record { own = omega arith; first = omega arith; last = omega arith }

set_up-Connects_example :
    (c : ComputeNode) × (set_up peers regions 65536 config
      ≡ done (record { memory_node = memory_node_of peers regions config; compute_node = some c }))
    × Connects peers config regions c
set_up-Connects_example =
    set_up-Connects peers config regions 65536 ids refl peers-IsSound regions-AllAligned

few : started config 3 < 2 ^ 31
unfolding workers
few = omega arith

total_threads-started_example :
    (barrier_threads config ≡ started config 3)
    × ((MemoryNode.construct config 1 regions).total_threads_ ≡ started config 3)
total_threads-started_example =
    total_threads-started config 3 1 regions (omega arith) (omega arith) (omega arith) few
