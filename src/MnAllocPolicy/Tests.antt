-- ===== src/MnAllocPolicy/Tests.antt =====
-- Runs of the allocation policies, and uses of the theorems at concrete inputs.
use remus_tutorial.Prelude.{ℕ, ◌%◌, ◌<◌, ◌≡◌, arith, refl, abort}
use remus_tutorial.Config.{Config}
use remus_tutorial.MnAllocPolicy.{MnAllocPolicy, Policy, set_policy, get_mn_seg, to_policy}
use remus_tutorial.MnAllocPolicy.Range.{IsValid}
use remus_tutorial.MnAllocPolicy.RoundRobin.{after, round_robin_covers}
use remus_tutorial.MnAllocPolicy.Random.{random_parity}

-- Two memory nodes, 0 and 1, with two segments each, and compute nodes 2 and 3.
abbrev two_nodes : Config
two_nodes = record {
  node_id = 3;
  seg_size = 20;
  segs_per_mn = 2;
  first_cn_id = 2;
  last_cn_id = 3;
  first_mn_id = 0;
  last_mn_id = 1;
  qp_lanes = 2;
  qp_sched_pol = "RR";
  mn_port = 33330;
  cn_threads = 1;
  cn_thread_bufsz = 12;
  alloc_pol = "GLOBAL-RR";
  cn_ops_per_thread = 8;
  cn_wrs_per_seq = 4;
}

abbrev at_start : Policy → MnAllocPolicy
at_start policy = record {
  policy_ = policy;
  prng_ = record { seed = 7 };
  num_segs_ = 2;
  num_mns_ = 2;
  total_segs_ = 4;
  last_mn_ = 0;
  last_seg_ = 1;
}

at_start-IsValid : (policy : Policy) → IsValid (at_start policy)
at_start-IsValid policy = record {
  segs = omega arith;
  mns = omega arith;
  total = refl;
  small = omega arith;
  mn_in = omega arith;
  seg_in = omega arith;
}

unknown_policy : to_policy "ROUND-ROBIN" ≡ abort
unfolding to_policy
unknown_policy = refl

mixed_roles : set_policy Policy.local_rr two_nodes 0 (at_start Policy.none) ≡ abort
unfolding set_policy
mixed_roles = refl

round_robin_covers_example :
    (k : ℕ) × (k < 4) × ◌≡◌ {A = ℕ × ℕ} (get_mn_seg (after k (at_start Policy.global_rr))).0 (1, 0)
round_robin_covers_example =
    round_robin_covers (at_start-IsValid Policy.global_rr) refl 1 0 (omega arith) (omega arith)

random_parity_example : (get_mn_seg (after 3 (at_start Policy.rand))).0.1 % 2 ≡ 1
random_parity_example = random_parity (at_start Policy.rand) 3 refl refl
