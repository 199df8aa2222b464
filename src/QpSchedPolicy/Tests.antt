-- ===== src/QpSchedPolicy/Tests.antt =====
-- Runs of the lane policies, and uses of the theorems at concrete inputs.
use remus_tutorial.Prelude.{◌≡◌, arith, refl, done, abort, fault, [], ◌∷◌}
use remus_tutorial.Config.{Config}
use remus_tutorial.QpSchedPolicy.{QpSchedPolicy, Policy, set_policy, get_lane_idx, to_policy}
use remus_tutorial.QpSchedPolicy.Range.{HasLanes}
use remus_tutorial.QpSchedPolicy.Turns.{lane_after, lanes_in_turn}

abbrev four_lanes : Config
four_lanes = record {
  node_id = 3;
  seg_size = 20;
  segs_per_mn = 2;
  first_cn_id = 2;
  last_cn_id = 3;
  first_mn_id = 0;
  last_mn_id = 1;
  qp_lanes = 4;
  qp_sched_pol = "RR";
  mn_port = 33330;
  cn_threads = 6;
  cn_thread_bufsz = 12;
  alloc_pol = "GLOBAL-RR";
  cn_ops_per_thread = 8;
  cn_wrs_per_seq = 4;
}

abbrev with_policy : Policy → QpSchedPolicy
with_policy policy = record {
  policy_ = policy;
  prng_ = record { seed = 7 };
  num_lanes_ = 4;
  num_threads_ = 6;
  last_lane_ = 1;
  per_mn_ = 3 ∷ 0 ∷ [];
}

with_policy-HasLanes : (policy : Policy) → HasLanes (with_policy policy)
with_policy-HasLanes policy = record {
  some_lane = omega arith;
  small = omega arith;
  last_in = omega arith;
  per_mn_in = (omega arith, (omega arith, tt));
}

known_policy : to_policy "ONE_TO_ONE" ≡ done Policy.one_to_one
unfolding to_policy
known_policy = refl

more_threads_than_lanes : set_policy Policy.one_to_one 2 (with_policy Policy.none) ≡ abort
unfolding set_policy
more_threads_than_lanes = refl

no_such_node : get_lane_idx 2 (with_policy Policy.rr) ≡ fault
unfolding get_lane_idx
no_such_node = refl

lanes_in_turn_example : lane_after (0 ∷ 1 ∷ 0 ∷ []) 0 (with_policy Policy.rr) ≡ done 2
lanes_in_turn_example =
    lanes_in_turn (0 ∷ 1 ∷ 0 ∷ []) 0 3 (with_policy-HasLanes Policy.rr) refl
      (omega arith, (omega arith, (omega arith, tt))) refl
