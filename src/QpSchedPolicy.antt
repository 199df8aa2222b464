-- ===== src/QpSchedPolicy.antt =====
-- rdma/include/remus/qp_sched_pol.h: which lane of the connections to a memory node is used next.
-- A remainder by 0 is undefined in C++; the properties have at least one lane.
pub mod Range
pub mod Turns
mod Tests
use Prim.Native.String.{String}
use text.Mathlib.Text.{◌==◌ as str_eq}
use remus_tutorial.Prelude.{
  ℕ, zero, suc, ◌+◌, ◌%◌, ◌||◌, Bool, leb, if◌then◌else◌, u32, u64, Outcome, done, abort, ◌>>=◌,
  ◌>>◌, assert, at, List, [], ◌∷◌, ◌++◌, get_elem?, set,
}
use remus_tutorial.Config.{Config}
use remus_tutorial.Rand.{Rand}
use remus_tutorial.Rand

pub data Policy : Type 0 where
  none mod_ rr rand one_to_one : Policy

unfoldable pub to_policy : String → Outcome Policy
to_policy s =
    if str_eq s "MOD"
    then done mod_
    else if str_eq s "ONE_TO_ONE"
    then done one_to_one
    else if str_eq s "RAND"
    then done rand
    else if str_eq s "RR"
    then done rr
    else abort

pub record QpSchedPolicy : Type 0 where
  pub policy_ : Policy
  pub prng_ : Rand
  pub num_lanes_ : ℕ
  pub num_threads_ : ℕ
  pub last_lane_ : ℕ
  pub per_mn_ : List ℕ

-- `n` rounds of the loop of the constructor: the counters that it pushes, and the generator.
abbrev pub draw_lanes : ℕ → ℕ → Rand → List ℕ × Rand
draw_lanes zero lanes g = ([], g)
draw_lanes (suc n) lanes g =
    let (lane, g') = Rand.rand g in
    let (more, g'') = draw_lanes n lanes g' in (lane % lanes ∷ more, g'')

-- The constructor, with the generator that it makes. The loop runs while `i <= LAST_MN_ID`.
unfoldable pub construct : Config → Rand → QpSchedPolicy
construct args g =
    let (lanes, g') = draw_lanes (suc args.last_mn_id) (u32 args.qp_lanes) g in
    record {
      policy_ = none;
      prng_ = g';
      num_lanes_ = u32 args.qp_lanes;
      num_threads_ = u32 args.cn_threads;
      last_lane_ = 0;
      per_mn_ = lanes;
    }

unfoldable pub set_policy : Policy → ℕ → QpSchedPolicy → Outcome QpSchedPolicy
set_policy one_to_one thread_id q = do
  assert (leb q.num_threads_ q.num_lanes_)
  done (record q { policy_ = one_to_one; last_lane_ = u32 thread_id })
set_policy mod_ thread_id q =
    done (record q { policy_ = mod_; last_lane_ = u32 (thread_id % q.num_lanes_) })
set_policy none thread_id q = done (record q { policy_ = none; last_lane_ = 0 })
set_policy rand thread_id q = done (record q { policy_ = rand })
set_policy rr thread_id q = done (record q { policy_ = rr })

abbrev lane_by : Policy → ℕ → QpSchedPolicy → Outcome (ℕ × QpSchedPolicy)
lane_by rr mn q = do
  last ← at (get_elem? q.per_mn_ mn)
  let lane = u32 (last + 1) % q.num_lanes_
  done (lane, record q { per_mn_ = set q.per_mn_ mn lane })
lane_by rand mn q = do
  let (drawn, g) = Rand.rand q.prng_
  let lane = drawn % q.num_lanes_
  done (lane, record q { prng_ = g; last_lane_ = lane })
lane_by none mn q = done (q.last_lane_, q)
lane_by mod_ mn q = done (q.last_lane_, q)
lane_by one_to_one mn q = done (q.last_lane_, q)

-- The lane, and the policy after the call. Under RR the index is not checked against the vector.
unfoldable pub get_lane_idx : ℕ → QpSchedPolicy → Outcome (ℕ × QpSchedPolicy)
get_lane_idx mn q = lane_by q.policy_ mn q
