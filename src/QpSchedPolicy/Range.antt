-- ===== src/QpSchedPolicy/Range.antt =====
-- The lanes that a policy names exist.
use native.Mathlib.Nat.{mod-lt, mod-le}
use mathlib.Core.Option.{some-injective}
use remus_tutorial.Prelude.{
  AllBelow, ℕ, zero, suc, ◌%◌, ◌^◌, ◌+◌, ◌≤◌, ◌<◌, ◌≡◌, arith, u32, Outcome, done, abort, fault,
  diverge, List, [], ◌∷◌, get_elem?, set, none, some, length, length-set, inl, inr, Option-cases,
  refl, ap, subst,
}
use remus_tutorial.Config.{Config}
use remus_tutorial.Rand.{Rand}
use remus_tutorial.Rand
use remus_tutorial.QpSchedPolicy.{
  QpSchedPolicy, Policy, construct, set_policy, get_lane_idx, draw_lanes, lane_by,
}

pub record HasLanes (q : QpSchedPolicy) : Type 0 where
  pub some_lane : 0 < q.num_lanes_
  pub small : q.num_lanes_ < 2 ^ 32
  pub last_in : q.last_lane_ < q.num_lanes_
  pub per_mn_in : AllBelow q.num_lanes_ q.per_mn_

set-AllBelow : (n i x : ℕ) (xs : List ℕ) → x < n → AllBelow n xs → AllBelow n (set xs i x)
set-AllBelow n i x [] h all = tt
set-AllBelow n zero x (y ∷ xs) h (y_in, all) = (h, all)
set-AllBelow n (suc i) x (y ∷ xs) h (y_in, all) = (y_in, set-AllBelow n i x xs h all)

draw_lanes-AllBelow :
    (n lanes : ℕ) (g : Rand)
    → 0 < lanes
    → AllBelow lanes (draw_lanes n lanes g).0 × (length (draw_lanes n lanes g).0 ≡ n)
draw_lanes-AllBelow zero lanes g h = (tt, refl)
draw_lanes-AllBelow (suc n) lanes g h =
    let (below, len) = draw_lanes-AllBelow n lanes (Rand.rand g).1 h in
    ((mod-lt (Rand.rand g).0 h, below), ap suc len)

-- With at least one lane the constructor makes a valid policy, with a counter for each memory node
-- up to the last.
construct-HasLanes :
    (args : Config) (g : Rand)
    → 0 < args.qp_lanes
    → args.qp_lanes < 2 ^ 32
    → HasLanes (construct args g) × (length (construct args g).per_mn_ ≡ suc args.last_mn_id)
unfolding construct
construct-HasLanes args g pos small =
    let fits : u32 args.qp_lanes ≡ args.qp_lanes = omega arith in
    let (below, len) =
      draw_lanes-AllBelow (suc args.last_mn_id) (u32 args.qp_lanes) g (omega arith) in
    (
      record {
        some_lane = omega arith;
        small = omega arith;
        last_in = omega arith;
        per_mn_in = below;
      },
      len,
    )

-- What a call to set the policy ends in: a valid policy with the counters of before, or, for
-- ONE_TO_ONE and no other, the assertion that there is a lane for each thread.
abbrev pub SetsLane : Policy → QpSchedPolicy → Outcome QpSchedPolicy → Type 0
SetsLane policy q (done q') = HasLanes q' × (q'.policy_ ≡ policy) × (q'.per_mn_ ≡ q.per_mn_)
SetsLane policy q abort = (policy ≡ Policy.one_to_one) × (q.num_lanes_ < q.num_threads_)
SetsLane policy q fault = ⊥
SetsLane policy q diverge = ⊥

-- What a call for a lane ends in: a lane that exists and a valid policy, or, under RR and no other,
-- a read out of bounds for a memory node without a counter.
abbrev pub Gets : ℕ → QpSchedPolicy → Outcome (ℕ × QpSchedPolicy) → Type 0
Gets mn q (done (lane, q')) =
    (lane < q.num_lanes_)
    × HasLanes q'
    × (q'.policy_ ≡ q.policy_)
    × (length q'.per_mn_ ≡ length q.per_mn_)
Gets mn q abort = ⊥
Gets mn q fault = (q.policy_ ≡ Policy.rr) × (length q.per_mn_ ≤ mn)
Gets mn q diverge = ⊥

pub get_elem?-AllBelow :
    (n : ℕ) (xs : List ℕ) (i : ℕ) (x : ℕ) → AllBelow n xs → get_elem? xs i ≡ some x → x < n
get_elem?-AllBelow n [] i x all h = cc
get_elem?-AllBelow n (y ∷ xs) zero x (y_in, all) h = subst (λ z. z < n) (some-injective y x h) y_in
get_elem?-AllBelow n (y ∷ xs) (suc i) x (y_in, all) h = get_elem?-AllBelow n xs i x all h

get_elem?-none : (xs : List ℕ) (i : ℕ) → get_elem? xs i ≡ none → length xs ≤ i
get_elem?-none [] i h = omega arith
get_elem?-none (x ∷ xs) zero h = cc
get_elem?-none (x ∷ xs) (suc i) h = omega (arith, get_elem?-none xs i h)

module _ {q : QpSchedPolicy} (v : HasLanes q) where
  -- From a valid policy every policy is set, but ONE_TO_ONE with more threads than lanes, which fails the assertion; with
  -- the threads numbered from 0 the lane to begin with exists.
  set_policy-SetsLane :
      (policy : Policy) (thread_id : ℕ)
      → thread_id < q.num_threads_
      → SetsLane policy q (set_policy policy thread_id q)
  unfolding set_policy
  set_policy-SetsLane Policy.none thread_id h = ground arith
  set_policy-SetsLane Policy.mod_ thread_id h = (
    record {
      some_lane = v.some_lane;
      small = v.small;
      last_in = omega (
        arith,
        mod-lt thread_id v.some_lane,
        mod-le (thread_id % q.num_lanes_) (2 ^ 32),
        v.small,
      );
      per_mn_in = v.per_mn_in;
    },
    refl,
    refl,
  )
  set_policy-SetsLane Policy.rr thread_id h = ground arith
  set_policy-SetsLane Policy.rand thread_id h = ground arith
  set_policy-SetsLane Policy.one_to_one thread_id h = ground arith

  with_last-HasLanes :
      (lane : ℕ) (g : Rand)
      → lane < q.num_lanes_
      → HasLanes (record q { prng_ = g; last_lane_ = lane })
  with_last-HasLanes lane g h = record {
    some_lane = v.some_lane;
    small = v.small;
    last_in = h;
    per_mn_in = v.per_mn_in;
  }

  pub with_counter-HasLanes :
      (mn lane : ℕ) → lane < q.num_lanes_ → HasLanes (record q { per_mn_ = set q.per_mn_ mn lane })
  with_counter-HasLanes mn lane h = record {
    some_lane = v.some_lane;
    small = v.small;
    last_in = v.last_in;
    per_mn_in = set-AllBelow q.num_lanes_ mn lane q.per_mn_ h v.per_mn_in;
  }

  lane_by-Gets : (policy : Policy) (mn : ℕ) → q.policy_ ≡ policy → Gets mn q (lane_by policy mn q)
  lane_by-Gets Policy.none mn e = (v.last_in, v, refl, refl)
  lane_by-Gets Policy.mod_ mn e = (v.last_in, v, refl, refl)
  lane_by-Gets Policy.one_to_one mn e = (v.last_in, v, refl, refl)
  lane_by-Gets Policy.rand mn e =
      let lane_in = mod-lt (Rand.rand q.prng_).0 v.some_lane in
      (lane_in, with_last-HasLanes _ _ lane_in, refl, refl)
  lane_by-Gets Policy.rr mn e = elim (Option-cases (get_elem? q.per_mn_ mn)) [
    | inl missing ↦ rw missing (e, get_elem?-none q.per_mn_ mn missing)
    | inr (last, found) ↦ rw found (
        let lane_in = mod-lt (u32 (last + 1)) v.some_lane in
        (lane_in, with_counter-HasLanes mn _ lane_in, refl, length-set q.per_mn_ mn _))
  ]

  -- On a valid policy a lane that a call returns exists, and the call keeps the policy valid; only RR can read out of
  -- bounds, for a memory node without a counter.
  get_lane_idx-Gets : (mn : ℕ) → Gets mn q (get_lane_idx mn q)
  unfolding get_lane_idx
  get_lane_idx-Gets mn = lane_by-Gets q.policy_ mn refl
