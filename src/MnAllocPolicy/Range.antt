-- ===== src/MnAllocPolicy/Range.antt =====
-- The node and the segment that a policy names exist.
use native.Mathlib.Nat.{mod-lt, div-lt_iff_lt-mul, mul_comm, mul-pos, div-le_self, mod-le}
use remus_tutorial.Prelude.{
  ℕ, ◌+◌, ◌*◌, ◌/◌, ◌%◌, ◌^◌, ◌≤◌, ◌<◌, ◌≡◌, arith, u32, u64, false, Outcome, done, abort, fault,
  diverge, refl,
}
use remus_tutorial.Config.{Config}
use remus_tutorial.Rand.{Rand}
use remus_tutorial.MnAllocPolicy.{
  MnAllocPolicy, Policy, construct, set_policy, get_mn_seg, same_nodes, thread_uid, advance,
}

pub record IsValid (p : MnAllocPolicy) : Type 0 where
  pub segs : 0 < p.num_segs_
  pub mns : 0 < p.num_mns_
  pub total : p.total_segs_ ≡ p.num_segs_ * p.num_mns_
  pub small : p.num_segs_ * p.num_mns_ < 2 ^ 32
  pub mn_in : p.last_mn_ < p.num_mns_
  pub seg_in : p.last_seg_ < p.num_segs_

-- Arguments with at least one segment and fewer than 2^32 of them in all make a valid policy, whose
-- counts are those of the arguments.
construct-IsValid :
    (args : Config) (g : Rand)
    → 0 < args.segs_per_mn
    → args.segs_per_mn < 2 ^ 32
    → args.last_mn_id + 1 < 2 ^ 32
    → args.segs_per_mn * (args.last_mn_id + 1) < 2 ^ 32
    → IsValid (construct args g)
      × ((construct args g).num_segs_ ≡ args.segs_per_mn)
      × ((construct args g).num_mns_ ≡ args.last_mn_id + 1)
unfolding construct
construct-IsValid args g pos segs mns total =
    rw (counts.0, counts.1)
      (
        record {
          segs = pos;
          mns = omega arith;
          total = omega arith;
          small = total;
          mn_in = omega arith;
          seg_in = pos;
        },
        refl,
        refl,
      )
  where
    counts :
        (u32 args.segs_per_mn ≡ args.segs_per_mn)
        × (u32 (u64 (args.last_mn_id + 1)) ≡ args.last_mn_id + 1)
    counts = omega arith

-- What a call keeps: the counts, and that the node and the segment exist.
pub record Keeps (p p' : MnAllocPolicy) : Type 0 where
  pub valid : IsValid p'
  pub same_segs : p'.num_segs_ ≡ p.num_segs_
  pub same_mns : p'.num_mns_ ≡ p.num_mns_

-- What `set_policy` ends in: a valid policy, or the assertion on the roles of the nodes.
abbrev pub Sets : Config → MnAllocPolicy → Outcome MnAllocPolicy → Type 0
Sets args p (done p') = Keeps p p'
Sets args p abort = same_nodes args ≡ false
Sets args p fault = ⊥
Sets args p diverge = ⊥

module _ {p : MnAllocPolicy} (v : IsValid p) where
  advance-Keeps : (policy : Policy) → Keeps p (advance policy p)
  advance-Keeps Policy.none = ground arith
  advance-Keeps policy = ground arith

  -- On a valid policy, whichever it is, the node and the segment that a call returns exist; the call
  -- keeps the counts and leaves a valid policy.
  pub get_mn_seg-Keeps :
      ((get_mn_seg p).0.0 < p.num_mns_)
      × ((get_mn_seg p).0.1 < p.num_segs_)
      × Keeps p (get_mn_seg p).1
  unfolding get_mn_seg
  get_mn_seg-Keeps =
      let k = advance-Keeps p.policy_ in
      (omega (arith, k.valid.mn_in, k.same_mns), omega (arith, k.valid.seg_in, k.same_segs), k)

  global_mod-Keeps :
      (x : ℕ) (policy : Policy)
      → Keeps p (record p {
        policy_ = policy;
        last_mn_ = u32 (x % p.total_segs_ / p.num_segs_);
        last_seg_ = u32 (x % p.total_segs_ % p.num_segs_);
      })
  global_mod-Keeps x policy =
      let y : ℕ = x % p.total_segs_ in
      let below : y < p.num_mns_ * p.num_segs_ = omega (
        arith,
        mul_comm p.num_mns_ p.num_segs_,
        v.total,
        mod-lt x {m = p.total_segs_} (omega (arith, v.total, mul-pos v.segs v.mns)),
      ) in
      let mn_in : y / p.num_segs_ < p.num_mns_ = (div-lt_iff_lt-mul v.segs).1 below in
      let mn_fits : u32 (y / p.num_segs_) ≡ y / p.num_segs_ =
        omega (arith, div-le_self y p.num_segs_, mul_comm p.num_mns_ p.num_segs_) in
      let seg_in : y % p.num_segs_ < p.num_segs_ = mod-lt y v.segs in
      let seg_fits : u32 (y % p.num_segs_) ≡ y % p.num_segs_ =
        omega (arith, mod-le y p.num_segs_, mul_comm p.num_mns_ p.num_segs_) in
      record {
        valid = record {
          segs = v.segs;
          mns = v.mns;
          total = v.total;
          small = v.small;
          mn_in = rw mn_fits mn_in;
          seg_in = rw seg_fits seg_in;
        };
        same_segs = refl;
        same_mns = refl;
      }

  -- From a valid policy, on a compute node with an id below 2^32, with the counts of the arguments, every policy but the two local ones is set;
  -- those are set where every node has both roles, and fail the assertion elsewhere. The node and
  -- the segment to begin with exist.
  set_policy-Sets :
      (policy : Policy) (args : Config) (thread_id : ℕ)
      → p.num_mns_ ≡ args.last_mn_id + 1
      → args.node_id ≤ args.last_cn_id
      → args.node_id < 2 ^ 32
      → Sets args p (set_policy policy args thread_id p)
  unfolding set_policy
  set_policy-Sets Policy.none args thread_id mns cn small = ground arith
  set_policy-Sets Policy.global_mod args thread_id mns cn small =
      global_mod-Keeps (thread_uid args thread_id) Policy.global_mod
  set_policy-Sets Policy.global_rr args thread_id mns cn small = ground arith
  set_policy-Sets Policy.rand args thread_id mns cn small = ground arith
  set_policy-Sets Policy.local_rr args thread_id mns cn small = ground arith
  set_policy-Sets Policy.local_mod args thread_id mns cn small = ground arith
