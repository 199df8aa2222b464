-- ===== src/MnAllocPolicy.antt =====
-- rdma/include/remus/mn_alloc_pol.h: which memory node and segment the next allocation tries.
-- A remainder by 0 is undefined in C++; the properties have counts above 0.
pub mod Range
pub mod Rows
pub mod RoundRobin
pub mod Random
mod Tests
use Prim.Native.String.{String}
use text.Mathlib.Text.{◌==◌ as str_eq}
use remus_tutorial.Prelude.{
  ℕ, ◌+◌, ◌*◌, ◌/◌, ◌%◌, ◌&&◌, Bool, true, false, ◌==◌, if◌then◌else◌, u32, u64, sub64, Outcome,
  done, abort, ◌>>=◌, ◌>>◌, assert,
}
use remus_tutorial.Config.{Config}
use remus_tutorial.Rand.{Rand}
use remus_tutorial.Rand

pub data Policy : Type 0 where
  none global_mod global_rr rand local_rr local_mod : Policy

unfoldable pub to_policy : String → Outcome Policy
to_policy s =
    if str_eq s "RAND"
    then done rand
    else if str_eq s "GLOBAL-RR"
    then done global_rr
    else if str_eq s "GLOBAL-MOD"
    then done global_mod
    else if str_eq s "LOCAL-RR"
    then done local_rr
    else if str_eq s "LOCAL-MOD"
    then done local_mod
    else abort

pub record MnAllocPolicy : Type 0 where
  pub policy_ : Policy
  pub prng_ : Rand
  pub num_segs_ : ℕ
  pub num_mns_ : ℕ
  pub total_segs_ : ℕ
  pub last_mn_ : ℕ
  pub last_seg_ : ℕ

-- The constructor, with the generator that it makes.
unfoldable pub construct : Config → Rand → MnAllocPolicy
construct args g =
    let num_segs = u32 args.segs_per_mn in
    let num_mns = u32 (u64 (args.last_mn_id + 1)) in
    record {
      policy_ = none;
      prng_ = g;
      num_segs_ = num_segs;
      num_mns_ = num_mns;
      total_segs_ = u32 (num_segs * num_mns);
      last_mn_ = 0;
      last_seg_ = 0;
    }

abbrev pub thread_uid : Config → ℕ → ℕ
thread_uid args thread_id =
    u64 (u64 (sub64 args.node_id args.first_cn_id * args.cn_threads) + thread_id)

-- LOCAL_RR and LOCAL_MOD: every node is a compute and a memory node.
abbrev pub same_nodes : Config → Bool
same_nodes args = args.first_cn_id == args.first_mn_id && args.last_cn_id == args.last_mn_id

unfoldable pub set_policy : Policy → Config → ℕ → MnAllocPolicy → Outcome MnAllocPolicy
set_policy none args thread_id p = done (record p { policy_ = none; last_mn_ = 0; last_seg_ = 0 })
set_policy global_mod args thread_id p =
    let seg_uid = thread_uid args thread_id % p.total_segs_ in
    done (record p {
      policy_ = global_mod;
      last_mn_ = u32 (seg_uid / p.num_segs_);
      last_seg_ = u32 (seg_uid % p.num_segs_);
    })
set_policy global_rr args thread_id p =
    let (mn, g) = Rand.rand p.prng_ in
    let (seg, g') = Rand.rand g in
    done (record p {
      policy_ = global_rr;
      prng_ = g';
      last_mn_ = mn % p.num_mns_;
      last_seg_ = seg % p.num_segs_;
    })
set_policy local_mod args thread_id p = do
  assert (same_nodes args)
  done (record p {
    policy_ = local_mod;
    last_mn_ = u32 args.node_id;
    last_seg_ = u32 (thread_id % p.num_segs_);
  })
set_policy local_rr args thread_id p = do
  assert (same_nodes args)
  let (seg, g) = Rand.rand p.prng_
  done (record p {
    policy_ = local_rr;
    prng_ = g;
    last_mn_ = u32 args.node_id;
    last_seg_ = seg % p.num_segs_;
  })
set_policy rand args thread_id p = done (record p { policy_ = rand })

-- The next segment of the ring of segments of one node.
abbrev pub next_seg : MnAllocPolicy → ℕ
next_seg p = u32 (p.last_seg_ + 1) % p.num_segs_

abbrev advance : Policy → MnAllocPolicy → MnAllocPolicy
advance global_rr p =
    let seg = next_seg p in
    record p {
      last_seg_ = seg;
      last_mn_ = if seg == 0 then u32 (p.last_mn_ + 1) % p.num_mns_ else p.last_mn_;
    }
advance local_rr p = record p { last_seg_ = next_seg p }
advance rand p =
    let (mn, g) = Rand.rand p.prng_ in
    let (seg, g') = Rand.rand g in
    record p { prng_ = g'; last_mn_ = mn % p.num_mns_; last_seg_ = seg % p.num_segs_ }
advance none p = p
advance global_mod p = p
advance local_mod p = p

-- The pair of a node and a segment, and the policy after the call.
unfoldable pub get_mn_seg : MnAllocPolicy → (ℕ × ℕ) × MnAllocPolicy
get_mn_seg p = let p' = advance p.policy_ p in ((p'.last_mn_, p'.last_seg_), p')
