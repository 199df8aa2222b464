-- ===== src/ComputeNode.antt =====
-- `ComputeNode` of rdma/include/remus/compute_node.h: its tables of connections, keys and segments,
-- and the buffer that its threads share. A connection is the number that names it.
pub mod Keys
pub mod Slices
pub mod Connect
pub mod Counts
pub mod Loopback
pub mod Backoff
mod Tests
use Prim.Native.Nat.{bit_and, bit_or}
use remus_tutorial.Prelude.{
  ℕ, zero, suc, ◌+◌, ◌-◌, ◌*◌, ◌/◌, ◌^◌, Bool, ◌==◌, leb, u16, u64, sub64, not64, if◌then◌else◌,
  Option, none, some, Outcome, done, abort, fault, ◌>>=◌, ◌>>◌, assert, at, List, [], ◌∷◌, ◌++◌,
  get_elem?, replicate, Map, lookup, insert,
}
use remus_tutorial.Config.{Config}

pub record ConnInfo : Type 0 where
  pub conn_ : ℕ
  pub lkey_ : ℕ

pub record Seg : Type 0 where
  pub start_ : ℕ
  pub hint_ : ℕ

-- `seg_` is the address of the buffer, and `seg_capacity` its size.
pub record ComputeNode : Type 0 where
  pub num_threads_ : ℕ
  pub thread_bufsz_ : ℕ
  pub seg_ : ℕ
  pub seg_capacity : ℕ
  pub threads_ : ℕ
  pub node_connections_ : Map (List ConnInfo)
  pub segment_rkeys_ : Map ℕ
  pub seg_mask_ : ℕ
  pub segs_ : Map (List Seg)
  pub lane_op_counters_ : List ℕ

-- `operator[]`: a key that is missing gets an empty vector.
abbrev pub entry {ℓ} : {A : Type ℓ} → ℕ → Map (List A) → List A
entry k m = elim (lookup k m) [ none ↦ [] | some l ↦ l ]

-- `64 - __builtin_clzll(x)`, the number of binary digits; `fuel` is the width.
unfoldable pub bit_width : ℕ → ℕ → ℕ
bit_width zero x = 0
bit_width (suc fuel) x = let rest = bit_width fuel (x / 2) in if x == 0 then 0 else suc rest

-- The segments of the nodes from `m0` on, all empty: the loop of the constructor.
abbrev empty_segs : ℕ → ℕ → Map (List Seg) → Map (List Seg)
empty_segs zero m0 m = m
empty_segs (suc n) m0 m = empty_segs n (m0 + 1) (insert m0 [] m)

abbrev pub capacity : ℕ → ℕ → ℕ
capacity num_threads thread_bufsz = 2 ^ bit_width 64 (sub64 (u64 (num_threads * thread_bufsz)) 1)

-- The constructor, for a buffer at the address `seg`.
unfoldable pub construct : Config → ℕ → ComputeNode
construct args seg = record {
  num_threads_ = args.cn_threads;
  thread_bufsz_ = 2 ^ args.cn_thread_bufsz;
  seg_ = seg;
  seg_capacity = capacity args.cn_threads (2 ^ args.cn_thread_bufsz);
  threads_ = 0;
  node_connections_ = [];
  segment_rkeys_ = [];
  seg_mask_ = sub64 (2 ^ args.seg_size) 1;
  segs_ = empty_segs (args.last_mn_id + 1 - args.first_mn_id) args.first_mn_id [];
  lane_op_counters_ = replicate args.qp_lanes 0;
}

unfoldable pub save_conn : ℕ → ℕ → ℕ → ComputeNode → ComputeNode
save_conn node_id conn lkey c =
    let info : ConnInfo = record { conn_ = conn; lkey_ = lkey } in
    let key = u16 node_id in
    record c {
      node_connections_ =
          insert key (entry key c.node_connections_ ++ (info ∷ [])) c.node_connections_;
    }

abbrev pub node_mask : ℕ
node_mask = 65535 * 2 ^ 48

-- `(node_id << 48) | region`
abbrev pub region_key : ℕ → ℕ → ℕ
region_key node_id region = bit_or (u16 node_id * 2 ^ 48) region

-- `sizeof(ControlBlock)`, which is aligned to 64 bytes.
abbrev pub sizeof_control_block : ℕ
sizeof_control_block = 64

abbrev pub add_region : ℕ → ℕ → ℕ → ComputeNode → ComputeNode
add_region node_id key rkey c =
    let seg : Seg = record { start_ = key; hint_ = sizeof_control_block } in
    record c {
      segment_rkeys_ = insert key rkey c.segment_rkeys_;
      segs_ = insert (u16 node_id) (entry (u16 node_id) c.segs_ ++ (seg ∷ [])) c.segs_;
    }

unfoldable pub save_region : ℕ → ℕ → ℕ → ComputeNode → Outcome ComputeNode
save_region node_id region rkey c = do
  assert (bit_and region node_mask == 0)
  assert (bit_and region c.seg_mask_ == 0)
  let key = region_key node_id region
  elim (lookup key c.segment_rkeys_) [
    | none ↦ done (add_region node_id key rkey c)
    | some old ↦ done c
  ]

-- `.at(idx)` throws where there is no such connection.
unfoldable pub get_conn : ℕ → ℕ → ComputeNode → Outcome ConnInfo
get_conn ptr_raw idx c =
    let node_id = bit_and (ptr_raw / 2 ^ 48) 65535 in
    elim (get_elem? (entry node_id c.node_connections_) idx) [
      | none ↦ abort
      | some info ↦ done info
    ]

-- The iterator is not tested.
unfoldable pub get_rkey : ℕ → ComputeNode → Outcome ℕ
get_rkey raw c = at (lookup (bit_and raw (not64 c.seg_mask_)) c.segment_rkeys_)

-- The id and the buffer of the next thread.
unfoldable pub register_thread : ComputeNode → Outcome ((ℕ × ℕ) × ComputeNode)
register_thread c =
    let id = c.threads_ in
    if leb c.num_threads_ id
    then abort
    else done ((id, c.seg_ + id * c.thread_bufsz_), record c { threads_ = u64 (id + 1) })

unfoldable pub get_seg_start : ℕ → ℕ → ComputeNode → Outcome ℕ
get_seg_start mn_id seg_id c =
    at (get_elem? (entry mn_id c.segs_) seg_id) >>= λ seg. done seg.start_

unfoldable pub get_alloc_hint : ℕ → ℕ → ComputeNode → Outcome ℕ
get_alloc_hint mn_id seg_id c =
    at (get_elem? (entry mn_id c.segs_) seg_id) >>= λ seg. done seg.hint_
