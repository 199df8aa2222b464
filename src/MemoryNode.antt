-- ===== src/MemoryNode.antt =====
-- `MemoryNode` of rdma/include/remus/mem_node.h: the connections that it waits for, and the events of
-- its listening endpoint. Segments and their registrations are given by their addresses and keys.
pub mod Accepts
pub mod Expected
mod Tests
use remus_tutorial.Prelude.{
  ℕ, zero, suc, ◌+◌, ◌-◌, ◌*◌, ◌^◌, ◌&&◌, Bool, true, false, not, ◌==◌, leb, ltb, u32, u64, sub64,
  if◌then◌else◌, Option, none, some, Outcome, done, abort, diverge, ◌>>=◌, ◌>>◌, assert, List, [],
  ◌∷◌, ◌++◌,
}
use remus_tutorial.Config.{Config}
use remus_tutorial.ComputeNode.Connect.{RegionInfo}

-- `conns_` holds the ids of the machines at the other ends.
pub record MemoryNode : Type 0 where
  pub self_ : ℕ
  pub ris_ : List RegionInfo
  pub remaining_conns_ : ℕ
  pub conns_ : List ℕ
  pub total_threads_ : ℕ

-- `<=` on the numbers as ints.
abbrev int_le : ℕ → ℕ → Bool
int_le x y = leb (u32 (x + 2 ^ 31)) (u32 (y + 2 ^ 31))

-- `cn - c0 + 1` as a uint32_t, less one where this node computes too: the compute nodes that will
-- connect. The three ids become ints.
abbrev pub remote_nodes : ℕ → ℕ → ℕ → ℕ
remote_nodes id c0 cn =
    let cns = u32 (u32 cn + 2 ^ 32 - u32 c0 + 1) in
    if int_le c0 id && int_le id cn then u32 (cns + 2 ^ 32 - 1) else u32 cns

-- The constructor, for the segments that it has made.
unfoldable pub construct : Config → ℕ → List RegionInfo → MemoryNode
construct args self segs = record {
  self_ = self;
  ris_ = segs;
  remaining_conns_ =
      u32 (remote_nodes args.node_id args.first_cn_id args.last_cn_id * u32 args.qp_lanes);
  conns_ = [];
  total_threads_ = u64 (args.cn_threads * u64 (sub64 args.last_cn_id args.first_cn_id + 1));
}

-- `get_local_rkeys`
unfoldable pub get_local_rkeys : MemoryNode → List RegionInfo
get_local_rkeys n = n.ris_

-- A request carries the id of the machine in its private data. The two flags say whether the library
-- sets the connection up, and whether it sends the regions.
pub record Request : Type 0 where
  pub private_data : Option ℕ
  pub accepted : Bool
  pub sent : Bool

-- What `rdma_get_cm_event` reports.
pub data CmEvent : Type 0 where
  again broken : CmEvent
  timewait_exit established disconnected device_removal unexpected : CmEvent
  connect_request : Request → CmEvent

unfoldable pub on_connect : Request → MemoryNode → Outcome MemoryNode
on_connect q n = elim q.private_data [
  | none ↦ abort
  | some machine_id ↦
      (assert (not (machine_id == n.self_))
        >> assert q.accepted
        >> assert q.sent
        >> done (record n {
          conns_ = n.conns_ ++ (machine_id ∷ []);
          remaining_conns_ = n.remaining_conns_ - 1;
        }))
]

-- What one event does. After a disconnection the endpoint of that machine is destroyed.
unfoldable pub on_event : CmEvent → MemoryNode → Outcome MemoryNode
on_event again n = done n
on_event broken n = abort
on_event timewait_exit n = done n
on_event established n = done n
on_event disconnected n = done n
on_event device_removal n = abort
on_event unexpected n = abort
on_event (connect_request q) n = on_connect q n

-- `handle_connections` on the events that arrive, with the events that it leaves.
unfoldable pub handle_connections : List CmEvent → MemoryNode → Outcome (MemoryNode × List CmEvent)
handle_connections [] n = if n.remaining_conns_ == 0 then done (n, []) else diverge
handle_connections (e ∷ events) n =
    let rest = on_event e n >>= λ n'. handle_connections events n' in
    if n.remaining_conns_ == 0 then done (n, e ∷ events) else rest

-- `~MemoryNode` waits for this.
unfoldable pub may_shut_down : ℕ → MemoryNode → Bool
may_shut_down control_flag n = control_flag == n.total_threads_
