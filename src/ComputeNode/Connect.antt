-- ===== src/ComputeNode/Connect.antt =====
-- How a compute node connects to the memory nodes: `connect_local` and `connect_remote` of
-- rdma/include/remus/compute_node.h. What the RDMA libraries make of a connection is a parameter.
use remus_tutorial.Prelude.{
  ℕ, zero, suc, ◌+◌, ◌*◌, ◌==◌, ltb, min, u16, u32, if◌then◌else◌, Option, none, some, Outcome,
  done, abort, diverge, ◌>>=◌, List, [], ◌∷◌,
}
use remus_tutorial.ComputeNode.{ComputeNode, ConnInfo, save_conn, save_region}

-- `internal::RegionInfo`
pub record RegionInfo : Type 0 where
  pub raddr : ℕ
  pub rkey : ℕ

-- The id of a `MachineInfo`, which is a uint16_t.
abbrev pub machine_id : ℕ → ℕ
machine_id id = u16 id

-- The connection and the local key of the `i`-th lane to a memory node, and what `DeliverVec`
-- receives over it; `none` is an error.
pub record Peers : Type 0 where
  pub dial : ℕ → ℕ → ConnInfo
  pub deliver : ℕ → ℕ → Option (List RegionInfo)

abbrev pub save_regions : ℕ → List RegionInfo → ComputeNode → Outcome ComputeNode
save_regions node [] c = done c
save_regions node (r ∷ rs) c = save_region node r.raddr r.rkey c >>= λ c'. save_regions node rs c'

abbrev pub save_lane : ℕ → ConnInfo → Option (List RegionInfo) → ComputeNode → Outcome ComputeNode
save_lane node info none c = abort
save_lane node info (some regions) c =
    save_regions node regions (save_conn node info.conn_ info.lkey_ c)

module _ (p : Peers) where
  -- `n` lanes from the lane `i` on.
  unfoldable pub connect_lanes : ℕ → ℕ → ℕ → ComputeNode → Outcome ComputeNode
  connect_lanes zero i node c = done c
  connect_lanes (suc n) i node c =
      save_lane node (p.dial node i) (p.deliver node i) c >>= λ c'. connect_lanes n (suc i) node c'

  -- `qp_lanes` lanes to each memory node but the machine itself. The machine and the memory nodes are
  -- given by the ids of their `MachineInfo`.
  unfoldable pub connect_remote : ℕ → ℕ → List ℕ → ComputeNode → Outcome ComputeNode
  connect_remote self qp_lanes [] c = done c
  connect_remote self qp_lanes (node ∷ memnodes) c =
      let there =
        connect_lanes qp_lanes 0 node c >>= λ c'. connect_remote self qp_lanes memnodes c' in
      let here = connect_remote self qp_lanes memnodes c in if node == self then here else there

  -- The loopback lanes; the memory node of the same process gives its keys.
  unfoldable pub loop_lanes : ℕ → ℕ → ℕ → List RegionInfo → ComputeNode → Outcome ComputeNode
  loop_lanes zero i node rkeys c = done c
  loop_lanes (suc n) i node rkeys c =
      save_lane node (p.dial node i) (some rkeys) c >>= λ c'. loop_lanes n (suc i) node rkeys c'

  unfoldable pub connect_local :
      ℕ → ℕ → List ℕ → List RegionInfo → ComputeNode → Outcome ComputeNode
  connect_local self qp_lanes [] rkeys c = done c
  connect_local self qp_lanes (node ∷ memnodes) rkeys c =
      let here = loop_lanes qp_lanes 0 node rkeys c >>= λ c'.
      connect_local self qp_lanes memnodes rkeys c' in
      let there = connect_local self qp_lanes memnodes rkeys c in
      if node == self then here else there

-- The events of a connection that is being made: a rejection ends one attempt.
pub data CmEvent : Type 0 where
  established addr_resolved rejected unexpected : CmEvent

abbrev pub connect_backoff_min_us : ℕ
connect_backoff_min_us = 100

abbrev pub connect_backoff_max_us : ℕ
connect_backoff_max_us = 5000000

-- The wait after a rejection.
unfoldable pub next_backoff : ℕ → ℕ → ℕ
next_backoff my_id backoff_us =
    if ltb 0 backoff_us
    then min (u32 (u32 (backoff_us + u32 (100 * my_id)) * 2)) connect_backoff_max_us
    else connect_backoff_min_us

-- The loops of `internal::connect_remote` on the events that arrive: the waits, oldest first.
unfoldable pub attempts : ℕ → ℕ → List CmEvent → Outcome (List ℕ)
attempts my_id backoff_us [] = diverge
attempts my_id backoff_us (established ∷ events) = done []
attempts my_id backoff_us (addr_resolved ∷ events) = attempts my_id backoff_us events
attempts my_id backoff_us (rejected ∷ events) =
    attempts my_id (next_backoff my_id backoff_us) events >>= λ waits.
    done (next_backoff my_id backoff_us ∷ waits)
attempts my_id backoff_us (unexpected ∷ events) = abort
