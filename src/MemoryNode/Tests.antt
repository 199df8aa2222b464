-- ===== src/MemoryNode/Tests.antt =====
-- Runs of a memory node, and uses of the theorems at concrete inputs.
use remus_tutorial.Prelude.{◌+◌, ◌-◌, ◌≡◌, arith, refl, true, some, abort, List, [], ◌∷◌}
use remus_tutorial.Config.{Config}
use remus_tutorial.MemoryNode.{
  MemoryNode, CmEvent, Request, construct, established, again, connect_request, on_event,
  on_connect,
}
use remus_tutorial.MemoryNode.Expected.{opened_by, expected-opened}

abbrev two_nodes : Config
two_nodes = record {
  node_id = 3;
  seg_size = 20;
  segs_per_mn = 2;
  first_cn_id = 2;
  last_cn_id = 3;
  first_mn_id = 0;
  last_mn_id = 3;
  qp_lanes = 2;
  qp_sched_pol = "RR";
  mn_port = 33330;
  cn_threads = 3;
  cn_thread_bufsz = 12;
  alloc_pol = "GLOBAL-RR";
  cn_ops_per_thread = 8;
  cn_wrs_per_seq = 4;
}

abbrev from_two : Request
from_two = record { private_data = some 2; accepted = true; sent = true }

abbrev node_three : MemoryNode
node_three = record { self_ = 3; ris_ = []; remaining_conns_ = 2; conns_ = []; total_threads_ = 6 }

abbrev events : List CmEvent
events =
    again ∷ connect_request from_two ∷ established ∷ connect_request from_two ∷ established ∷ []

self_connection :
    on_event
      (connect_request (record { private_data = some 3; accepted = true; sent = true }))
      node_three
    ≡ abort
unfolding on_event on_connect
self_connection = refl

-- Compute nodes 2 and 3 open two lanes each to every other memory node.
expected-opened_example :
    (construct two_nodes 3 []).remaining_conns_ ≡ opened_by 2 (3 - 2 + 1) 2 (0 ∷ 1 ∷ 2 ∷ 3 ∷ []) 3
expected-opened_example =
    expected-opened two_nodes 3 [] (0 ∷ 1 ∷ 2 ∷ 3 ∷ []) (omega arith) (omega arith) (omega arith)
      (omega arith) refl
