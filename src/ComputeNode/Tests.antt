-- ===== src/ComputeNode/Tests.antt =====
-- Runs of a compute node, and uses of the theorems at concrete inputs.
use remus_tutorial.Prelude.{
  ◌+◌, ◌-◌, ◌*◌, ◌^◌, ◌≡◌, arith, refl, done, abort, fault, ◌>>=◌, lookup, some, inl, [], ◌∷◌,
}
use remus_tutorial.Config.{Config}
use remus_tutorial.ComputeNode.{
  ComputeNode, bit_width, construct, save_region, get_conn, get_rkey, region_key,
}
use remus_tutorial.ComputeNode.Connect.{Peers, attempts, next_backoff, rejected, established}
use remus_tutorial.ComputeNode.Counts.{IsSound}
use remus_tutorial.ComputeNode.Backoff.{Doubles, attempts-Doubles}
use remus_tutorial.ComputeNode.Keys.{first_of, get_rkey-save_region}

abbrev three_threads : Config
three_threads = record {
  node_id = 3;
  seg_size = 20;
  segs_per_mn = 2;
  first_cn_id = 2;
  last_cn_id = 3;
  first_mn_id = 0;
  last_mn_id = 1;
  qp_lanes = 4;
  qp_sched_pol = "RR";
  mn_port = 33330;
  cn_threads = 3;
  cn_thread_bufsz = 12;
  alloc_pol = "GLOBAL-RR";
  cn_ops_per_thread = 8;
  cn_wrs_per_seq = 4;
}

abbrev new_node : ComputeNode
new_node = construct three_threads 65536

buffer_capacity : new_node.seg_capacity ≡ 16384
unfolding construct bit_width
buffer_capacity = refl

unknown_segment : get_rkey 5 new_node ≡ fault
unfolding construct get_rkey lookup
unknown_segment = refl

no_connection : get_conn 5 0 new_node ≡ abort
unfolding construct get_conn lookup
no_connection = refl

unaligned_region : save_region 1 4096 7 new_node ≡ abort
unfolding construct save_region
unaligned_region = refl

new_node-mask : new_node.seg_mask_ ≡ 2 ^ 20 - 1
unfolding construct
new_node-mask = refl

get_rkey-save_region_example :
    (save_region 1 (2 ^ 20 * 3) 7 new_node >>= get_rkey (1 * 2 ^ 48 + 2 ^ 20 * 3 + 100))
    ≡ done (first_of (lookup (region_key 1 (2 ^ 20 * 3)) new_node.segment_rkeys_) 7)
get_rkey-save_region_example =
    get_rkey-save_region 20 1 (2 ^ 20 * 3) (omega arith) (omega arith) (omega arith) refl 7 100
      new_node new_node-mask (omega arith)

-- Memory node 0 gives one region over each of two lanes.
abbrev one_region : Peers
one_region = record {
  dial = λ node i. record { conn_ = i; lkey_ = 9 };
  deliver = λ node i. some (record { raddr = 2 ^ 20 * 3; rkey = 7 } ∷ []);
}

one_region-IsSound : IsSound new_node.seg_mask_ one_region
unfolding construct
one_region-IsSound = record {
  regions = λ node i. record { raddr = 2 ^ 20 * 3; rkey = 7 } ∷ [];
  delivered = λ node i. refl;
  aligned = λ node i. (record { top = refl; low = refl }, tt);
}

two_rejections : attempts 5 0 (rejected ∷ rejected ∷ established ∷ []) ≡ done (100 ∷ 1200 ∷ [])
unfolding attempts next_backoff
two_rejections = refl

attempts-Doubles_example : Doubles 0 (100 ∷ 1200 ∷ [])
attempts-Doubles_example =
    attempts-Doubles 5 0 (rejected ∷ rejected ∷ established ∷ []) (omega arith) (omega arith)
      (inl refl) two_rejections
