-- ===== src/Config/Args.antt =====
-- The flags of rdma/include/remus/cfg.h, with their types, defaults and choices, and the values that
-- the parts read after `parse`. A description is only printed.
use Prim.Native.String.{String}
use remus_tutorial.Prelude.{Outcome, done, ◌>>=◌, List, [], ◌∷◌}
use remus_tutorial.Config.{Config}
use remus_tutorial.ArgMap.{ArgMap, Arg, Conversions, import_args, parse, uget, sget}
use remus_tutorial.ArgMap.Flags.{u64_arg, u64_arg_opt, enum_arg_opt, bool_arg_opt}

abbrev pub node_id_flag : String
node_id_flag = "--node-id"

abbrev pub mn_port_flag : String
mn_port_flag = "--mn-port"

abbrev pub first_mn_id_flag : String
first_mn_id_flag = "--first-mn-id"

abbrev pub last_mn_id_flag : String
last_mn_id_flag = "--last-mn-id"

abbrev pub seg_size_flag : String
seg_size_flag = "--seg-size"

abbrev pub segs_per_mn_flag : String
segs_per_mn_flag = "--segs-per-mn"

abbrev pub first_cn_id_flag : String
first_cn_id_flag = "--first-cn-id"

abbrev pub last_cn_id_flag : String
last_cn_id_flag = "--last-cn-id"

abbrev pub qp_lanes_flag : String
qp_lanes_flag = "--qp-lanes"

abbrev pub qp_sched_pol_flag : String
qp_sched_pol_flag = "--qp-sched-pol"

abbrev pub alloc_pol_flag : String
alloc_pol_flag = "--alloc-pol"

abbrev pub cn_threads_flag : String
cn_threads_flag = "--cn-threads"

abbrev pub cn_ops_per_thread_flag : String
cn_ops_per_thread_flag = "--cn-ops-per-thread"

abbrev pub cn_thread_bufsz_flag : String
cn_thread_bufsz_flag = "--cn-thread-bufsz"

abbrev pub cn_wrs_per_seq_flag : String
cn_wrs_per_seq_flag = "--cn-wrs-per-seq"

abbrev pub help_flag : String
help_flag = "--help"

abbrev pub qp_sched_pols : List String
qp_sched_pols = "RAND" ∷ "RR" ∷ "MOD" ∷ "ONE_TO_ONE" ∷ []

abbrev pub alloc_pols : List String
alloc_pols = "RAND" ∷ "GLOBAL-RR" ∷ "GLOBAL-MOD" ∷ "LOCAL-RR" ∷ "LOCAL-MOD" ∷ []

module _ {F : Type 0} where
  -- `ARGS`
  unfoldable pub remus_args : List (Arg F)
  unfolding u64_arg u64_arg_opt enum_arg_opt bool_arg_opt
  remus_args =
      u64_arg node_id_flag
      ∷ u64_arg_opt seg_size_flag 20
      ∷ u64_arg_opt segs_per_mn_flag 2
      ∷ u64_arg first_cn_id_flag
      ∷ u64_arg last_cn_id_flag
      ∷ u64_arg first_mn_id_flag
      ∷ u64_arg last_mn_id_flag
      ∷ u64_arg_opt qp_lanes_flag 2
      ∷ enum_arg_opt qp_sched_pol_flag "RAND" qp_sched_pols
      ∷ u64_arg mn_port_flag
      ∷ u64_arg cn_threads_flag
      ∷ u64_arg_opt cn_thread_bufsz_flag 20
      ∷ enum_arg_opt alloc_pol_flag "GLOBAL-RR" alloc_pols
      ∷ u64_arg_opt cn_ops_per_thread_flag 8
      ∷ u64_arg_opt cn_wrs_per_seq_flag 16
      ∷ bool_arg_opt help_flag
      ∷ []

  -- What the parts get from the map.
  unfoldable pub config_of : ArgMap F → Outcome Config
  config_of m = do
    node_id ← uget node_id_flag m
    seg_size ← uget seg_size_flag m
    segs_per_mn ← uget segs_per_mn_flag m
    first_cn_id ← uget first_cn_id_flag m
    last_cn_id ← uget last_cn_id_flag m
    first_mn_id ← uget first_mn_id_flag m
    last_mn_id ← uget last_mn_id_flag m
    qp_lanes ← uget qp_lanes_flag m
    qp_sched_pol ← sget qp_sched_pol_flag m
    mn_port ← uget mn_port_flag m
    cn_threads ← uget cn_threads_flag m
    cn_thread_bufsz ← uget cn_thread_bufsz_flag m
    alloc_pol ← sget alloc_pol_flag m
    cn_ops_per_thread ← uget cn_ops_per_thread_flag m
    cn_wrs_per_seq ← uget cn_wrs_per_seq_flag m
    done (record {
      node_id = node_id;
      seg_size = seg_size;
      segs_per_mn = segs_per_mn;
      first_cn_id = first_cn_id;
      last_cn_id = last_cn_id;
      first_mn_id = first_mn_id;
      last_mn_id = last_mn_id;
      qp_lanes = qp_lanes;
      qp_sched_pol = qp_sched_pol;
      mn_port = mn_port;
      cn_threads = cn_threads;
      cn_thread_bufsz = cn_thread_bufsz;
      alloc_pol = alloc_pol;
      cn_ops_per_thread = cn_ops_per_thread;
      cn_wrs_per_seq = cn_wrs_per_seq;
    })

  abbrev pub no_args : ArgMap F
  no_args = record { args = []; program_name = "" }

  -- `import(ARGS)` and `parse` as every program does them, and then the values.
  unfoldable pub load_config : Conversions F → String → List String → Outcome Config
  load_config c name argv = import_args remus_args no_args >>= parse c name argv >>= config_of
