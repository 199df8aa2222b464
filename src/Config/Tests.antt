-- ===== src/Config/Tests.antt =====
-- Runs of the flags of the library, and uses of the theorems at concrete inputs.
use Prim.Native.String.{String}
use text.Mathlib.Text.{◌==◌ as str_eq}
use remus_tutorial.Prelude.{
  ℕ, ◌≡◌, refl, if◌then◌else◌, none, some, Option, done, abort, List, [], ◌∷◌,
}
use remus_tutorial.Config.{Config}
use remus_tutorial.Config.Args.{remus_args, config_of, load_config}
use remus_tutorial.Config.Loads.{Loads, load_config-Loads}
use remus_tutorial.ArgMap.{
  Conversions, import_args, import_all, find, put, parse, parse_from, read_value, all_given, uget,
  sget,
}

-- Two numbers; no floating-point numbers.
abbrev digit : String → Option ℕ
digit s = if str_eq s "0" then some 0 else if str_eq s "3" then some 3 else none

abbrev digits : Conversions ℕ
digits = record { stoull = digit; stod = λ s. none; basename = λ s. s }

-- The flags without a default.
abbrev required : List String
required =
    "--node-id" ∷ "0" ∷ "--first-cn-id" ∷ "0" ∷ "--last-cn-id" ∷ "3" ∷ "--first-mn-id" ∷ "0"
    ∷ "--last-mn-id" ∷ "3" ∷ "--mn-port" ∷ "3" ∷ "--cn-threads" ∷ "3" ∷ []

abbrev defaults : Config
defaults = record {
  node_id = 0;
  seg_size = 20;
  segs_per_mn = 2;
  first_cn_id = 0;
  last_cn_id = 3;
  first_mn_id = 0;
  last_mn_id = 3;
  qp_lanes = 2;
  qp_sched_pol = "RAND";
  mn_port = 3;
  cn_threads = 3;
  cn_thread_bufsz = 20;
  alloc_pol = "GLOBAL-RR";
  cn_ops_per_thread = 8;
  cn_wrs_per_seq = 16;
}

loaded :
    (load_config digits "root" required ≡ done defaults)
    × (load_config digits "root" ("--qp-sched-pol" ∷ "ONE_TO_ONE" ∷ required)
        ≡ done (record defaults { qp_sched_pol = "ONE_TO_ONE" }))
    × (load_config digits "root" ("--qp-sched-pol" ∷ "LOCAL-RR" ∷ required) ≡ abort)
    × (load_config digits "root" [] ≡ abort)
unfolding load_config remus_args import_args import_all find put parse parse_from read_value
    all_given config_of uget sget
loaded = (refl, refl, refl, refl)

load_config-Loads_example : Loads (load_config digits "root" required)
load_config-Loads_example = load_config-Loads digits "root" required
