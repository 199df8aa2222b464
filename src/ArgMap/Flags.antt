-- ===== src/ArgMap/Flags.antt =====
-- The functions of rdma/include/remus/cli.h that make an argument; an argument without a value is
-- required.
use Prim.Native.String.{String}
use remus_tutorial.Prelude.{ℕ, false, some, none, List, []}
use remus_tutorial.ArgMap.{Arg, u64, f64, str, bool, of_u64, of_f64, of_str, of_bool}

module _ {F : Type 0} where
  -- `STR_ARG_OPT` to `F64_ARG`.
  unfoldable pub str_arg_opt : String → String → Arg F
  str_arg_opt flag def_val = record {
    flag = flag;
    type = str;
    value = some (of_str def_val);
    options = [];
  }

  unfoldable pub str_arg : String → Arg F
  str_arg flag = record { flag = flag; type = str; value = none; options = [] }

  unfoldable pub enum_arg_opt : String → String → List String → Arg F
  enum_arg_opt flag def_val options = record {
    flag = flag;
    type = str;
    value = some (of_str def_val);
    options = options;
  }

  unfoldable pub enum_arg : String → List String → Arg F
  enum_arg flag options = record { flag = flag; type = str; value = none; options = options }

  unfoldable pub bool_arg_opt : String → Arg F
  bool_arg_opt flag = record {
    flag = flag;
    type = bool;
    value = some (of_bool false);
    options = [];
  }

  unfoldable pub u64_arg_opt : String → ℕ → Arg F
  u64_arg_opt flag def_val = record {
    flag = flag;
    type = u64;
    value = some (of_u64 def_val);
    options = [];
  }

  unfoldable pub u64_arg : String → Arg F
  u64_arg flag = record { flag = flag; type = u64; value = none; options = [] }

  unfoldable pub f64_arg_opt : String → F → Arg F
  f64_arg_opt flag def_val = record {
    flag = flag;
    type = f64;
    value = some (of_f64 def_val);
    options = [];
  }

  unfoldable pub f64_arg : String → Arg F
  f64_arg flag = record { flag = flag; type = f64; value = none; options = [] }
