-- ===== src/ArgMap/Tests.antt =====
-- Runs of the parser, and uses of the theorems at concrete inputs.
use Prim.Native.String.{String}
use text.Mathlib.Text.{◌==◌ as str_eq}
use remus_tutorial.Prelude.{
  ℕ, ◌≡◌, refl, if◌then◌else◌, false, none, some, Option, done, abort, ◌>>=◌, List, [], ◌∷◌,
}
use remus_tutorial.ArgMap.{
  ArgMap, u64, bool, of_bool, Arg, Conversions, import_args, import_all, find, put, parse,
  parse_from, read_value, all_given, uget,
}
use remus_tutorial.ArgMap.Flags.{u64_arg, bool_arg_opt, enum_arg_opt}
use remus_tutorial.ArgMap.Typed.{IsTyped}

-- One number; no floating-point numbers.
abbrev digit : String → Option ℕ
digit s = if str_eq s "4" then some 4 else none

abbrev digits : Conversions ℕ
digits = record { stoull = digit; stod = λ s. none; basename = λ s. s }

abbrev flags : List (Arg ℕ)
flags =
    u64_arg "--qp-lanes"
    ∷ bool_arg_opt "--help"
    ∷ enum_arg_opt "--alloc-pol" "RAND" ("RAND" ∷ "GLOBAL-RR" ∷ [])
    ∷ []

abbrev no_flags : ArgMap ℕ
no_flags = record { args = []; program_name = "" }

abbrev imported : ArgMap ℕ
imported = record {
  args =
      ("--qp-lanes", record { flag = "--qp-lanes"; type = u64; value = none; options = [] })
      ∷ (
        "--help",
        record { flag = "--help"; type = bool; value = some (of_bool false); options = [] },
      )
      ∷ [];
  program_name = "";
}

qp_lanes-IsTyped : IsTyped "--qp-lanes" u64 imported.args
unfolding find
qp_lanes-IsTyped = record {
  arg = record { flag = "--qp-lanes"; type = u64; value = none; options = [] };
  known = refl;
  fits = (refl, tt);
}

four_lanes :
    (import_args flags no_flags
      >>= parse digits "bench" ("--help" ∷ "--qp-lanes" ∷ "4" ∷ [])
      >>= uget "--qp-lanes")
    ≡ done 4
unfolding import_args import_all find put parse parse_from read_value all_given uget u64_arg
    bool_arg_opt enum_arg_opt
four_lanes = refl

no_value :
    (import_args flags no_flags >>= parse digits "bench" ("--qp-lanes" ∷ "--help" ∷ [])) ≡ abort
unfolding import_args import_all find put parse parse_from read_value all_given u64_arg bool_arg_opt
    enum_arg_opt
no_value = refl

bad_option :
    (import_args flags no_flags
      >>= parse digits "bench" ("--qp-lanes" ∷ "4" ∷ "--alloc-pol" ∷ "RR" ∷ []))
    ≡ abort
unfolding import_args import_all find put parse parse_from read_value all_given u64_arg bool_arg_opt
    enum_arg_opt
bad_option = refl
