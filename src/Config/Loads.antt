-- ===== src/Config/Loads.antt =====
-- Whatever the command line is, a program of the library ends with an error message or has a value
-- of its type for every flag, and policies that the library knows.
use Prim.Native.String.{String}
use text.Mathlib.Text.{◌==◌ as str_eq}
use text.Mathlib.TextEquality.{eq_iff}
use remus_tutorial.Prelude.{
  ◌≡◌, ◌∙◌, refl, ap, sym, subst, true, ◌||◌, Bool-cases, inl, inr, Outcome, done, abort, fault,
  diverge, ◌>>=◌, List, [], ◌∷◌,
}
use remus_tutorial.Config.{Config}
use remus_tutorial.Config.Args
use remus_tutorial.ArgMap.{ArgMap, Arg, u64, Conversions, find, parse, is_option}
use remus_tutorial.ArgMap.Held.{Holds}
use remus_tutorial.ArgMap.Typed.{IsIn, HasChoices}
use remus_tutorial.ArgMap.Parsed.{ParsedAs, Parsed, parse-Parsed, parse-ParsedAs_choices}
use remus_tutorial.ArgMap.Flags.{enum_arg_opt}
use remus_tutorial.Config.Imports.{
  imported, imported_args, import_remus_args, is_u64, check, check-IsTyped, uget-Parsed,
  sget-ParsedAs,
}
use remus_tutorial.QpSchedPolicy
use remus_tutorial.MnAllocPolicy

abbrev AllOf : (String → Type 0) → List String → Type 0
AllOf P [] = Unit
AllOf P (c ∷ choices) = P c × AllOf P choices

of_option :
    (P : String → Type 0) (s : String) (choices : List String)
    → is_option s choices ≡ true
    → AllOf P choices
    → P s
of_option P s [] e all = absurd (cc)
of_option P s (c ∷ choices) e (now, later) = elim (Bool-cases (str_eq c s)) [
  | inl same ↦ subst P ((eq_iff c s).0 same) now
  | inr other ↦ of_option P s choices (ap (λ b. b || is_option s choices) (sym other) ∙ e) later
]

-- A policy that its component knows.
abbrev pub IsSched : String → Type 0
IsSched s = (p : QpSchedPolicy.Policy) × (QpSchedPolicy.to_policy s ≡ done p)

abbrev pub IsAlloc : String → Type 0
IsAlloc s = (p : MnAllocPolicy.Policy) × (MnAllocPolicy.to_policy s ≡ done p)

IsSched-choices : AllOf IsSched Args.qp_sched_pols
unfolding QpSchedPolicy.to_policy
IsSched-choices = (
  (QpSchedPolicy.rand, refl),
  ((QpSchedPolicy.rr, refl), ((QpSchedPolicy.mod_, refl), ((QpSchedPolicy.one_to_one, refl), tt))),
)

IsAlloc-choices : AllOf IsAlloc Args.alloc_pols
unfolding MnAllocPolicy.to_policy
IsAlloc-choices = (
  (MnAllocPolicy.rand, refl),
  (
    (MnAllocPolicy.global_rr, refl),
    (
      (MnAllocPolicy.global_mod, refl),
      ((MnAllocPolicy.local_rr, refl), ((MnAllocPolicy.local_mod, refl), tt)),
    ),
  ),
)

-- An error message, or values with policies that are known.
abbrev pub Loads : Outcome Config → Type 0
Loads (done cfg) = IsSched cfg.qp_sched_pol × IsAlloc cfg.alloc_pol
Loads abort = Unit
Loads fault = ⊥
Loads diverge = ⊥

abbrev u64_flags : List String
u64_flags =
    Args.node_id_flag ∷ Args.seg_size_flag ∷ Args.segs_per_mn_flag ∷ Args.first_cn_id_flag
    ∷ Args.last_cn_id_flag ∷ Args.first_mn_id_flag ∷ Args.last_mn_id_flag ∷ Args.qp_lanes_flag
    ∷ Args.mn_port_flag ∷ Args.cn_threads_flag ∷ Args.cn_thread_bufsz_flag
    ∷ Args.cn_ops_per_thread_flag ∷ Args.cn_wrs_per_seq_flag ∷ []

module _ {F : Type 0} where
  abbrev AllParsed : List String → Outcome (ArgMap F) → Type 0
  AllParsed [] o = Unit
  AllParsed (flag ∷ flags) o = Parsed flag u64 o × AllParsed flags o

  abbrev AllChecked : List (String × Arg F) → List String → Type 0
  AllChecked args [] = Unit
  AllChecked args (flag ∷ flags) = (check (find flag args) ≡ true) × AllChecked args flags

  all_parsed :
      (c : Conversions F) (name : String) (argv : List String) (flags : List String)
      → AllChecked (imported {F = F}).args flags
      → AllParsed flags (parse c name argv imported)
  all_parsed c name argv [] ok = tt
  all_parsed c name argv (flag ∷ flags) (now, later) = (
    parse-Parsed c name argv imported flag u64 (check-IsTyped flag (imported {F = F}).args now),
    all_parsed c name argv flags later,
  )

  args_checked : (c : Conversions F) → AllChecked (imported {F = F}).args u64_flags
  unfolding check is_u64 find imported_args Args.remus_args
  args_checked c = (
    refl,
    (
      refl,
      (refl, (refl, (refl, (refl, (refl, (refl, (refl, (refl, (refl, (refl, (refl, tt))))))))))),
    ),
  )

  sched-Holds :
      (c : Conversions F)
      → Holds (HasChoices Args.qp_sched_pols) Args.qp_sched_pol_flag (imported {F = F}).args
  unfolding find imported_args Args.remus_args
  sched-Holds c = record {
    arg = enum_arg_opt Args.qp_sched_pol_flag "RAND" Args.qp_sched_pols;
    known = refl;
    fits = (refl, refl, refl);
  }

  alloc-Holds :
      (c : Conversions F)
      → Holds (HasChoices Args.alloc_pols) Args.alloc_pol_flag (imported {F = F}).args
  unfolding find imported_args Args.remus_args
  alloc-Holds c = record {
    arg = enum_arg_opt Args.alloc_pol_flag "GLOBAL-RR" Args.alloc_pols;
    known = refl;
    fits = (refl, refl, refl);
  }

  config_of-Loads :
      (o : Outcome (ArgMap F))
      → AllParsed u64_flags o
      → ParsedAs (IsIn Args.qp_sched_pols) Args.qp_sched_pol_flag o
      → ParsedAs (IsIn Args.alloc_pols) Args.alloc_pol_flag o
      → Loads (o >>= Args.config_of)
  unfolding Args.config_of
  config_of-Loads (done m)
        (p1, (p2, (p3, (p4, (p5, (p6, (p7, (p8, (p9, (p10, (p11, (p12, (p13, _))))))))))))) ps pa =
      let (n1, e1) = uget-Parsed Args.node_id_flag m p1 in
      let (n2, e2) = uget-Parsed Args.seg_size_flag m p2 in
      let (n3, e3) = uget-Parsed Args.segs_per_mn_flag m p3 in
      let (n4, e4) = uget-Parsed Args.first_cn_id_flag m p4 in
      let (n5, e5) = uget-Parsed Args.last_cn_id_flag m p5 in
      let (n6, e6) = uget-Parsed Args.first_mn_id_flag m p6 in
      let (n7, e7) = uget-Parsed Args.last_mn_id_flag m p7 in
      let (n8, e8) = uget-Parsed Args.qp_lanes_flag m p8 in
      let (n9, e9) = uget-Parsed Args.mn_port_flag m p9 in
      let (n10, e10) = uget-Parsed Args.cn_threads_flag m p10 in
      let (n11, e11) = uget-Parsed Args.cn_thread_bufsz_flag m p11 in
      let (n12, e12) = uget-Parsed Args.cn_ops_per_thread_flag m p12 in
      let (n13, e13) = uget-Parsed Args.cn_wrs_per_seq_flag m p13 in
      let (sched, es, known_s) = sget-ParsedAs Args.qp_sched_pols Args.qp_sched_pol_flag m ps in
      let (alloc, ea, known_a) = sget-ParsedAs Args.alloc_pols Args.alloc_pol_flag m pa in
      rw (e1, e2, e3, e4, e5, e6, e7, e8, es, e9, e10, e11, ea, e12, e13)
        (
          of_option IsSched sched Args.qp_sched_pols known_s IsSched-choices,
          of_option IsAlloc alloc Args.alloc_pols known_a IsAlloc-choices,
        )
  config_of-Loads abort all ps pa = tt
  config_of-Loads fault all ps pa = ps
  config_of-Loads diverge all ps pa = ps

  -- Whatever the arguments are, and whatever the conversions of numbers make of them, loading the
  -- flags of the library either aborts with a message or ends with a value for every flag, and then
  -- the two policies are ones that the schedulers of lanes and of segments know.
  pub load_config-Loads :
      (c : Conversions F) (name : String) (argv : List String)
      → Loads (Args.load_config c name argv)
  unfolding Args.load_config
  load_config-Loads c name argv = rw import_remus_args (
      config_of-Loads (parse c name argv imported)
        (all_parsed c name argv u64_flags (args_checked c))
        (parse-ParsedAs_choices c name argv imported Args.qp_sched_pol_flag Args.qp_sched_pols refl
          (sched-Holds c))
        (parse-ParsedAs_choices c name argv imported Args.alloc_pol_flag Args.alloc_pols refl
          (alloc-Holds c)))
