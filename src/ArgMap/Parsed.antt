-- ===== src/ArgMap/Parsed.antt =====
-- After `parse` the getter of a flag returns a value of the type of its flag.
use Prim.Native.String.{String}
use text.Mathlib.Text.{◌==◌ as str_eq}
use mathlib.Core.Option.{some-injective}
use remus_tutorial.Prelude.{
  ◌≡◌, ◌∙◌, refl, ap, subst, arith, true, false, Bool-cases, inl, inr, some, Option-cases, Outcome,
  done, abort, fault, diverge, ◌>>=◌, ◌>>◌, assert, List, [], ◌∷◌,
}
use remus_tutorial.ArgMap.{
  ArgMap, ArgValType, Value, Arg, Conversions, find, parse_from, all_given, parse, value_of,
  no_options,
}
use remus_tutorial.ArgMap.Held.{Holds, HoldsAfter, IsKept, parse_from-Holds}
use remus_tutorial.ArgMap.Typed.{
  IsOf, Suits, HasType, IsTyped, IsIn, Among, HasChoices, HasType-IsKept, HasChoices-IsKept,
}

module _ {F : Type 0} where
  -- Where all arguments have a value, the one of a flag that is known has.
  given :
      (flag : String) (args : List (String × Arg F)) {a : Arg F}
      → all_given args ≡ true
      → find flag args ≡ some a
      → (v : Value F) × (a.value ≡ some v)
  unfolding all_given find
  given flag [] all known = absurd cc
  given flag ((at, b) ∷ args) {a} all known = elim (Option-cases b.value) [
    | inl missing ↦ absurd (ground (arith, all, missing))
    | inr (v, there) ↦ elim (Bool-cases (str_eq at flag)) [
      | inl here ↦ (v, ap (λ x. x.value) (some-injective a b (ground (arith, known, here))) ∙ there)
      | inr later ↦
          given flag args {a = a} (ground (arith, all, there)) (ground (arith, known, later))
    ]
  ]

  -- What holds of the value of a flag after a call.
  abbrev pub ParsedAs : (Value F → Type 0) → String → Outcome (ArgMap F) → Type 0
  ParsedAs Q flag (done m) = (v : Value F) × (value_of flag m ≡ done v) × Q v
  ParsedAs Q flag abort = Unit
  ParsedAs Q flag fault = ⊥
  ParsedAs Q flag diverge = ⊥

  abbrev pub Parsed : String → ArgValType → Outcome (ArgMap F) → Type 0
  Parsed flag t = ParsedAs (IsOf t) flag

  module _ (P : Arg F → Type 0) (Q : Value F → Type 0)
      (of_value : (a : Arg F) (v : Value F) → P a → a.value ≡ some v → Q v) (flag : String) where
    all_given-ParsedAs :
        (m : ArgMap F) (name : String) (o : Outcome (List (String × Arg F)))
        → HoldsAfter P flag o
        → ParsedAs Q flag (
            o >>= λ args.
            assert (all_given args) >> done (record m { args = args; program_name = name }))
    all_given-ParsedAs m name (done args) h = elim (Bool-cases (all_given args)) [
      | inl all ↦
          (let (v, there) = given flag args all h.known in
            rw all (v, rw (value_of, h.known, there) refl, of_value h.arg v h.fits there))
      | inr missing ↦ rw missing tt
    ]
    all_given-ParsedAs m name abort h = tt
    all_given-ParsedAs m name fault h = h
    all_given-ParsedAs m name diverge h = h

    pub parse-ParsedAs :
        (c : Conversions F) (name : String) (argv : List String) (m : ArgMap F)
        → IsKept P c
        → Holds P flag m.args
        → ParsedAs Q flag (parse c name argv m)
    unfolding parse
    parse-ParsedAs c name argv m kept h = elim (Bool-cases (str_eq m.program_name "")) [
      | inl first ↦ rw first (
          all_given-ParsedAs m (c.basename name) (parse_from c argv m.args)
            (parse_from-Holds P c kept flag argv m.args h))
      | inr again ↦ rw again tt
    ]

  -- For a flag that was imported with a value of its type or with none: `parse` aborts, or it has a
  -- value of that type afterwards, whatever the arguments are; `parse` never reads past them.
  pub parse-Parsed :
      (c : Conversions F) (name : String) (argv : List String) (m : ArgMap F) (flag : String)
      (t : ArgValType)
      → IsTyped flag t m.args
      → Parsed flag t (parse c name argv m)
  parse-Parsed c name argv m flag t typed =
      parse-ParsedAs (HasType t) (IsOf t) (λ a v h there. subst (Suits t) there h.1) flag c name
        argv m (HasType-IsKept t c) typed

  -- The same for a flag with choices: a value that is parsed is one of them.
  pub parse-ParsedAs_choices :
      (c : Conversions F) (name : String) (argv : List String) (m : ArgMap F) (flag : String)
      (choices : List String)
      → no_options choices ≡ false
      → Holds (HasChoices choices) flag m.args
      → ParsedAs (IsIn choices) flag (parse c name argv m)
  parse-ParsedAs_choices c name argv m flag choices some_choice h =
      parse-ParsedAs (HasChoices choices) (IsIn choices)
        (λ a v has there. subst (Among choices) there has.2) flag c name argv m
        (HasChoices-IsKept choices some_choice c) h
