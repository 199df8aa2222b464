-- ===== src/Config/Imports.antt =====
-- The map of arguments after `import(ARGS)`, and its getters after `parse`.
use Prim.Native.String.{String}
use remus_tutorial.Prelude.{
  ◌≡◌, ◌∙◌, refl, ap, sym, arith, ℕ, Bool, true, false, Option, none, some, Option-cases, inl, inr,
  done, List, [], ◌∷◌,
}
use remus_tutorial.Config.Args
use remus_tutorial.ArgMap.{
  ArgMap, Arg, ArgValType, u64, f64, str, bool, Value, of_u64, of_f64, of_str, of_bool, import_args,
  import_all, find, put, uget, sget, is_option,
}
use remus_tutorial.ArgMap.Typed.{Suits, IsIn, IsTyped}
use remus_tutorial.ArgMap.Parsed.{ParsedAs, Parsed}

module _ {F : Type 0} where
  -- The flags after `import`.
  unfoldable pub imported_args : List (Arg F) → List (String × Arg F)
  imported_args [] = []
  imported_args (a ∷ more) = (a.flag, a) ∷ imported_args more

  abbrev pub imported : ArgMap F
  imported = record { args = imported_args Args.remus_args; program_name = "" }

  pub import_remus_args : import_args Args.remus_args Args.no_args ≡ done imported
  unfolding import_args import_all find put Args.remus_args imported_args
  import_remus_args = refl

  -- A number that is required or has a default.
  unfoldable pub is_u64 : ArgValType → Option (Value F) → Bool
  is_u64 u64 none = true
  is_u64 u64 (some (of_u64 n)) = true
  is_u64 t v = false

  unfoldable pub check : Option (Arg F) → Bool
  check none = false
  check (some a) = is_u64 a.type a.value

  is_u64-HasType :
      (t : ArgValType) (v : Option (Value F)) → is_u64 t v ≡ true → (t ≡ u64) × Suits u64 v
  unfolding is_u64
  is_u64-HasType u64 none e = (refl, tt)
  is_u64-HasType u64 (some (of_u64 n)) e = (refl, tt)
  is_u64-HasType u64 (some (of_f64 x)) e = absurd cc
  is_u64-HasType u64 (some (of_str x)) e = absurd cc
  is_u64-HasType u64 (some (of_bool x)) e = absurd cc
  is_u64-HasType f64 v e = absurd cc
  is_u64-HasType str v e = absurd cc
  is_u64-HasType bool v e = absurd cc

  pub check-IsTyped :
      (flag : String) (args : List (String × Arg F))
      → check (find flag args) ≡ true
      → IsTyped flag u64 args
  unfolding check
  check-IsTyped flag args e = elim (Option-cases (find flag args)) [
    | inl missing ↦ absurd (ground (arith, e, missing))
    | inr (a, known) ↦ record {
      arg = a;
      known = known;
      fits = is_u64-HasType a.type a.value (ap check (sym known) ∙ e);
    }
  ]

  -- The getters after `parse`.
  pub uget-Parsed :
      (flag : String) (m : ArgMap F) → Parsed flag u64 (done m) → (n : ℕ) × (uget flag m ≡ done n)
  unfolding uget
  uget-Parsed flag m (of_u64 n, e, t) = (n, rw e refl)
  uget-Parsed flag m (of_f64 x, e, t) = absurd t
  uget-Parsed flag m (of_str x, e, t) = absurd t
  uget-Parsed flag m (of_bool x, e, t) = absurd t

  pub sget-ParsedAs :
      (choices : List String) (flag : String) (m : ArgMap F)
      → ParsedAs (IsIn choices) flag (done m)
      → (s : String) × (sget flag m ≡ done s) × (is_option s choices ≡ true)
  unfolding sget
  sget-ParsedAs choices flag m (of_str s, e, t) = (s, rw e refl, t)
  sget-ParsedAs choices flag m (of_u64 x, e, t) = absurd t
  sget-ParsedAs choices flag m (of_f64 x, e, t) = absurd t
  sget-ParsedAs choices flag m (of_bool x, e, t) = absurd t
