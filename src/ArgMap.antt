-- ===== src/ArgMap.antt =====
-- rdma/include/remus/cli.h: the arguments of the command line. An exception is an aborted call, as
-- nothing catches it. The conversions of numbers and the type of floating-point numbers are
-- parameters; a map from flags is an association list in which a flag stands once.
pub mod Flags
pub mod Held
pub mod Typed
pub mod Parsed
mod Tests
use Prim.Native.String.{String, len}
use text.Mathlib.Text.{◌==◌ as str_eq, starts_with}
use remus_tutorial.Prelude.{
  ℕ, Bool, true, false, not, ◌&&◌, ◌||◌, ltb, if◌then◌else◌, Option, none, some, Outcome, done,
  abort, fault, ◌>>=◌, ◌>>◌, assert, List, [], ◌∷◌,
}

-- `Arg::ArgValType`
pub data ArgValType : Type 0 where
  u64 f64 str bool : ArgValType

-- `Arg::value_t`, with `F` for double.
pub data Value (F : Type 0) : Type 0 where
  of_u64 : ℕ → Value F
  of_f64 : F → Value F
  of_str : String → Value F
  of_bool : Bool → Value F

-- `Arg`; the description is only printed.
pub record Arg (F : Type 0) : Type 0 where
  pub flag : String
  pub type : ArgValType
  pub value : Option (Value F)
  pub options : List String

pub record ArgMap (F : Type 0) : Type 0 where
  pub args : List (String × Arg F)
  pub program_name : String

-- The conversions `stoull` and `stod`, which throw where there is no number, and `basename`.
pub record Conversions (F : Type 0) : Type 0 where
  pub stoull : String → Option ℕ
  pub stod : String → Option F
  pub basename : String → String

abbrev pub is_option : String → List String → Bool
is_option next [] = false
is_option next (option ∷ more) = str_eq option next || is_option next more

abbrev pub no_options : List String → Bool
no_options [] = true
no_options (option ∷ more) = false

abbrev pub or_throw {ℓ} : {A : Type ℓ} → Option A → Outcome A
or_throw none = abort
or_throw (some a) = done a

abbrev pub is_bool : ArgValType → Bool
is_bool bool = true
is_bool _ = false

module _ {F : Type 0} where
  unfoldable pub find : String → List (String × Arg F) → Option (Arg F)
  find flag [] = none
  find flag ((at, a) ∷ more) = if str_eq at flag then some a else find flag more

  -- The entry of the flag is replaced, or made.
  unfoldable pub put : String → Arg F → List (String × Arg F) → List (String × Arg F)
  put flag a [] = (flag, a) ∷ []
  put flag a ((at, old) ∷ more) =
      if str_eq at flag then (at, a) ∷ more else (at, old) ∷ put flag a more

  abbrev is_new : Option (Arg F) → Bool
  is_new none = true
  is_new (some a) = false

  unfoldable pub import_all : List (Arg F) → List (String × Arg F) → Outcome (List (String × Arg F))
  import_all [] args = done args
  import_all (c ∷ more) args = do
    assert (not (ltb (len c.flag) 2) && starts_with c.flag "-")
    assert (is_new (find c.flag args))
    import_all more (put c.flag c args)

  -- `import`
  unfoldable pub import_args : List (Arg F) → ArgMap F → Outcome (ArgMap F)
  import_args more m = do
    assert (str_eq m.program_name "")
    args ← import_all more m.args
    done (record m { args = args })

  -- The value of an argument that is not a bool; a bool never comes here.
  unfoldable pub read_value : Conversions F → Arg F → String → Outcome (Value F)
  read_value c arg next = elim arg.type [
    | u64 ↦ or_throw (c.stoull next) >>= λ n. done (of_u64 n)
    | f64 ↦ or_throw (c.stod next) >>= λ x. done (of_f64 x)
    | str ↦ assert (no_options arg.options || is_option next arg.options) >> done (of_str next)
    | bool ↦ abort
  ]

  abbrev pub with_value : Arg F → Value F → Arg F
  with_value arg v = record arg { value = some v }

  abbrev pub put_read :
      Conversions F
      → String
      → Option (Arg F)
      → String
      → List (String × Arg F)
      → Outcome (List (String × Arg F))
  put_read c ca none next args = abort
  put_read c ca (some arg) next args = do
    assert (not (starts_with next "-"))
    v ← read_value c arg next
    done (put ca (with_value arg v) args)

  abbrev pub takes_none : Option (Arg F) → Bool
  takes_none none = false
  takes_none (some arg) = is_bool arg.type

  abbrev pub put_true :
      String → Option (Arg F) → List (String × Arg F) → Outcome (List (String × Arg F))
  put_true ca none args = abort
  put_true ca (some arg) args = done (put ca (with_value arg (of_bool true)) args)

  -- The loop over the arguments. A flag that is not known, and one without its value, throw.
  unfoldable pub parse_from :
      Conversions F → List String → List (String × Arg F) → Outcome (List (String × Arg F))
  parse_from c [] args = done args
  parse_from c (ca ∷ []) args =
      if takes_none (find ca args) then put_true ca (find ca args) args else abort
  parse_from c (ca ∷ next ∷ more) args =
      let flag_only = put_true ca (find ca args) args >>= parse_from c (next ∷ more) in
      let with_next = put_read c ca (find ca args) next args >>= parse_from c more in
      if takes_none (find ca args) then flag_only else with_next

  unfoldable pub all_given : List (String × Arg F) → Bool
  all_given [] = true
  all_given ((flag, a) ∷ more) = elim a.value [ none ↦ false | some v ↦ all_given more ]

  -- `parse`, for `argv[0]` and the rest.
  unfoldable pub parse : Conversions F → String → List String → ArgMap F → Outcome (ArgMap F)
  parse c name argv m = do
    assert (str_eq m.program_name "")
    args ← parse_from c argv m.args
    assert (all_given args)
    done (record m { args = args; program_name = c.basename name })

  -- `std::get` of another type throws, and so does `value()` of none; a flag that is not found is not
  -- tested for.
  abbrev pub value_of : String → ArgMap F → Outcome (Value F)
  value_of flag m = elim (find flag m.args) [ none ↦ fault | some a ↦ or_throw a.value ]

  abbrev get_bool : Value F → Outcome Bool
  get_bool (of_bool b) = done b
  get_bool _ = abort

  abbrev get_u64 : Value F → Outcome ℕ
  get_u64 (of_u64 n) = done n
  get_u64 _ = abort

  abbrev get_f64 : Value F → Outcome F
  get_f64 (of_f64 x) = done x
  get_f64 _ = abort

  abbrev get_str : Value F → Outcome String
  get_str (of_str s) = done s
  get_str _ = abort

  unfoldable pub bget : String → ArgMap F → Outcome Bool
  bget flag m = value_of flag m >>= get_bool

  unfoldable pub uget : String → ArgMap F → Outcome ℕ
  uget flag m = value_of flag m >>= get_u64

  unfoldable pub fget : String → ArgMap F → Outcome F
  fget flag m = value_of flag m >>= get_f64

  unfoldable pub sget : String → ArgMap F → Outcome String
  sget flag m = value_of flag m >>= get_str
