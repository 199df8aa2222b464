-- ===== src/ArgMap/Typed.antt =====
-- The type and the choices of an argument are kept, so the getters do not throw.
use Prim.Native.String.{String}
use remus_tutorial.Prelude.{
  ◌≡◌, ◌≢◌, ◌∙◌, refl, ap, sym, subst, Bool, true, false, ◌||◌, Bool-cases, inl, inr, Option, none,
  some, Option-cases, Outcome, done, abort, fault, diverge, ◌>>◌, assert, List,
}
use remus_tutorial.ArgMap.{
  ArgValType, u64, f64, str, bool, Value, of_u64, of_f64, of_str, of_bool, Arg, Conversions,
  no_options, is_option, is_bool, read_value,
}
use remus_tutorial.ArgMap.Held.{Holds, Reads, IsKept}

module _ {F : Type 0} where
  -- The value is of the type.
  abbrev pub IsOf : ArgValType → Value F → Type 0
  IsOf u64 (of_u64 n) = Unit
  IsOf f64 (of_f64 x) = Unit
  IsOf str (of_str s) = Unit
  IsOf bool (of_bool b) = Unit
  IsOf _ _ = ⊥

  abbrev pub Suits : ArgValType → Option (Value F) → Type 0
  Suits t none = Unit
  Suits t (some v) = IsOf t v

  -- The argument is of the type `t`, and so is its value, where it has one.
  abbrev pub HasType : ArgValType → Arg F → Type 0
  HasType t a = (a.type ≡ t) × Suits t a.value

  abbrev pub IsTyped : String → ArgValType → List (String × Arg F) → Type 0
  IsTyped flag t args = Holds (HasType t) flag args

  -- The value is one of the choices.
  abbrev pub IsIn : List String → Value F → Type 0
  IsIn choices (of_str s) = is_option s choices ≡ true
  IsIn choices _ = ⊥

  abbrev pub Among : List String → Option (Value F) → Type 0
  Among choices none = Unit
  Among choices (some v) = IsIn choices v

  abbrev pub HasChoices : List String → Arg F → Type 0
  HasChoices choices a = (a.type ≡ str) × (a.options ≡ choices) × Among choices a.value

  abbrev ReadsOf : ArgValType → Outcome (Value F) → Type 0
  ReadsOf t (done v) = IsOf t v
  ReadsOf t abort = Unit
  ReadsOf t fault = ⊥
  ReadsOf t diverge = ⊥

  read_value-ReadsOf :
      (c : Conversions F) (a : Arg F) (next : String) (t : ArgValType)
      → a.type ≡ t
      → ReadsOf t (read_value c a next)
  unfolding read_value
  read_value-ReadsOf c a next u64 e = elim (Option-cases (c.stoull next)) [
    | inl bad ↦ rw (e, bad) tt
    | inr (n, read) ↦ rw (e, read) tt
  ]
  read_value-ReadsOf c a next f64 e = elim (Option-cases (c.stod next)) [
    | inl bad ↦ rw (e, bad) tt
    | inr (x, read) ↦ rw (e, read) tt
  ]
  read_value-ReadsOf c a next str e =
      elim (Bool-cases (no_options a.options || is_option next a.options)) [
        | inl ok ↦ rw (e, ok) tt
        | inr bad ↦ rw (e, bad) tt
      ]
  read_value-ReadsOf c a next bool e = rw e tt

  bool_only : (a : Arg F) (t : ArgValType) → is_bool t ≡ true → IsOf t (of_bool true)
  bool_only a u64 h = absurd cc
  bool_only a f64 h = absurd cc
  bool_only a str h = absurd cc
  bool_only a bool h = tt

  HasType-Reads :
      (t : ArgValType) (a : Arg F) (o : Outcome (Value F))
      → ReadsOf a.type o
      → Reads (HasType t) a o
  HasType-Reads t a (done v) r = λ h. (h.0, subst (λ t'. IsOf t' v) h.0 r)
  HasType-Reads t a abort r = tt
  HasType-Reads t a fault r = r
  HasType-Reads t a diverge r = r

  pub HasType-IsKept : (t : ArgValType) (c : Conversions F) → IsKept (HasType t) c
  HasType-IsKept t c = record {
    reads =
        λ a next. HasType-Reads t a (read_value c a next) (read_value-ReadsOf c a next a.type refl);
    sets = λ a flag_only h.
        (h.0, subst (λ t'. IsOf t' (of_bool true)) h.0 (bool_only a a.type flag_only));
  }

  str_read :
      (c : Conversions F) (a : Arg F) (next : String)
      → a.type ≡ str
      → read_value c a next
        ≡ (assert (no_options a.options || is_option next a.options) >> done (of_str next))
  unfolding read_value
  str_read c a next e = rw e refl

  module _ (choices : List String) (some_choice : no_options choices ≡ false) where
    chosen :
        (a : Arg F) (next : String) (b : Bool)
        → (no_options a.options || is_option next a.options) ≡ b
        → Reads (HasChoices choices) a (assert b >> done (of_str next))
    chosen a next false e = tt
    chosen a next true e = λ h. (
      h.0,
      h.1,
      ap (λ b. b || is_option next choices) (sym some_choice)
          ∙ subst (λ options. (no_options options || is_option next options) ≡ true) h.1 e,
    )

    other_type :
        (a : Arg F) (o : Outcome (Value F))
        → ReadsOf a.type o
        → a.type ≢ str
        → Reads (HasChoices choices) a o
    other_type a (done v) r ne = λ h. absurd (ne h.0)
    other_type a abort r ne = tt
    other_type a fault r ne = r
    other_type a diverge r ne = r

    HasChoices-Reads :
        (c : Conversions F) (a : Arg F) (next : String) (t : ArgValType)
        → a.type ≡ t
        → Reads (HasChoices choices) a (read_value c a next)
    HasChoices-Reads c a next str e =
        subst (Reads (HasChoices choices) a) (sym (str_read c a next e))
          (chosen a next (no_options a.options || is_option next a.options) refl)
    HasChoices-Reads c a next u64 e =
        other_type a (read_value c a next) (read_value-ReadsOf c a next a.type refl)
          (λ same. absurd (cc))
    HasChoices-Reads c a next f64 e =
        other_type a (read_value c a next) (read_value-ReadsOf c a next a.type refl)
          (λ same. absurd (cc))
    HasChoices-Reads c a next bool e =
        other_type a (read_value c a next) (read_value-ReadsOf c a next a.type refl)
          (λ same. absurd (cc))

    pub HasChoices-IsKept : (c : Conversions F) → IsKept (HasChoices choices) c
    HasChoices-IsKept c = record {
      reads = λ a next. HasChoices-Reads c a next a.type refl;
      sets = λ a flag_only h. absurd (not_bool (ap is_bool (sym h.0) ∙ flag_only));
    }
      where
        not_bool : is_bool str ≡ true → ⊥
        not_bool h = absurd cc
