-- ===== src/ArgMap/Held.antt =====
-- What `parse` keeps of the argument of a flag, whatever the command line is.
use Prim.Native.String.{String}
use text.Mathlib.Text.{◌==◌ as str_eq, starts_with}
use mathlib.Core.Option.{some-injective}
use text.Mathlib.TextEquality.{eq_iff}
use remus_tutorial.Prelude.{
  ◌≡◌, ◌∙◌, refl, ap, sym, subst, arith, true, if◌then◌else◌, Bool-cases, inl, inr, Option, none,
  some, Outcome, done, abort, fault, diverge, ◌>>=◌, List, [], ◌∷◌,
}
use remus_tutorial.ArgMap.{
  Value, of_bool, Arg, Conversions, find, put, is_bool, read_value, with_value, put_read,
  takes_none, put_true, parse_from,
}

module _ {F : Type 0} where
  find-put :
      (k j : String) (a : Arg F) (m : List (String × Arg F))
      → find j (put k a m) ≡ (if str_eq k j then some a else find j m)
  unfolding find put
  find-put k j a [] = refl
  find-put k j a ((i, b) ∷ m) = ground (arith, eq_iff k j, eq_iff i k, eq_iff i j, find-put k j a m)

  -- The flag is known, and its argument has the property.
  pub record Holds (P : Arg F → Type 0) (flag : String) (args : List (String × Arg F))
      : Type 0 where
    pub arg : Arg F
    pub known : find flag args ≡ some arg
    pub fits : P arg

  -- The same of what a call ends in; it neither reads out of bounds nor loops.
  abbrev pub HoldsAfter : (Arg F → Type 0) → String → Outcome (List (String × Arg F)) → Type 0
  HoldsAfter P flag (done args) = Holds P flag args
  HoldsAfter P flag abort = Unit
  HoldsAfter P flag fault = ⊥
  HoldsAfter P flag diverge = ⊥

  -- A value is read, or the call aborts; what is read keeps the property.
  abbrev pub Reads : (Arg F → Type 0) → Arg F → Outcome (Value F) → Type 0
  Reads P a (done v) = P a → P (with_value a v)
  Reads P a abort = Unit
  Reads P a fault = ⊥
  Reads P a diverge = ⊥

  -- A property that every value which is read keeps.
  pub record IsKept (P : Arg F → Type 0) (c : Conversions F) : Type 0 where
    pub reads : (a : Arg F) (next : String) → Reads P a (read_value c a next)
    pub sets : (a : Arg F) → is_bool a.type ≡ true → P a → P (with_value a (of_bool true))

  module _ (P : Arg F → Type 0) (c : Conversions F) (kept : IsKept P c) (flag : String) where
    put-Holds :
        (ca : String) (a : Arg F) (v : Value F) (args : List (String × Arg F))
        → find ca args ≡ some a
        → (P a → P (with_value a v))
        → Holds P flag args
        → Holds P flag (put ca (with_value a v) args)
    put-Holds ca a v args known keeps h = elim (Bool-cases (str_eq ca flag)) [
      | inl same ↦
          let arg_same : h.arg ≡ a =
            some-injective h.arg a
              (sym h.known ∙ ap (λ k. find k args) (sym ((eq_iff ca flag).0 same)) ∙ known) in
          record {
            arg = with_value a v;
            known = find-put ca flag (with_value a v) args ∙ rw same refl;
            fits = keeps (subst P arg_same h.fits);
          }
      | inr other ↦ record {
        arg = h.arg;
        known = find-put ca flag (with_value a v) args ∙ rw other h.known;
        fits = h.fits;
      }
    ]

    put_read-Holds :
        (ca next : String) (o : Option (Arg F)) (args : List (String × Arg F))
        → find ca args ≡ o
        → Holds P flag args
        → HoldsAfter P flag (put_read c ca o next args)
    put_read-Holds ca next none args known h = tt
    put_read-Holds ca next (some a) args known h = elim (Bool-cases (starts_with next "-")) [
      | inl dash ↦ rw dash tt
      | inr value ↦ rw value (go (read_value c a next) (kept.reads a next))
    ]
      where
        go :
            (o : Outcome (Value F))
            → Reads P a o
            → HoldsAfter P flag (o >>= λ v. done (put ca (with_value a v) args))
        go (done v) keeps = put-Holds ca a v args known keeps h
        go abort keeps = tt
        go fault keeps = keeps
        go diverge keeps = keeps

    put_true-Holds :
        (ca : String) (o : Option (Arg F)) (args : List (String × Arg F))
        → find ca args ≡ o
        → takes_none o ≡ true
        → Holds P flag args
        → HoldsAfter P flag (put_true ca o args)
    put_true-Holds ca none args known flag_only h = tt
    put_true-Holds ca (some a) args known flag_only h =
        put-Holds ca a (of_bool true) args known (kept.sets a flag_only) h

    then_parse :
        (o : Outcome (List (String × Arg F)))
        (f : List (String × Arg F) → Outcome (List (String × Arg F)))
        → HoldsAfter P flag o
        → ((args : List (String × Arg F)) → Holds P flag args → HoldsAfter P flag (f args))
        → HoldsAfter P flag (o >>= f)
    then_parse (done args) f h more = more args h
    then_parse abort f h more = tt
    then_parse fault f h more = h
    then_parse diverge f h more = h

    pub parse_from-Holds :
        (argv : List String) (args : List (String × Arg F))
        → Holds P flag args
        → HoldsAfter P flag (parse_from c argv args)
    unfolding parse_from
    parse_from-Holds [] args h = h
    parse_from-Holds (ca ∷ []) args h = elim (Bool-cases (takes_none (find ca args))) [
      | inl alone ↦ rw alone (put_true-Holds ca (find ca args) args refl alone h)
      | inr with_next ↦ rw with_next tt
    ]
    parse_from-Holds (ca ∷ next ∷ more) args h = elim (Bool-cases (takes_none (find ca args))) [
      | inl alone ↦ rw alone (
          then_parse (put_true ca (find ca args) args) (parse_from c (next ∷ more))
            (put_true-Holds ca (find ca args) args refl alone h) (parse_from-Holds (next ∷ more)))
      | inr with_next ↦ rw with_next (
          then_parse (put_read c ca (find ca args) next args) (parse_from c more)
            (put_read-Holds ca next (find ca args) args refl h) (parse_from-Holds more))
    ]
