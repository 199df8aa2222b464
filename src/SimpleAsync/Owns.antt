-- ===== src/SimpleAsync/Owns.antt =====
-- Every coroutine has one object that will destroy it.
use remus_tutorial.Prelude.{
  ℕ, ◌≡◌, ◌≢◌, ◌∙◌, refl, ap, subst, fun_ext, arith, inl, inr, ◌==◌, Bool-cases, true, ℕ_discrete,
  Option, none, some, Option-cases, Outcome, done, ◌>>=◌, List, [], ◌∷◌,
}
use remus_tutorial.SimpleAsync.Handles.{
  Promise, Store, set_at, set_object, destroy_frame, destroy_handle, create, move_construct,
  move_assign, drop, Action, creates, constructs, assigns, drops, returns, act, act_all,
  return_value,
}

-- The coroutine of an object is there, no two objects have the same one, and no coroutine is without
-- an object.
pub record Owns (s : Store) : Type 0 where
  pub alive : (i h : ℕ) → s.objects i ≡ some (some h) → s.frames h ≢ none
  pub one : (i j h : ℕ) → s.objects i ≡ some (some h) → s.objects j ≡ some (some h) → i ≡ j
  pub owner : (h : ℕ) → s.frames h ≢ none → (i : ℕ) × (s.objects i ≡ some (some h))

set_at_self : {A : Type 0} (i : ℕ) (a : A) (f : ℕ → A) → set_at i a f i ≡ a
set_at_self i a f = ground arith

set_at_ne : {A : Type 0} (i j : ℕ) (a : A) (f : ℕ → A) → i ≢ j → set_at i a f j ≡ f j
set_at_ne i j a f ne = ground arith

some_frame : (s : Store) (h : ℕ) → s.frames h ≢ none → (p : Promise) × (s.frames h ≡ some p)
some_frame s h there = elim (Option-cases (s.frames h)) [
  | inl gone ↦ absurd (there gone)
  | inr found ↦ found
]

-- A new coroutine.
create-Owns :
    (i h : ℕ) (s : Store) → Owns s → s.objects i ≡ none → s.frames h ≡ none → Owns (create i h s)
unfolding create
create-Owns i h s o free new = record {
  alive = λ j k e. elim (ℕ_discrete h k) [
    | yes same ↦ ground arith
    | no other ↦ elim (ℕ_discrete i j) [
      | yes own ↦ ground arith
      | no ne ↦ ground (arith, o.alive j k)
    ]
  ];
  one = λ j k m ej ek. ground (arith, o.one j k m, o.alive j m, o.alive k m);
  owner = λ k there. elim (ℕ_discrete h k) [
    | yes same ↦ (i, ground arith)
    | no other ↦
        (let (j, e) = o.owner k (subst (λ f. f ≢ none) (set_at_ne h k _ s.frames other) there) in
          (j, ground arith))
  ];
}

-- An object that does not exist takes over the handle of another.
move_construct-Owns :
    (i c : ℕ) (handle : Option ℕ) (s : Store)
    → Owns s
    → s.objects i ≡ none
    → s.objects c ≡ some handle
    → Owns (record s { objects = set_at c (some none) (set_at i (some handle) s.objects) })
move_construct-Owns i c handle s o free from = record {
  alive = λ j h e. ground (arith, o.alive j h, o.alive c h);
  one = λ j k h ej ek. ground (arith, o.one j k h, o.one c k h, o.one j c h);
  owner = λ h there.
      let (j, e) = o.owner h there in
      elim (ℕ_discrete j c) [ yes same ↦ (i, ground arith) | no other ↦ (j, ground arith) ];
}

-- The object `i` goes, and its coroutine with it.
drop-Owns :
    (i : ℕ) (own : Option ℕ) (s : Store)
    → Owns s
    → s.objects i ≡ some own
    → (s' : Store) × (destroy_handle own s ≡ done s')
      × Owns (set_object i none s')
      × (s'.objects ≡ s.objects)
drop-Owns i none s o e = (
  s,
  refl,
  record {
    alive = λ j h ej. ground (arith, o.alive j h);
    one = λ j k h ej ek. ground (arith, o.one j k h);
    owner = λ h there. let (j, ej) = o.owner h there in (j, ground arith);
  },
  refl,
)
drop-Owns i (some h) s o e =
    let (p, found) = some_frame s h (o.alive i h e) in
    (
      record s { frames = set_at h none s.frames },
      ap (λ f. destroy_frame h f s) found,
      record {
        alive = λ j k ej. ground (arith, o.alive j k, o.one i j h);
        one = λ j k m ej ek. ground (arith, o.one j k m);
        owner = λ k there. elim (ℕ_discrete h k) [
          | yes same ↦ absurd (there (ground arith))
          | no other ↦
              (let (j, ej) =
                  o.owner k (subst (λ f. f ≢ none) (set_at_ne h k none s.frames other) there) in
                (j, ground arith))
        ];
      },
      refl,
    )

abbrev pub Exists : ℕ → Store → Type 0
Exists i s = (own : Option ℕ) × (s.objects i ≡ some own)

-- What the language sees to: an object is made where there is none and used where there is one, the
-- handle of a new coroutine is new, and only a coroutine that is there runs.
abbrev pub IsLegal : Action → Store → Type 0
IsLegal (creates i h) s = (s.objects i ≡ none) × (s.frames h ≡ none)
IsLegal (constructs i c) s = (s.objects i ≡ none) × Exists c s
IsLegal (assigns i c) s = Exists i s × Exists c s
IsLegal (drops i) s = Exists i s
IsLegal (returns h value) s = s.frames h ≢ none

return_value-Owns :
    (h : ℕ) (p : Promise) (s : Store)
    → Owns s
    → s.frames h ≢ none
    → Owns (record s { frames = set_at h (some p) s.frames })
return_value-Owns h p s o there = record {
  alive = λ j k e. ground (arith, o.alive j k);
  one = o.one;
  owner = λ k here. elim (ℕ_discrete h k) [
    | yes same ↦ let (j, e) = o.owner h there in (j, ground arith)
    | no other ↦ o.owner k (subst (λ f. f ≢ none) (set_at_ne h k _ s.frames other) here)
  ];
}

set_at-set_at :
    {A : Type 0} (i : ℕ) (a b : A) (f : ℕ → A) → set_at i a (set_at i b f) ≡ set_at i a f
set_at-set_at i a b f = fun_ext (λ j. ground arith)

-- A legal action is defined, and leaves every coroutine with one object: none is destroyed twice, and
-- none is lost.
act-Owns :
    (a : Action) (s : Store) → Owns s → IsLegal a s → (s' : Store) × (act a s ≡ done s') × Owns s'
unfolding act move_construct move_assign drop return_value
act-Owns (creates i h) s o (free, new) = (create i h s, refl, create-Owns i h s o free new)
act-Owns (constructs i c) s o (free, (handle, e)) = (
  record s { objects = set_at c (some none) (set_at i (some handle) s.objects) },
  rw e,
  move_construct-Owns i c handle s o free e,
)
act-Owns (assigns i c) s o ((own, ei), (handle, ec)) = elim (Bool-cases (i == c)) [
  | inl same ↦ (s, rw (ei, ec, same), o)
  | inr other ↦
      let (s1, gone, dropped, kept) = drop-Owns i own s o ei in
      (
        record s1 { objects = set_at c (some none) (set_at i (some handle) s1.objects) },
        ground (arith, ei, ec, other, gone),
        subst (λ f. Owns (record s1 { objects = set_at c (some none) f }))
            (set_at-set_at i (some handle) none s1.objects)
            (move_construct-Owns i c handle (set_object i none s1) dropped
              (set_at_self i none s1.objects) (ground (arith, ap (λ f. f c) kept))),
      )
]
act-Owns (drops i) s o (own, e) =
    let (s1, gone, dropped, kept) = drop-Owns i own s o e in
    (set_object i none s1, ground (arith, e, gone), dropped)
act-Owns (returns h value) s o there =
    let (p, found) = some_frame s h there in
    (
      record s { frames = set_at h (some (record { val = value; state = true })) s.frames },
      ground (arith, found),
      return_value-Owns h _ s o there,
    )

abbrev pub no_objects : Store
no_objects = record { objects = λ i. none; frames = λ h. none }

no_objects-Owns : Owns no_objects
no_objects-Owns = record {
  alive = λ i h e. absurd (cc);
  one = λ i j h ei ej. absurd (cc);
  owner = λ h there. absurd (there refl);
}

-- Every action is legal where it is done.
abbrev pub AllLegal : List Action → Outcome Store → Type 0
AllLegal [] r = Unit
AllLegal (a ∷ actions) (done s) = IsLegal a s × AllLegal actions (act a s)
AllLegal (a ∷ actions) _ = ⊥

act_all-Owns_from :
    (actions : List Action) (s : Store)
    → Owns s
    → AllLegal actions (done s)
    → (s' : Store) × (act_all actions s ≡ done s') × Owns s'
unfolding act_all
act_all-Owns_from [] s o legal = (s, refl, o)
act_all-Owns_from (a ∷ actions) s o (now, later) =
    let (s1, acted, o1) = act-Owns a s o now in
    let (s', rest, o') = act_all-Owns_from actions s1 o1 (subst (AllLegal actions) acted later) in
    (s', ap (λ r. r >>= act_all actions) acted ∙ rest, o')

-- Whatever a program does with objects that it makes, moves, assigns and destroys, in an order that
-- the language allows, no coroutine is destroyed twice and every coroutine that is not destroyed has
-- exactly one object, which will destroy it.
pub act_all-Owns :
    (actions : List Action)
    → AllLegal actions (done no_objects)
    → (s' : Store) × (act_all actions no_objects ≡ done s') × Owns s'
act_all-Owns actions legal = act_all-Owns_from actions no_objects no_objects-Owns legal
