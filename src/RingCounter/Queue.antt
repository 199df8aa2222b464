-- ===== src/RingCounter/Queue.antt =====
-- What a ring of slots promises: a queue of the slots that are taken, oldest first. An entry says
-- whether its slot has been given back; such an entry leaves when it is the oldest.
use remus_tutorial.Prelude.{
  ℕ, ◌≤◌, ◌≡◌, Bool, true, false, Option, none, some, List, [], ◌∷◌, ◌++◌, refl, length, set,
  get_elem?, ltb, if◌then◌else◌, arith,
}

abbrev pub Queue : Type 0
Queue = List Bool

-- The oldest entry has not been given back.
abbrev pub IsTrimmed : Queue → Type 0
IsTrimmed [] = Unit
IsTrimmed (given ∷ q) = given ≡ false

unfoldable pub trim : Queue → Queue
trim [] = []
trim (true ∷ q) = trim q
trim (false ∷ q) = false ∷ q

unfoldable pub acquire : ℕ → Queue → Option Queue
acquire cap q = if ltb (length q) cap then some (q ++ (false ∷ [])) else none

-- Only an entry that is held can be given back.
unfoldable pub release : ℕ → Queue → Option Queue
release k q = elim (get_elem? q k) [ some false ↦ some (trim (set q k true)) | _ ↦ none ]

pub trim-IsTrimmed : (q : Queue) → IsTrimmed (trim q)
unfolding trim
trim-IsTrimmed [] = tt
trim-IsTrimmed (true ∷ q) = trim-IsTrimmed q
trim-IsTrimmed (false ∷ q) = refl

pub length-trim : (q : Queue) → length (trim q) ≤ length q
unfolding trim
length-trim [] = omega arith
length-trim (true ∷ q) = omega (arith, length-trim q)
length-trim (false ∷ q) = omega arith
