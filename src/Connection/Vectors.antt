-- ===== src/Connection/Vectors.antt =====
-- A vector that was sent is the vector that is delivered.
use native.Mathlib.Nat.{div-add-mod', mul-div_cancel}
use remus_tutorial.Prelude.{
  ℕ, zero, suc, ◌*◌, ◌/◌, ◌%◌, ◌<◌, ◌≡◌, ◌∙◌, refl, ap, ap₂, sym, arith, ◌==◌, ==_iff, true, done,
  List, [], ◌∷◌, ◌++◌, length, length-append,
}
use remus_tutorial.Connection.{
  Channel, ok, unavailable, again, received, take_n, drop_n, elements, bytes_of, to_vec, message_of,
  try_deliver_message, try_deliver_vec, deliver_vec,
}

-- Every element has the size of its type.
abbrev pub HaveSize : ℕ → List (List ℕ) → Type 0
HaveSize size [] = Unit
HaveSize size (x ∷ xs) = (length x ≡ size) × HaveSize size xs

take_n-append : (x y : List ℕ) → take_n (length x) (x ++ y) ≡ x
take_n-append [] y = refl
take_n-append (a ∷ x) y = ap (λ l. a ∷ l) (take_n-append x y)

drop_n-append : (x y : List ℕ) → drop_n (length x) (x ++ y) ≡ y
drop_n-append [] y = refl
drop_n-append (a ∷ x) y = drop_n-append x y

elements-bytes_of :
    (size : ℕ) (xs : List (List ℕ))
    → HaveSize size xs
    → elements (length xs) size (bytes_of xs) ≡ xs
unfolding elements
elements-bytes_of size [] h = refl
elements-bytes_of size (x ∷ xs) (here, more) =
    ap₂ (λ first rest. first ∷ elements (length xs) size rest)
      (ap (λ n. take_n n (x ++ bytes_of xs)) (sym here) ∙ take_n-append x (bytes_of xs))
      (ap (λ n. drop_n n (x ++ bytes_of xs)) (sym here) ∙ drop_n-append x (bytes_of xs))
    ∙ ap (λ rest. x ∷ rest) (elements-bytes_of size xs more)

length-bytes_of :
    (size : ℕ) (xs : List (List ℕ)) → HaveSize size xs → length (bytes_of xs) ≡ length xs * size
length-bytes_of size [] h = omega arith
length-bytes_of size (x ∷ xs) (here, more) =
    omega (arith, length-append x (bytes_of xs), here, length-bytes_of size xs more)

to_vec-bytes_of :
    (size : ℕ) (xs : List (List ℕ))
    → 0 < size
    → HaveSize size xs
    → to_vec size (ok (bytes_of xs)) ≡ done (ok xs)
unfolding to_vec
to_vec-bytes_of size xs pos h =
    let len = length-bytes_of size xs h in
    let whole : (length (bytes_of xs) % size == 0) ≡ true =
      (==_iff (length (bytes_of xs) % size) 0).1 (
        ap (λ n. n % size) len
        ∙ omega (
          arith,
          div-add-mod' (length xs * size) size,
          ap (λ k. k * size) (mul-div_cancel (length xs) pos),
        )) in
    let count : length (bytes_of xs) / size ≡ length xs =
      ap (λ n. n / size) len ∙ mul-div_cancel (length xs) pos in
    rw (whole, count) (ap (λ v. done (ok v)) (elements-bytes_of size xs h))

module _ (c : Channel) where
  -- After `n` tries that find nothing the bytes of the vector have come.
  pub data Arrives (xs : List (List ℕ)) : ℕ → c.World → c.World → Type 0 where
    here :
        {w w' : c.World}
        → c.get_recv_comp w ≡ (received (length (bytes_of xs)), w')
        → c.seg (length (bytes_of xs)) w' ≡ bytes_of xs
        → Arrives xs zero w w'
    later :
        {n : ℕ} {w u w' : c.World}
        → c.get_recv_comp w ≡ (again, u)
        → Arrives xs n u w'
        → Arrives xs (suc n) w w'

  try_received :
      {n : ℕ} {w w' : c.World}
      → c.get_recv_comp w ≡ (received n, w')
      → try_deliver_message c w ≡ (ok (c.seg n w'), w')
  unfolding try_deliver_message
  try_received come = ap (λ (comp, w''). (message_of c comp w'', w'')) come

  try_again :
      {w w' : c.World}
      → c.get_recv_comp w ≡ (again, w')
      → try_deliver_message c w ≡ (unavailable, w')
  unfolding try_deliver_message
  try_again none_yet = ap (λ (comp, w''). (message_of c comp w'', w'')) none_yet

  -- A vector whose elements all have the size of their type, at least one byte, and whose bytes, as
  -- `Send` puts them into the segment, arrive after `n` empty tries, is delivered as it was sent; one
  -- try more than the empty ones is enough.
  pub deliver_vec-bytes_of :
      (size n fuel : ℕ) (xs : List (List ℕ)) {w w' : c.World}
      → 0 < size
      → HaveSize size xs
      → Arrives xs n w w'
      → n < fuel
      → deliver_vec c fuel size w ≡ done (ok xs, w')
  unfolding deliver_vec try_deliver_vec to_vec
  deliver_vec-bytes_of size n zero xs pos h a few = absurd (omega arith)
  deliver_vec-bytes_of size zero (suc fuel) xs pos h (Arrives.here come bytes) few =
      rw (try_received come, bytes, to_vec-bytes_of size xs pos h) refl
  deliver_vec-bytes_of size (suc n) (suc fuel) xs {w} pos h (Arrives.later none_yet a) few =
      rw (try_again none_yet) (deliver_vec-bytes_of size n fuel xs pos h a (omega arith))
