-- ===== src/ComputeThread/Links.antt =====
-- What the device meets when it follows the `next` pointers of a batch.
use mathlib.Core.List.{append_assoc}
use remus_tutorial.Prelude.{
  ℕ, zero, suc, ◌+◌, ◌<◌, ◌≡◌, done, ◌>>=◌, ◌∙◌, refl, ap, sym, subst, arith, none, some, List, [],
  ◌∷◌, ◌++◌, length, length-append, get_elem?,
}
use remus_tutorial.RdmaOps.Ibv.{SendWr}
use remus_tutorial.ComputeThread.Sequences.{link_from, link_seq_send_wrs, chain}
use remus_tutorial.ComputeThread.Batches.{fill_last}

-- Each request points to the one after it, and the last one to none.
abbrev IsLinked : ℕ → List SendWr → Type 0
IsLinked i [] = Unit
IsLinked i (wr ∷ []) = wr.next ≡ none
IsLinked i (wr ∷ wr' ∷ wrs) = (wr.next ≡ some (suc i)) × IsLinked (suc i) (wr' ∷ wrs)

link_from-IsLinked : (i : ℕ) (wrs : List SendWr) → IsLinked i (link_from i wrs)
link_from-IsLinked i [] = tt
link_from-IsLinked i (wr ∷ []) = refl
link_from-IsLinked i (wr ∷ wr' ∷ []) = (refl, refl)
link_from-IsLinked i (wr ∷ wr' ∷ wr'' ∷ wrs) = (refl, link_from-IsLinked (suc i) (wr' ∷ wr'' ∷ wrs))

module _ (config : SendWr → SendWr) (keeps : (wr : SendWr) → (config wr).next ≡ wr.next) where
  fill_last-IsLinked :
      (i : ℕ) (wrs : List SendWr) → IsLinked i wrs → IsLinked i (fill_last config wrs)
  unfolding fill_last
  fill_last-IsLinked i [] l = tt
  fill_last-IsLinked i (wr ∷ []) l = keeps wr ∙ l
  fill_last-IsLinked i (wr ∷ wr' ∷ []) (l, last) = (l, keeps wr' ∙ last)
  fill_last-IsLinked i (wr ∷ wr' ∷ wr'' ∷ wrs) (l, more) =
      (l, fill_last-IsLinked (suc i) (wr' ∷ wr'' ∷ wrs) more)

fill_last-pos :
    (config : SendWr → SendWr) (wr : SendWr) (wrs : List SendWr)
    → 0 < length (fill_last config (link_from 0 (wr ∷ wrs)))
unfolding fill_last
fill_last-pos config wr [] = omega arith
fill_last-pos config wr (wr' ∷ []) = omega arith
fill_last-pos config wr (wr' ∷ wr'' ∷ wrs) = omega arith

get_elem?-middle :
    (before : List SendWr) (wr : SendWr) (wrs : List SendWr)
    → get_elem? (before ++ (wr ∷ wrs)) (length before) ≡ some wr
get_elem?-middle [] wr wrs = refl
get_elem?-middle (x ∷ before) wr wrs = get_elem?-middle before wr wrs

chain-none : (fuel : ℕ) (wrs : List SendWr) → chain fuel wrs none ≡ done []
unfolding chain
chain-none zero wrs = refl
chain-none (suc fuel) wrs = refl

chain-IsLinked :
    (spare : ℕ) (before : List SendWr) (wr : SendWr) (wrs : List SendWr)
    → IsLinked (length before) (wr ∷ wrs)
    → chain (suc (length wrs + spare)) (before ++ (wr ∷ wrs)) (some (length before))
      ≡ done (wr ∷ wrs)
unfolding chain
chain-IsLinked spare before wr [] l =
    rw (chain, get_elem?-middle before wr [])
      (ap (λ o. chain (0 + spare) (before ++ (wr ∷ [])) o >>= λ more. done (wr ∷ more)) l
        ∙ ap (λ o. o >>= λ more. done (wr ∷ more)) (chain-none (0 + spare) (before ++ (wr ∷ []))))
chain-IsLinked spare before wr (wr' ∷ wrs) (l, more) =
    let len : length (before ++ (wr ∷ [])) ≡ suc (length before) =
      length-append before (wr ∷ []) ∙ omega arith in
    let fuel : ℕ = length (wr' ∷ wrs) + spare in
    let one_less : fuel ≡ suc (length wrs + spare) = omega arith in
    let rest : chain fuel (before ++ (wr ∷ wr' ∷ wrs)) (some (suc (length before)))
        ≡ done (wr' ∷ wrs) =
      ap (λ all. chain fuel all (some (suc (length before))))
        (sym (append_assoc before (wr ∷ []) (wr' ∷ wrs)))
      ∙ ap (λ k. chain fuel ((before ++ (wr ∷ [])) ++ (wr' ∷ wrs)) (some k)) (sym len)
      ∙ ap
          (λ f.
            chain f ((before ++ (wr ∷ [])) ++ (wr' ∷ wrs)) (some (length (before ++ (wr ∷ [])))))
          one_less
      ∙ chain-IsLinked spare (before ++ (wr ∷ [])) wr' wrs
          (subst (λ k. IsLinked k (wr' ∷ wrs)) (sym len) more) in
    rw (chain, get_elem?-middle before wr (wr' ∷ wrs))
      (ap (λ o. chain fuel (before ++ (wr ∷ wr' ∷ wrs)) o >>= λ all. done (wr ∷ all)) l
        ∙ ap (λ o. o >>= λ all. done (wr ∷ all)) rest)

-- A batch that is linked and whose last request is then filled in, by a function that keeps the
-- link, is one chain: from the first request on the device meets every request once, in order, and
-- then a null pointer, however many more steps it could make.
pub chain-link_seq_send_wrs :
    (config : SendWr → SendWr)
    → ((wr : SendWr) → (config wr).next ≡ wr.next)
    → (spare : ℕ) (wr : SendWr) (wrs : List SendWr)
    → let all = fill_last config (link_seq_send_wrs (wr ∷ wrs)) in
      chain (length all + spare) all (some 0) ≡ done all
unfolding link_seq_send_wrs chain
chain-link_seq_send_wrs config keeps spare wr wrs =
    go (fill_last config (link_from 0 (wr ∷ wrs)))
      (fill_last-IsLinked config keeps 0 (link_from 0 (wr ∷ wrs)) (link_from-IsLinked 0 (wr ∷ wrs)))
      (fill_last-pos config wr wrs)
  where
    go :
        (all : List SendWr)
        → IsLinked 0 all
        → 0 < length all
        → chain (length all + spare) all (some 0) ≡ done all
    go [] l h = absurd (omega arith)
    go (wr ∷ wrs) l h =
        let one_more : length (wr ∷ wrs) + spare ≡ suc (length wrs + spare) = omega arith in
        ap (λ f. chain f (wr ∷ wrs) (some 0)) one_more ∙ chain-IsLinked spare [] wr wrs l
