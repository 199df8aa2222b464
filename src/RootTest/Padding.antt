-- ===== src/RootTest/Padding.antt =====
-- CompareAndSwap on the one byte `locked` compares and swaps eight bytes of the memory.
use remus_tutorial.Prelude.{ℕ, ◌%◌, ◌≡◌, ◌≢◌, ◌∙◌, ap, sym, arith, true, false, ◌==◌, ==_iff}
use remus_tutorial.RootTest.{System, acquiring, reading, place_at, try_lock, step_from, step}
use remus_tutorial.RootTest.Sums.{place_at_self, place_at_ne}

-- A lock whose byte is 0 in a word that is not.
try_lock_padded :
    (p i : ℕ) (s : System)
    → s.cells p ≢ 0
    → s.cells p % 256 ≡ 0
    → ((try_lock p i s).cells p ≡ s.cells p)
      × ((try_lock p i s).stage ≡ place_at i (reading p) s.stage)
try_lock_padded p i s padded free =
    let other : (s.cells p == 0) ≡ false = ground arith in
    let seen : (s.cells p % 256 == 0) ≡ true = (==_iff _ 0).1 free in
    (rw other (ground arith), rw seen)

step_acquiring : (n p i : ℕ) (s : System) → s.stage i ≡ acquiring p → step n i s ≡ try_lock p i s
unfolding step
step_acquiring n p i s e = ap (λ st. step_from st n i s) e

-- Where the byte `locked` is 0 but the bytes after it are not, two workers that try the lock one
-- after the other both take it, and the word stays as it is.
pub padding_admits_both :
    (n p i j : ℕ) (s : System)
    → i ≢ j
    → s.stage i ≡ acquiring p
    → s.stage j ≡ acquiring p
    → s.cells p ≢ 0
    → s.cells p % 256 ≡ 0
    → ((step n j (step n i s)).stage i ≡ reading p)
      × ((step n j (step n i s)).stage j ≡ reading p)
      × ((step n j (step n i s)).cells p ≡ s.cells p)
padding_admits_both n p i j s ne at_i at_j padded free =
    let s' : System = try_lock p i s in
    let (word, stage) = try_lock_padded p i s padded free in
    let j_waits : s'.stage j ≡ acquiring p =
      ap (λ f. f j) stage ∙ place_at_ne i j (reading p) s.stage ne ∙ at_j in
    let (word', stage') =
      try_lock_padded p j s' (λ e. padded (sym word ∙ e)) (ap (λ w. w % 256) word ∙ free) in
    let both : step n j (step n i s) ≡ try_lock p j s' =
      ap (step n j) (step_acquiring n p i s at_i) ∙ step_acquiring n p j s' j_waits in
    (
      ap (λ t. t.stage i) both
          ∙ ap (λ f. f i) stage'
          ∙ place_at_ne j i (reading p) s'.stage (λ e. ne (sym e))
          ∙ ap (λ f. f i) stage
          ∙ place_at_self i (reading p) s.stage,
      ap (λ t. t.stage j) both ∙ ap (λ f. f j) stage' ∙ place_at_self j (reading p) s'.stage,
      ap (λ t. t.cells p) both ∙ word' ∙ word,
    )
