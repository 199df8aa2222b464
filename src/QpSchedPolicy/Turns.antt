-- ===== src/QpSchedPolicy/Turns.antt =====
-- RR gives each memory node its lanes in turn; RAND alternates where the number of lanes is even.
use native.Mathlib.Nat.{mod-lt, mod-add-mod}
use mathlib.Core.Option.{some-injective}
use remus_tutorial.Prelude.{
  AllBelow, ℕ, zero, suc, ◌%◌, ◌+◌, ◌<◌, ◌≡◌, ◌≢◌, arith, u32, if◌then◌else◌, ◌==◌, Outcome, done,
  ◌>>=◌, List, [], ◌∷◌, get_elem?, set, some, length, length-set, subst, get_elem?-set_self,
  get_elem?-set_ne, refl, ap, ◌∙◌, sym, ℕ_discrete,
}
use remus_tutorial.Rand.{Rand}
use remus_tutorial.Rand
use remus_tutorial.Rand.Parity.{mod-even, rand_flips}
use remus_tutorial.QpSchedPolicy.{QpSchedPolicy, Policy, get_lane_idx}
use remus_tutorial.QpSchedPolicy.Range.{HasLanes, with_counter-HasLanes, get_elem?-AllBelow}

-- The calls for the memory nodes of a list, in order.
unfoldable pub calls : List ℕ → QpSchedPolicy → Outcome QpSchedPolicy
calls [] q = done q
calls (mn ∷ mns) q = get_lane_idx mn q >>= λ (lane, q'). calls mns q'

-- The lane that a call for `mn` returns after the calls of a list.
unfoldable pub lane_after : List ℕ → ℕ → QpSchedPolicy → Outcome ℕ
lane_after mns mn q = do q' ← calls mns q; (lane, q'') ← get_lane_idx mn q'; done lane

abbrev pub count : ℕ → List ℕ → ℕ
count mn [] = 0
count mn (x ∷ xs) = if x == mn then suc (count mn xs) else count mn xs

count_same : (mn x : ℕ) (xs : List ℕ) → x ≡ mn → count mn (x ∷ xs) ≡ suc (count mn xs)
count_same mn x xs h = ground arith

count_other : (mn x : ℕ) (xs : List ℕ) → x ≢ mn → count mn (x ∷ xs) ≡ count mn xs
count_other mn x xs h = ground arith

has_counter : (xs : List ℕ) (i : ℕ) → i < length xs → (x : ℕ) × (get_elem? xs i ≡ some x)
has_counter [] i h = absurd (omega arith)
has_counter (x ∷ xs) zero h = (x, refl)
has_counter (x ∷ xs) (suc i) h = has_counter xs i (omega arith)

module _ {q : QpSchedPolicy} (v : HasLanes q) (rr : q.policy_ ≡ Policy.rr) where
  abbrev next : ℕ → ℕ
  next last = (last + 1) % q.num_lanes_

  abbrev moved : ℕ → ℕ → QpSchedPolicy
  moved mn lane = record q { per_mn_ = set q.per_mn_ mn lane }

  next_of : (last : ℕ) → last < q.num_lanes_ → u32 (last + 1) % q.num_lanes_ ≡ next last
  next_of last h = ap (λ t. t % q.num_lanes_) small_sum
    where
      small_sum : u32 (last + 1) ≡ last + 1
      small_sum = omega (arith, v.small)

  rr_call :
      (mn last : ℕ)
      → get_elem? q.per_mn_ mn ≡ some last
      → get_lane_idx mn q ≡ done (next last, moved mn (next last))
  unfolding get_lane_idx
  rr_call mn last found =
      rw (rr, found, next_of last (get_elem?-AllBelow _ q.per_mn_ mn last v.per_mn_in found)) refl

-- Under RR, with a valid policy and calls for nodes that have counters, the calls for one memory node
-- take its lanes in turn, whatever calls for other memory
-- nodes stand between them: the lane depends only on the counter of that node at the start and on
-- how often the node was asked for.
pub lanes_in_turn :
    (mns : List ℕ) (mn last : ℕ) {q : QpSchedPolicy}
    → HasLanes q
    → q.policy_ ≡ Policy.rr
    → AllBelow (length q.per_mn_) mns
    → get_elem? q.per_mn_ mn ≡ some last
    → lane_after mns mn q ≡ done ((last + count mn mns + 1) % q.num_lanes_)
unfolding lane_after calls
lanes_in_turn [] mn last {q} v rr known found =
    rw (rr_call v rr mn last found) (ap (λ t. done (t % q.num_lanes_)) (omega arith))
lanes_in_turn (x ∷ mns) mn last {q} v rr (x_in, known) found =
    let (before, has) = has_counter q.per_mn_ x x_in in
    let lane : ℕ = (before + 1) % q.num_lanes_ in
    let v' = with_counter-HasLanes v x lane (mod-lt (before + 1) v.some_lane) in
    let known' : AllBelow (length (set q.per_mn_ x lane)) mns =
      subst (λ n. AllBelow n mns) (sym (length-set q.per_mn_ x lane)) known in
    rw (rr_call v rr x before has) (elim (ℕ_discrete x mn) [
      | yes same ↦
          (lanes_in_turn mns mn lane v' rr known' (
              subst (λ m. get_elem? (set q.per_mn_ x lane) m ≡ some lane) same
                (get_elem?-set_self q.per_mn_ x lane x_in))
            ∙ ap done (
                ap (λ t. t % q.num_lanes_) (omega arith)
                ∙ mod-add-mod (before + 1) q.num_lanes_ (count mn mns + 1)
                ∙ ap (λ t. t % q.num_lanes_)
                    (omega (
                      arith,
                      count_same mn x mns same,
                      some-injective before last (sym has ∙ ap (get_elem? q.per_mn_) same ∙ found),
                    ))))
      | no other ↦
          (lanes_in_turn mns mn last v' rr known'
              (get_elem?-set_ne q.per_mn_ x mn lane other ∙ found)
            ∙ ap (λ t. done ((last + t + 1) % q.num_lanes_)) (sym (count_other mn x mns other)))
    ])

-- Under RAND with an even number of lanes two calls in a row take lanes of different parity.
rand_alternates :
    (q : QpSchedPolicy) (mn mn' : ℕ)
    → q.policy_ ≡ Policy.rand
    → q.num_lanes_ % 2 ≡ 0
    → (a : ℕ) × (b : ℕ) × (lane_after [] mn q ≡ done a)
      × (lane_after (mn ∷ []) mn' q ≡ done b)
      × ((a + b) % 2 ≡ 1)
unfolding lane_after calls get_lane_idx
rand_alternates q mn mn' rand even =
    let first = Rand.rand q.prng_ in
    let second = Rand.rand first.1 in
    (
      first.0 % q.num_lanes_,
      second.0 % q.num_lanes_,
      rw rand refl,
      rw rand refl,
      omega (
        arith,
        rand_flips q.prng_,
        rand_flips first.1,
        mod-even first.0 q.num_lanes_ even,
        mod-even second.0 q.num_lanes_ even,
      ),
    )
