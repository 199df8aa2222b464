-- ===== src/BumpAllocator/Search.antt =====
-- The loop of `try_allocate_global` ends where the policy reaches a segment with room.
use remus_tutorial.Prelude.{
  ℕ, zero, suc, ◌+◌, ◌≤◌, ◌<◌, ◌≡◌, ◌≢◌, ◌∙◌, refl, ap, arith, true, ltb, ltb→lt, u64, if_elim,
  Option, none, some, done,
}
use remus_tutorial.MnAllocPolicy.{MnAllocPolicy, Policy, get_mn_seg}
use remus_tutorial.MnAllocPolicy.Range.{IsValid}
use remus_tutorial.MnAllocPolicy.RoundRobin.{after, round_robin_covers}
use remus_tutorial.BumpAllocator.Remote.{Remote}
use remus_tutorial.BumpAllocator.Global.{counter, try_segment, try_allocate_global}

module _ (r : Remote) (seg_size size : ℕ) where
  -- Both tests of the loop pass for the segment.
  pub record HasRoom (mn seg : ℕ) (w : r.World) : Type 0 where
    pub by_hint : u64 (r.hint mn seg w + size) ≤ seg_size
    pub by_counter : u64 (r.read (counter r mn seg) w + size) ≤ seg_size

  module _ (mn seg : ℕ) where
    -- Where an attempt at another segment ends: with a block, or with the room as it was.
    abbrev Tried : ℕ → ℕ → Option ℕ × r.World → Type 0
    Tried mn' seg' (some ptr, w) = Unit
    Tried mn' seg' (none, w) = HasRoom mn seg w × (mn' ≡ mn → seg' ≢ seg)

    missed :
        (mn' seg' : ℕ) (tried : Option ℕ × r.World)
        → Tried mn' seg' tried
        → tried.0 ≡ none
        → HasRoom mn seg tried.1 × (mn' ≡ mn → seg' ≢ seg)
    missed mn' seg' (some ptr, w) t failed = cc
    missed mn' seg' (none, w) t failed = t

    -- Segments with counters at different places are different.
    apart : (mn' seg' : ℕ) → counter r mn' seg' ≢ counter r mn seg → mn' ≡ mn → seg' ≢ seg
    apart mn' seg' ne e e' = ne (λ i. counter r (e i) (e' i))

    try_segment-Tried :
        (mn' seg' : ℕ) (w : r.World)
        → HasRoom mn seg w
        → Tried mn' seg' (try_segment r seg_size size mn' seg' w)
    unfolding try_segment
    try_segment-Tried mn' seg' w room =
        if_elim (Tried mn' seg') (ltb seg_size (u64 (r.hint mn' seg' w + size)))
          (λ full. (
            room,
            λ e e'. absurd (
                omega (
                  arith,
                  room.by_hint,
                  ltb→lt seg_size (u64 (r.hint mn' seg' w + size)) full,
                  same_hint e e',
                )),
          ))
          (λ more.
            if_elim (Tried mn' seg')
              (ltb seg_size (u64 ((r.faa (counter r mn' seg') size w).0 + size)))
              (λ full. let other = elsewhere full in (still other, apart mn' seg' other))
              (λ fits. tt))
      where
        same_hint : mn' ≡ mn → seg' ≡ seg → r.hint mn' seg' w ≡ r.hint mn seg w
        same_hint e e' = λ i. r.hint (e i) (e' i) w

        elsewhere :
            ltb seg_size (u64 ((r.faa (counter r mn' seg') size w).0 + size)) ≡ true
            → counter r mn' seg' ≢ counter r mn seg
        elsewhere full e = omega (
          arith,
          room.by_counter,
          ltb→lt seg_size (u64 ((r.faa (counter r mn' seg') size w).0 + size)) full,
          r.faa_was (counter r mn' seg') size w,
          ap (λ c. r.read c w) e,
        )

        still :
            counter r mn' seg' ≢ counter r mn seg
            → HasRoom mn seg (r.faa (counter r mn' seg') size w).1
        still ne = record {
          by_hint = omega (arith, room.by_hint, r.faa_hint (counter r mn' seg') size mn seg w);
          by_counter = omega (
            arith,
            room.by_counter,
            r.faa_other (counter r mn' seg') (counter r mn seg) size w ne,
          );
        }

  abbrev IsDone : MnAllocPolicy → ℕ → r.World → Type 0
  IsDone p fuel w =
      (result : ℕ × MnAllocPolicy × r.World) × (try_allocate_global r fuel seg_size size p w
        ≡ done result)

  -- One turn: the attempt ends the loop or leaves the rest of it.
  turn :
      (fuel : ℕ) (p : MnAllocPolicy) (w : r.World)
      → let (place, p') = get_mn_seg p in
        let tried = try_segment r seg_size size place.0 place.1 w in
        (tried.0 ≡ none → IsDone p' fuel tried.1) → IsDone p (suc fuel) w
  unfolding try_allocate_global
  turn fuel p w rest =
      ends (try_segment r seg_size size (get_mn_seg p).0.0 (get_mn_seg p).0.1 w) rest
    where
      p' : MnAllocPolicy
      p' = (get_mn_seg p).1

      ends :
          (tried : Option ℕ × r.World)
          → (tried.0 ≡ none → IsDone p' fuel tried.1)
          → (result : ℕ × MnAllocPolicy × r.World) × ((elim tried.0 [
            | none ↦ try_allocate_global r fuel seg_size size p' tried.1
            | some ptr ↦ done (ptr, p', tried.1)
          ])
              ≡ done result)
      ends (none, w') rest = rest refl
      ends (some ptr, w') rest = ((ptr, p', w'), refl)

  after_first : (k : ℕ) (p : MnAllocPolicy) → after k (get_mn_seg p).1 ≡ after (suc k) p
  unfolding after
  after_first zero p = refl
  after_first (suc k) p = ap (λ q. (get_mn_seg q).1) (after_first k p)

  module _ (mn seg : ℕ) where
    after_miss :
        (p : MnAllocPolicy) (w : r.World)
        → HasRoom mn seg w
        → let place = (get_mn_seg p).0 in
          let tried = try_segment r seg_size size place.0 place.1 w in
          tried.0 ≡ none → HasRoom mn seg tried.1 × (place.0 ≡ mn → place.1 ≢ seg)
    after_miss p w room failed =
        missed mn seg _ _ _ (try_segment-Tried mn seg (get_mn_seg p).0.0 (get_mn_seg p).0.1 w room)
          failed

    reaches :
        (k fuel : ℕ) (p : MnAllocPolicy) (w : r.World)
        → HasRoom mn seg w
        → ◌≡◌ {A = ℕ × ℕ} (get_mn_seg (after k p)).0 (mn, seg)
        → k < fuel
        → IsDone p fuel w
    unfolding after
    reaches k zero p w room e h = absurd (omega arith)
    reaches zero (suc fuel) p w room e h =
        turn fuel p w
          (λ failed. absurd ((after_miss p w room failed).1 (ap (λ x. x.0) e) (ap (λ x. x.1) e)))
    reaches (suc k) (suc fuel) p w room e h = turn fuel p w (λ failed.
        reaches k fuel (get_mn_seg p).1 _ (after_miss p w room failed).0
          (ap (λ q. (get_mn_seg q).0) (after_first k p) ∙ e) (omega arith))

  -- Under GLOBAL_RR, with a valid policy, the loop returns a block within as many turns as there are
  -- segments, if one of the segments of some node has room by its hint and by its counter.
  pub global_rr_allocates :
      {p : MnAllocPolicy} (w : r.World) (mn seg : ℕ)
      → IsValid p
      → p.policy_ ≡ Policy.global_rr
      → mn < p.num_mns_
      → seg < p.num_segs_
      → HasRoom mn seg w
      → (result : ℕ × MnAllocPolicy × r.World) × (try_allocate_global r p.total_segs_ seg_size size
            p w
          ≡ done result)
  global_rr_allocates {p} w mn seg v rr mn_in seg_in room =
      let (k, k_in, e) = round_robin_covers v rr mn seg mn_in seg_in in
      reaches mn seg k p.total_segs_ p w room e k_in
