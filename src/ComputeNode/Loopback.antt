-- ===== src/ComputeNode/Loopback.antt =====
-- What `connect_local` leaves: the loopback lanes of a compute node that is a memory node too.
use remus_tutorial.Prelude.{
  AllBelow, ℕ, zero, suc, ◌+◌, ◌*◌, ◌^◌, ◌<◌, ◌≡◌, ◌∙◌, inl, inr, refl, ap, sym, subst, arith, true,
  false, ◌==◌, Bool-cases, if◌then◌else◌, done, ◌>>=◌, List, [], ◌∷◌,
}
use remus_tutorial.ComputeNode.{ComputeNode}
use remus_tutorial.ComputeNode.Connect.{RegionInfo, Peers, loop_lanes, connect_local}
use remus_tutorial.ComputeNode.Counts.{
  AllAligned, Opens, Opens-trans, connections, occurrences, save_lane-Opens,
}

-- The loopback connections to `q`.
abbrev pub looped : ℕ → ℕ → List ℕ → ℕ → ℕ
looped self qp_lanes memnodes q = if q == self then qp_lanes * occurrences q memnodes else 0

looped_self :
    (self qp_lanes node : ℕ) (memnodes : List ℕ) (q : ℕ)
    → (node == self) ≡ true
    → (if node == q then qp_lanes else 0) + looped self qp_lanes memnodes q
      ≡ looped self qp_lanes (node ∷ memnodes) q
looped_self self qp_lanes node memnodes q here = ground arith

looped_other :
    (self qp_lanes node : ℕ) (memnodes : List ℕ) (q : ℕ)
    → (node == self) ≡ false
    → looped self qp_lanes memnodes q ≡ looped self qp_lanes (node ∷ memnodes) q
looped_other self qp_lanes node memnodes q there = ground arith

module _ (p : Peers) (rkeys : List RegionInfo) where
  AllAligned-Opens :
      {f : ℕ → ℕ} {c c' : ComputeNode}
      → Opens f c c'
      → AllAligned c.seg_mask_ rkeys
      → AllAligned c'.seg_mask_ rkeys
  AllAligned-Opens o a = subst (λ mask. AllAligned mask rkeys) (sym o.mask) a

  loop_lanes-Opens :
      (n i node : ℕ) (c : ComputeNode)
      → node < 2 ^ 16
      → AllAligned c.seg_mask_ rkeys
      → (c' : ComputeNode) × (loop_lanes p n i node rkeys c ≡ done c')
        × Opens (λ q. if node == q then n else 0) c c'
  unfolding loop_lanes
  loop_lanes-Opens zero i node c small a =
      (c, refl, record { links = λ q. ground arith; mask = refl })
  loop_lanes-Opens (suc n) i node c small a =
      let (c1, saved, one) = save_lane-Opens node (p.dial node i) rkeys c small a in
      let (c2, rest, more) = loop_lanes-Opens n (suc i) node c1 small (AllAligned-Opens one a) in
      (
        c2,
        ap (λ o. o >>= loop_lanes p n (suc i) node rkeys) saved ∙ rest,
        Opens-trans one more (λ q. ground arith),
      )

  -- If the node accepts the regions and the ids fit 16 bits, connecting succeeds, and it opens `qp_lanes` connections to the
  -- node itself for each time that it is listed, and no others.
  pub connect_local-Opens :
      (self qp_lanes : ℕ) (memnodes : List ℕ) (c : ComputeNode)
      → AllBelow (2 ^ 16) memnodes
      → AllAligned c.seg_mask_ rkeys
      → (c' : ComputeNode) × (connect_local p self qp_lanes memnodes rkeys c ≡ done c')
        × Opens (looped self qp_lanes memnodes) c c'
  unfolding connect_local
  connect_local-Opens self qp_lanes [] c known a =
      (c, refl, record { links = λ q. ground arith; mask = refl })
  connect_local-Opens self qp_lanes (node ∷ memnodes) c (small, known) a =
      elim (Bool-cases (node == self)) [
        | inl here ↦
            (let (c1, lanes, one) = loop_lanes-Opens qp_lanes 0 node c small a in
              let (c', rest, more) =
                connect_local-Opens self qp_lanes memnodes c1 known (AllAligned-Opens one a) in
              (
                c',
                rw (here) (
                    ap (λ o. o >>= λ d. connect_local p self qp_lanes memnodes rkeys d) lanes
                    ∙ rest),
                Opens-trans one more (λ q. looped_self self qp_lanes node memnodes q here),
              ))
        | inr there ↦
            (let (c', rest, more) = connect_local-Opens self qp_lanes memnodes c known a in
              (
                c',
                rw (there) rest,
                record {
                  links = λ q.
                      more.links q
                      ∙ ap (λ n. connections q c + n)
                          (looped_other self qp_lanes node memnodes q there);
                  mask = more.mask;
                },
              ))
      ]
