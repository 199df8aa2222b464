-- ===== src/ComputeNode/Counts.antt =====
-- How many connections a compute node opens, and how long it waits between attempts.
use Prim.Native.Nat.{bit_and}
use native.Mathlib.Nat.{mod-eq_of_lt}
use remus_tutorial.Prelude.{
  AllBelow, ℕ, zero, suc, ◌+◌, ◌*◌, ◌^◌, ◌<◌, ◌≡◌, ◌∙◌, refl, ap, sym, subst, arith, ◌==◌, ==_iff,
  true, false, Bool-cases, if◌then◌else◌, inl, inr, none, some, Option-cases, done, ◌>>=◌, List, [],
  ◌∷◌, ◌++◌, length, length-append, lookup, insert, lookup-insert, Map,
}
use remus_tutorial.ComputeNode.{
  ComputeNode, ConnInfo, entry, add_region, node_mask, region_key, save_conn, save_region,
}
use remus_tutorial.ComputeNode.Connect.{
  RegionInfo, Peers, save_regions, save_lane, connect_lanes, connect_remote,
}

-- A region that `save_region` accepts on a node with this mask.
pub record IsAligned (mask : ℕ) (r : RegionInfo) : Type 0 where
  pub top : (bit_and r.raddr node_mask == 0) ≡ true
  pub low : (bit_and r.raddr mask == 0) ≡ true

abbrev pub AllAligned : ℕ → List RegionInfo → Type 0
AllAligned mask [] = Unit
AllAligned mask (r ∷ rs) = IsAligned mask r × AllAligned mask rs

-- Every lane delivers regions that are accepted.
pub record IsSound (mask : ℕ) (p : Peers) : Type 0 where
  pub regions : ℕ → ℕ → List RegionInfo
  pub delivered : (node i : ℕ) → p.deliver node i ≡ some (regions node i)
  pub aligned : (node i : ℕ) → AllAligned mask (regions node i)

abbrev pub connections : ℕ → ComputeNode → ℕ
connections node c = length (entry node c.node_connections_)

-- What saving regions keeps.
pub record SameLinks (c c' : ComputeNode) : Type 0 where
  pub links : c'.node_connections_ ≡ c.node_connections_
  pub mask : c'.seg_mask_ ≡ c.seg_mask_

save_region-SameLinks :
    (node : ℕ) (r : RegionInfo) (c : ComputeNode)
    → IsAligned c.seg_mask_ r
    → (c' : ComputeNode) × (save_region node r.raddr r.rkey c ≡ done c') × SameLinks c c'
unfolding save_region
save_region-SameLinks node r c a =
    let key = region_key node r.raddr in
    elim (Option-cases (lookup key c.segment_rkeys_)) [
      | inl missing ↦ (
        add_region node key r.rkey c,
        rw (a.top, a.low, missing) refl,
        record { links = refl; mask = refl },
      )
      | inr (old, found) ↦ (c, rw (a.top, a.low, found) refl, record { links = refl; mask = refl })
    ]

save_regions-SameLinks :
    (node : ℕ) (rs : List RegionInfo) (c : ComputeNode)
    → AllAligned c.seg_mask_ rs
    → (c' : ComputeNode) × (save_regions node rs c ≡ done c') × SameLinks c c'
save_regions-SameLinks node [] c a = (c, refl, record { links = refl; mask = refl })
save_regions-SameLinks node (r ∷ rs) c (a, others) =
    let (c1, saved, one) = save_region-SameLinks node r c a in
    let (c2, rest, more) =
      save_regions-SameLinks node rs c1
        (subst (λ mask. AllAligned mask rs) (sym one.mask) others) in
    (
      c2,
      ap (λ o. o >>= save_regions node rs) saved ∙ rest,
      record { links = more.links ∙ one.links; mask = more.mask ∙ one.mask },
    )

entry-insert :
    (node p : ℕ) (links : List ConnInfo) (m : Map (List ConnInfo))
    → entry p (insert node links m) ≡ (if node == p then links else entry p m)
entry-insert node p links m =
    ap (λ o. elim o [ none ↦ [] | some l ↦ l ]) (lookup-insert node p links m)
    ∙ elim (Bool-cases (node == p)) [ inl same ↦ rw (same) refl | inr other ↦ rw (other) refl ]

connections-save_conn :
    (node q : ℕ) (i : ConnInfo) (c : ComputeNode)
    → node < 2 ^ 16
    → connections q (save_conn node i.conn_ i.lkey_ c)
      ≡ connections q c + (if node == q then 1 else 0)
unfolding save_conn
connections-save_conn node q i c small =
    let links = c.node_connections_ in
    ap (λ key. length (entry q (insert key (entry key links ++ (i ∷ [])) links)))
      (mod-eq_of_lt small)
    ∙ ap length (entry-insert node q (entry node links ++ (i ∷ [])) links)
    ∙ elim (Bool-cases (node == q)) [
      | inl same ↦ rw (same, (==_iff node q).0 same) (length-append (entry q links) (i ∷ []))
      | inr other ↦ rw (other) (omega arith)
    ]

-- How often a list names a node.
abbrev pub occurrences : ℕ → List ℕ → ℕ
occurrences p [] = 0
occurrences p (node ∷ nodes) = (if node == p then 1 else 0) + occurrences p nodes

-- How many connections to each node come about.
pub record Opens (opened : ℕ → ℕ) (c c' : ComputeNode) : Type 0 where
  pub links : (q : ℕ) → connections q c' ≡ connections q c + opened q
  pub mask : c'.seg_mask_ ≡ c.seg_mask_

pub Opens-trans :
    {f g h : ℕ → ℕ} {c c' c'' : ComputeNode}
    → Opens f c c'
    → Opens g c' c''
    → ((q : ℕ) → f q + g q ≡ h q)
    → Opens h c c''
Opens-trans a b sum = record {
  links = λ q. omega (arith, a.links q, b.links q, sum q);
  mask = b.mask ∙ a.mask;
}

pub save_lane-Opens :
    (node : ℕ) (info : ConnInfo) (rs : List RegionInfo) (c : ComputeNode)
    → node < 2 ^ 16
    → AllAligned c.seg_mask_ rs
    → (c' : ComputeNode) × (save_lane node info (some rs) c ≡ done c')
      × Opens (λ q. if node == q then 1 else 0) c c'
unfolding save_conn
save_lane-Opens node info rs c small a =
    let (c1, saved, same) =
      save_regions-SameLinks node rs (save_conn node info.conn_ info.lkey_ c) a in
    (
      c1,
      saved,
      record {
        links = λ q.
            ap (λ m. length (entry q m)) same.links ∙ connections-save_conn node q info c small;
        mask = same.mask;
      },
    )

-- The connections to `q` that a node opens.
abbrev pub opened : ℕ → ℕ → List ℕ → ℕ → ℕ
opened self qp_lanes memnodes q = if q == self then 0 else qp_lanes * occurrences q memnodes

opened_self :
    (self qp_lanes node : ℕ) (memnodes : List ℕ) (q : ℕ)
    → (node == self) ≡ true
    → opened self qp_lanes memnodes q ≡ opened self qp_lanes (node ∷ memnodes) q
opened_self self qp_lanes node memnodes q here = ground arith

opened_other :
    (self qp_lanes node : ℕ) (memnodes : List ℕ) (q : ℕ)
    → (node == self) ≡ false
    → (if node == q then qp_lanes else 0) + opened self qp_lanes memnodes q
      ≡ opened self qp_lanes (node ∷ memnodes) q
opened_other self qp_lanes node memnodes q there = ground arith

module _ (p : Peers) where
  Opens-IsSound :
      {f : ℕ → ℕ} {c c' : ComputeNode}
      → Opens f c c'
      → IsSound c.seg_mask_ p
      → IsSound c'.seg_mask_ p
  Opens-IsSound o s = subst (λ mask. IsSound mask p) (sym o.mask) s

  connect_lanes-Opens :
      (n i node : ℕ) (c : ComputeNode)
      → node < 2 ^ 16
      → IsSound c.seg_mask_ p
      → (c' : ComputeNode) × (connect_lanes p n i node c ≡ done c')
        × Opens (λ q. if node == q then n else 0) c c'
  unfolding connect_lanes
  connect_lanes-Opens zero i node c small s =
      (c, refl, record { links = λ q. ground arith; mask = refl })
  connect_lanes-Opens (suc n) i node c small s =
      let (c1, saved, one) =
        save_lane-Opens node (p.dial node i) (s.regions node i) c small (s.aligned node i) in
      let (c2, rest, more) = connect_lanes-Opens n (suc i) node c1 small (Opens-IsSound one s) in
      (
        c2,
        ap (λ o. save_lane node (p.dial node i) o c >>= connect_lanes p n (suc i) node)
              (s.delivered node i)
            ∙ ap (λ o. o >>= connect_lanes p n (suc i) node) saved
            ∙ rest,
        Opens-trans one more (λ q. ground arith),
      )

  -- If every lane delivers regions that the node accepts, and the ids fit 16 bits, connecting succeeds, and it opens `qp_lanes`
  -- connections for each time that a machine other than the node itself is listed, and no others.
  pub connect_remote-Opens :
      (self qp_lanes : ℕ) (memnodes : List ℕ) (c : ComputeNode)
      → AllBelow (2 ^ 16) memnodes
      → IsSound c.seg_mask_ p
      → (c' : ComputeNode) × (connect_remote p self qp_lanes memnodes c ≡ done c')
        × Opens (opened self qp_lanes memnodes) c c'
  unfolding connect_remote
  connect_remote-Opens self qp_lanes [] c known s =
      (c, refl, record { links = λ q. ground arith; mask = refl })
  connect_remote-Opens self qp_lanes (node ∷ memnodes) c (small, known) s =
      elim (Bool-cases (node == self)) [
        | inl here ↦
            (let (c', rest, more) = connect_remote-Opens self qp_lanes memnodes c known s in
              (
                c',
                rw (here) rest,
                record {
                  links = λ q.
                      more.links q
                      ∙ ap (λ n. connections q c + n)
                          (opened_self self qp_lanes node memnodes q here);
                  mask = more.mask;
                },
              ))
        | inr there ↦
            (let (c1, lanes, one) = connect_lanes-Opens qp_lanes 0 node c small s in
              let (c', rest, more) =
                connect_remote-Opens self qp_lanes memnodes c1 known (Opens-IsSound one s) in
              (
                c',
                rw (there) (ap (λ o. o >>= connect_remote p self qp_lanes memnodes) lanes ∙ rest),
                Opens-trans one more (λ q. opened_other self qp_lanes node memnodes q there),
              ))
      ]
