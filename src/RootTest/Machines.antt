-- ===== src/RootTest/Machines.antt =====
-- What the machines of the root test have together: the connections of each compute node, and the
-- number of all threads.
use native.Mathlib.Nat.{mod-eq_of_lt, mul_comm}
use remus_tutorial.Prelude.{
  AllBelow, ℕ, zero, suc, ◌+◌, ◌-◌, ◌*◌, ◌^◌, ◌≤◌, ◌<◌, ◌≡◌, ◌∙◌, refl, ap, sym, subst, arith, true,
  false, leb, ◌&&◌, u64, int_word, sub64, ◌==◌, ==_iff, Bool-cases, lookup, inl, inr, if◌then◌else◌,
  Bool, some, done, ◌>>=◌, List,
}
use remus_tutorial.Config.{Config}
use remus_tutorial.ComputeNode
use remus_tutorial.ComputeNode.{ComputeNode}
use remus_tutorial.ComputeNode.Connect.{RegionInfo, Peers, machine_id, connect_remote}
use remus_tutorial.ComputeNode.Counts.{
  AllAligned, IsSound, Opens-trans, connections, occurrences, opened, connect_remote-Opens,
}
use remus_tutorial.ComputeNode.Loopback.{looped, connect_local-Opens}
use remus_tutorial.MemoryNode
use remus_tutorial.MemoryNode.{get_local_rkeys}
use remus_tutorial.RootTest.Setup.{
  ids_from, memnodes, is_among, connect, memory_node_of, set_up, workers, total_threads,
  barrier_threads,
}

-- A loop over ids of 16 bits meets each of them once, and all that it meets are of 16 bits.
occurrences-ids_from :
    (q m0 n : ℕ)
    → m0 + n ≤ 2 ^ 16
    → occurrences q (ids_from m0 n) ≡ (if leb m0 q && leb (suc q) (m0 + n) then 1 else 0)
occurrences-ids_from q m0 zero h = ground arith
occurrences-ids_from q m0 (suc n) h =
    let narrow : machine_id m0 ≡ m0 = mod-eq_of_lt (omega arith) in
    ap (λ id. (if id == q then 1 else 0) + occurrences q (ids_from (m0 + 1) n)) narrow
    ∙ ground (arith, occurrences-ids_from q (m0 + 1) n (omega arith))

ids_from-AllBelow : (m0 n : ℕ) → AllBelow (2 ^ 16) (ids_from m0 n)
ids_from-AllBelow m0 zero = tt
ids_from-AllBelow m0 (suc n) = (omega arith, ids_from-AllBelow (m0 + 1) n)

-- The connections to `q` that a compute node should have.
abbrev pub wanted : Config → ℕ → ℕ
wanted args q = if is_among q args.first_mn_id args.last_mn_id then args.qp_lanes else 0

times_once :
    (b : Bool) (lanes k : ℕ) → k ≡ (if b then 1 else 0) → lanes * k ≡ (if b then lanes else 0)
times_once true lanes k e = rw e (omega arith)
times_once false lanes k e = rw e (omega arith)

-- The ids of the memory nodes and of the machine fit the type of a machine's id.
pub record HasIds (args : Config) : Type 0 where
  pub own : args.node_id < 2 ^ 16
  pub first : args.first_mn_id < 2 ^ 16
  pub last : args.last_mn_id < 2 ^ 16

wanted_lem :
    (args : Config) (q : ℕ)
    → HasIds args
    → args.qp_lanes * occurrences q (memnodes args) ≡ wanted args q
wanted_lem args q ids =
    times_once (is_among q args.first_mn_id args.last_mn_id) args.qp_lanes
      (occurrences q (memnodes args))
      (occurrences-ids_from q args.first_mn_id (args.last_mn_id + 1 - args.first_mn_id)
          (omega (arith, ids.first, ids.last))
        ∙ ground arith)

-- On a machine that is a memory node too, and on one that is not.
with_self :
    (args : Config) (self q : ℕ)
    → HasIds args
    → looped self args.qp_lanes (memnodes args) q + opened self args.qp_lanes (memnodes args) q
      ≡ wanted args q
with_self args self q ids = elim (Bool-cases (q == self)) [
  | inl own ↦ rw own (omega (arith, wanted_lem args q ids))
  | inr other ↦ rw other (omega (arith, wanted_lem args q ids))
]

without_self :
    (args : Config) (self q : ℕ)
    → HasIds args
    → is_among self args.first_mn_id args.last_mn_id ≡ false
    → opened self args.qp_lanes (memnodes args) q ≡ wanted args q
without_self args self q ids out = elim (Bool-cases (q == self)) [
  | inl own ↦ rw (own, (==_iff q self).0 own, out)
  | inr other ↦ rw other (wanted_lem args q ids)
]

new_connections :
    (args : Config) (buffer q : ℕ) → connections q (ComputeNode.construct args buffer) ≡ 0
unfolding ComputeNode.construct lookup
new_connections args buffer q = refl

construct-mask :
    (args : Config) (buffer : ℕ)
    → (ComputeNode.construct args buffer).seg_mask_ ≡ sub64 (2 ^ args.seg_size) 1
unfolding ComputeNode.construct
construct-mask args buffer = refl

module _ (p : Peers) (args : Config) (segs : List RegionInfo) where
  -- A compute node after both kinds of connections.
  abbrev pub Connects : ComputeNode → Type 0
  Connects c = (q : ℕ) → connections q c ≡ wanted args q

  connect-Opens :
      (c : ComputeNode)
      → HasIds args
      → IsSound c.seg_mask_ p
      → AllAligned c.seg_mask_ segs
      → ((q : ℕ) → connections q c ≡ 0)
      → (c' : ComputeNode) × (connect p (memory_node_of p segs args) args c ≡ done c') × Connects c'
  unfolding get_local_rkeys MemoryNode.construct
  connect-Opens c ids sound aligned empty =
      let self = machine_id args.node_id in
      let known : AllBelow (2 ^ 16) (memnodes args) =
        ids_from-AllBelow args.first_mn_id (args.last_mn_id + 1 - args.first_mn_id) in
      elim (Bool-cases (is_among args.node_id args.first_mn_id args.last_mn_id)) [
        | inl too ↦
            let (c1, looped_to, one) =
              connect_local-Opens p segs self args.qp_lanes (memnodes args) c known aligned in
            let (c2, rest, more) =
              connect_remote-Opens p self args.qp_lanes (memnodes args) c1 known
                (subst (λ mask. IsSound mask p) (sym one.mask) sound) in
            let both = Opens-trans one more (λ q. with_self args self q ids) in
            (
              c2,
              rw too (
                  ap (λ o. o >>= connect_remote p self args.qp_lanes (memnodes args)) looped_to
                  ∙ rest),
              λ q. omega (arith, both.links q, empty q),
            )
        | inr only ↦
            let (c2, rest, more) =
              connect_remote-Opens p self args.qp_lanes (memnodes args) c known sound in
            let out : is_among self args.first_mn_id args.last_mn_id ≡ false =
              subst (λ id. is_among id args.first_mn_id args.last_mn_id ≡ false)
                (sym (mod-eq_of_lt ids.own)) only in
            (
              c2,
              rw only rest,
              λ q. omega (arith, more.links q, empty q, without_self args self q ids out),
            )
      ]

  -- Where the ids fit 16 bits, on a compute node whose peers deliver regions that it accepts, and that accepts the segments of
  -- its own memory node where it has one, setting up succeeds, and it leaves exactly `qp_lanes`
  -- connections to every memory node, the machine itself included, and none to other machines.
  pub set_up-Connects :
      (buffer : ℕ)
      → HasIds args
      → is_among args.node_id args.first_cn_id args.last_cn_id ≡ true
      → IsSound (sub64 (2 ^ args.seg_size) 1) p
      → AllAligned (sub64 (2 ^ args.seg_size) 1) segs
      → (c : ComputeNode) × (set_up p segs buffer args
          ≡ done (record { memory_node = memory_node_of p segs args; compute_node = some c }))
        × Connects c
  unfolding set_up
  set_up-Connects buffer ids computes sound aligned =
      let new : ComputeNode = ComputeNode.construct args buffer in
      let mask = sym (construct-mask args buffer) in
      let (c, connected, links) =
        connect-Opens new ids (subst (λ k. IsSound k p) mask sound)
          (subst (λ k. AllAligned k segs) mask aligned) (new_connections args buffer) in
      (
        c,
        rw computes (
            ap
              (λ o. o >>= λ d.
                done (record { memory_node = memory_node_of p segs args; compute_node = some d }))
              connected),
        links,
      )

-- The threads that the machines with the ids below `n` start.
abbrev pub started : Config → ℕ → ℕ
started args zero = 0
started args (suc n) = started args n + workers args n

-- How many of the first `n` machines compute.
abbrev span : ℕ → ℕ → ℕ → ℕ
span first last zero = 0
span first last (suc n) = span first last n + (if is_among n first last then 1 else 0)

span_lem :
    (first last n : ℕ)
    → first ≤ last
    → span first last n
      ≡ (if leb n first then 0 else if leb n last then n - first else last + 1 - first)
span_lem first last zero h = ground arith
span_lem first last (suc n) h = ground (arith, span_lem first last n h)

started_lem :
    (args : Config) (n : ℕ)
    → started args n ≡ span args.first_cn_id args.last_cn_id n * args.cn_threads
unfolding workers
started_lem args zero = omega arith
started_lem args (suc n) = ground (arith, started_lem args n)

as_int : (n : ℕ) → n < 2 ^ 31 → int_word n ≡ n
as_int n h = omega arith

-- Where the ids of the compute nodes are in order and below the number of machines, and the number
-- of threads fits an int, what the barrier of each machine takes for the number of all threads is
-- the number of threads that all machines start, and so is the count at which a memory node shuts down.
pub total_threads-started :
    (args : Config) (machines self : ℕ) (segs : List RegionInfo)
    → args.first_cn_id ≤ args.last_cn_id
    → args.last_cn_id < machines
    → machines < 2 ^ 64
    → started args machines < 2 ^ 31
    → (barrier_threads args ≡ started args machines)
      × ((MemoryNode.construct args self segs).total_threads_ ≡ started args machines)
unfolding total_threads barrier_threads MemoryNode.construct
total_threads-started args machines self segs ordered within small fits =
    let count : ℕ = args.last_cn_id + 1 - args.first_cn_id in
    let nodes : u64 (sub64 args.last_cn_id args.first_cn_id + 1) ≡ count = omega arith in
    let sum : started args machines ≡ count * args.cn_threads =
      started_lem args machines
      ∙ ap (λ k. k * args.cn_threads)
          (span_lem args.first_cn_id args.last_cn_id machines ordered ∙ ground arith) in
    let whole : u64 (count * args.cn_threads) ≡ count * args.cn_threads =
      mod-eq_of_lt (omega (arith, sum, fits)) in
    (
      ap int_word (ap (λ k. u64 (k * args.cn_threads)) nodes ∙ whole ∙ sym sum)
          ∙ as_int (started args machines) fits,
      ap (λ k. u64 (args.cn_threads * k)) nodes
          ∙ ap u64 (mul_comm args.cn_threads count)
          ∙ whole
          ∙ sym sum,
    )
