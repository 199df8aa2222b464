-- ===== src/MemoryNode/Expected.antt =====
-- A memory node waits for exactly the connections that the compute nodes open to it.
use native.Mathlib.Nat.{mod-eq_of_lt, mul-le-mul_right}
use remus_tutorial.Prelude.{
  ℕ, zero, suc, ◌+◌, ◌-◌, ◌*◌, ◌^◌, ◌≤◌, ◌<◌, ◌≡◌, ◌∙◌, ap, ap₂, sym, arith, ◌==◌, leb, ◌&&◌,
  if◌then◌else◌, Bool, true, false, u32, List,
}
use remus_tutorial.Config.{Config}
use remus_tutorial.ComputeNode.Connect.{RegionInfo, machine_id}
use remus_tutorial.ComputeNode.Counts.{opened, occurrences}
use remus_tutorial.MemoryNode.{construct, remote_nodes}

-- The connections to `id` that the `n` compute nodes from `c0` on open, each as the machine of its id.
abbrev pub opened_by : ℕ → ℕ → ℕ → List ℕ → ℕ → ℕ
opened_by c0 zero qp_lanes memnodes id = 0
opened_by c0 (suc n) qp_lanes memnodes id =
    opened (machine_id c0) qp_lanes memnodes id + opened_by (suc c0) n qp_lanes memnodes id

-- The nodes from `c0` on, `n` of them, other than `id`.
abbrev others : ℕ → ℕ → ℕ → ℕ
others c0 n id = if leb c0 id && leb (suc id) (c0 + n) then n - 1 else n

others_cons :
    (c0 n id : ℕ) → others c0 (suc n) id ≡ (if id == c0 then 0 else 1) + others (suc c0) n id
others_cons c0 n id = ground arith

one_more :
    (b : Bool) (lanes rest : ℕ)
    → (if b then 0 else lanes * 1) + rest * lanes ≡ ((if b then 0 else 1) + rest) * lanes
one_more true lanes rest = omega arith
one_more false lanes rest = omega arith

others_le : (c0 n id : ℕ) → others c0 n id ≤ n
others_le c0 n id = ground arith

opened_by_lem :
    (c0 n qp_lanes : ℕ) (memnodes : List ℕ) (id : ℕ)
    → c0 + n ≤ 2 ^ 16
    → occurrences id memnodes ≡ 1
    → opened_by c0 n qp_lanes memnodes id ≡ others c0 n id * qp_lanes
opened_by_lem c0 zero qp_lanes memnodes id small once = ground arith
opened_by_lem c0 (suc n) qp_lanes memnodes id small once =
    let narrow : machine_id c0 ≡ c0 = mod-eq_of_lt (omega arith) in
    let more = opened_by_lem (suc c0) n qp_lanes memnodes id (omega arith) once in
    omega (
      arith,
      more,
      ap (λ c. opened c qp_lanes memnodes id) narrow,
      ap (λ k. k * qp_lanes) (others_cons c0 n id),
      ap (λ k. if id == c0 then 0 else qp_lanes * k) once,
      one_more (id == c0) qp_lanes (others (suc c0) n id),
    )

remote_nodes_lem :
    (id c0 cn : ℕ)
    → id < 2 ^ 16
    → c0 ≤ cn
    → cn < 2 ^ 16
    → remote_nodes id c0 cn ≡ others c0 (cn - c0 + 1) id
remote_nodes_lem id c0 cn i c b = ground arith

-- For ids of machines that fit 16 bits and fewer than 2^32 connections in all, the constructor of a memory
-- node that the list names once expects as many connections as the compute nodes open to it.
pub expected-opened :
    (args : Config) (self : ℕ) (segs : List RegionInfo) (memnodes : List ℕ)
    → args.node_id < 2 ^ 16
    → args.first_cn_id ≤ args.last_cn_id
    → args.last_cn_id < 2 ^ 16
    → (args.last_cn_id + 1) * args.qp_lanes < 2 ^ 32
    → occurrences args.node_id memnodes ≡ 1
    → (construct args self segs).remaining_conns_
      ≡ opened_by args.first_cn_id
          (args.last_cn_id - args.first_cn_id + 1)
          args.qp_lanes
          memnodes
          args.node_id
unfolding construct
expected-opened args self segs memnodes i c b lanes once =
    let n : ℕ = args.last_cn_id - args.first_cn_id + 1 in
    let k : ℕ = others args.first_cn_id n args.node_id in
    let one : 1 ≤ args.last_cn_id + 1 = omega arith in
    let small : k ≤ args.last_cn_id + 1 =
      omega (arith, others_le args.first_cn_id n args.node_id) in
    let fits : k * args.qp_lanes < 2 ^ 32 =
      omega (arith, lanes, mul-le-mul_right args.qp_lanes small) in
    let whole : u32 args.qp_lanes ≡ args.qp_lanes =
      mod-eq_of_lt (omega (arith, lanes, mul-le-mul_right args.qp_lanes one)) in
    ap₂ (λ x y. u32 (x * y)) (remote_nodes_lem args.node_id args.first_cn_id args.last_cn_id i c b)
      whole
    ∙ mod-eq_of_lt fits
    ∙ sym (opened_by_lem args.first_cn_id n args.qp_lanes memnodes args.node_id (omega arith) once)
