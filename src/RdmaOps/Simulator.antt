-- ===== src/RdmaOps/Simulator.antt =====
-- A memory of cells and a device that carries a request out when it is posted; its completion comes
-- one poll later. The runs of the tests use it.
use remus_tutorial.Prelude.{
  ℕ, ◌+◌, ◌==◌, u64, none, some, if◌then◌else◌, List, [], ◌∷◌, ◌++◌, Map, lookup, insert,
}
use remus_tutorial.RdmaOps.Ibv.{
  Verbs, SendWr, rdma_read, rdma_write, atomic_cmp_and_swp, atomic_fetch_and_add, Polled, nothing,
  completed,
}

pub record Sim : Type 0 where
  pub cells : Map ℕ
  pub queue : List Polled

abbrev pub cell : ℕ → Map ℕ → ℕ
cell a m = elim (lookup a m) [ none ↦ 0 | some x ↦ x ]

abbrev pub served : SendWr → Map ℕ → Map ℕ
served wr m =
    let old = cell wr.remote_addr m in
    elim wr.opcode [
      | rdma_read ↦ insert wr.sge.addr old m
      | rdma_write ↦ insert wr.remote_addr (cell wr.sge.addr m) m
      | atomic_cmp_and_swp ↦
          (insert wr.sge.addr old
            (insert wr.remote_addr (if old == wr.compare_add then wr.swap else old) m))
      | atomic_fetch_and_add ↦
          (insert wr.sge.addr old (insert wr.remote_addr (u64 (old + wr.compare_add)) m))
    ]

abbrev pub ends : SendWr → List Polled
ends wr = if wr.signaled then nothing ∷ completed wr.wr_id ∷ [] else []

abbrev pub serve_all : List SendWr → Sim → Sim
serve_all [] w = w
serve_all (wr ∷ wrs) w =
    serve_all wrs (record { cells = served wr w.cells; queue = w.queue ++ ends wr })

abbrev pub next_polled : List Polled → Sim → Polled × Sim
next_polled [] w = (nothing, w)
next_polled (p ∷ ps) w = (p, record w { queue = ps })

abbrev pub simulator : Verbs
simulator = record {
  World = Sim;
  load = λ a n w. cell a w.cells;
  store = λ a n val w. record w { cells = insert a val w.cells };
  post_send = λ conn chain w. some (serve_all chain w);
  poll_cq = λ conn w. next_polled w.queue w;
}
