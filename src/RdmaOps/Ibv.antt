-- ===== src/RdmaOps/Ibv.antt =====
-- The RDMA library and the memory of the process, as far as rdma/include/remus/rdma_ops.h and
-- rdma/include/remus/connection.h use them: `ibv_post_send`, `ibv_poll_cq`, and loads and stores.
use remus_tutorial.Prelude.{ℕ, Bool, false, Option, none, List}

pub data Opcode : Type 0 where
  rdma_read rdma_write atomic_cmp_and_swp atomic_fetch_and_add : Opcode

-- `ibv_sge`
pub record Sge : Type 0 where
  pub addr : ℕ
  pub length : ℕ
  pub lkey : ℕ

-- `ibv_send_wr` with its `sg_list`. `next` is the place of the next request in the same batch.
pub record SendWr : Type 0 where
  pub wr_id : Option ℕ
  pub num_sge : ℕ
  pub sge : Sge
  pub opcode : Opcode
  pub signaled : Bool
  pub fence : Bool
  pub remote_addr : ℕ
  pub rkey : ℕ
  pub compare_add : ℕ
  pub swap : ℕ
  pub next : Option ℕ

-- `ibv_send_wr{}`: all zero.
abbrev pub blank : SendWr
blank = record {
  wr_id = none;
  num_sge = 0;
  sge = record { addr = 0; length = 0; lkey = 0 };
  opcode = rdma_write;
  signaled = false;
  fence = false;
  remote_addr = 0;
  rkey = 0;
  compare_add = 0;
  swap = 0;
  next = none;
}

-- What `poll_cq` finds: no completion yet, an error, or the success of the request with this
-- `wr_id`.
pub data Polled : Type 0 where
  nothing failed : Polled
  completed : Option ℕ → Polled

-- `post_send` is `none` where the library reports an error. A load or a store of `n` bytes is one of
-- the number that they stand for.
pub record Verbs : Type 1 where
  pub World : Type 0
  pub load : ℕ → ℕ → World → ℕ
  pub store : ℕ → ℕ → ℕ → World → World
  pub post_send : ℕ → List SendWr → World → Option World
  pub poll_cq : ℕ → World → Polled × World
