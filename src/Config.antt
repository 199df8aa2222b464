-- ===== src/Config.antt =====
-- The command-line arguments of rdma/include/remus/cfg.h that the modelled parts read: what `uget`
-- and `sget` return for each flag. Config/Args has the flags themselves.
pub mod Args
pub mod Imports
pub mod Loads
mod Tests
use Prim.Native.String.{String}
use remus_tutorial.Prelude.{ℕ}

pub record Config : Type 0 where
  pub node_id : ℕ
  pub seg_size : ℕ
  pub segs_per_mn : ℕ
  pub first_cn_id : ℕ
  pub last_cn_id : ℕ
  pub first_mn_id : ℕ
  pub last_mn_id : ℕ
  pub qp_lanes : ℕ
  pub qp_sched_pol : String
  pub mn_port : ℕ
  pub cn_threads : ℕ
  pub cn_thread_bufsz : ℕ
  pub alloc_pol : String
  pub cn_ops_per_thread : ℕ
  pub cn_wrs_per_seq : ℕ
