-- ===== src/Endpoint/Ready.antt =====
-- `connect_loopback` of rdma/include/remus/compute_node.h: the queue pair is brought to its ready
-- state in three steps, and is connected to itself.
use remus_tutorial.Prelude.{
  ℕ, ◌==◌, leb, ◌||◌, if◌then◌else◌, Option, none, some, Outcome, done, abort, ◌>>=◌, ◌>>◌, assert,
  at, List, [], ◌∷◌,
}
use remus_tutorial.Endpoint.{Device, PortAttr}
use remus_tutorial.Endpoint.Ports.{choose_port}

-- The states of a queue pair that matter here.
pub data QpState : Type 0 where
  reset init rtr rts : QpState

-- `attr_mask`: which fields of the attributes are meant.
pub data Field : Type 0 where
  state pkey_index port access_flags : Field
  av path_mtu dest_qpn rq_psn max_dest_rd_atomic min_rnr_timer : Field
  sq_psn timeout retry_cnt rnr_retry max_qp_rd_atomic : Field

-- `ibv_ah_attr`; `dgid` is set where the address is global.
pub record AhAttr (Gid : Type 0) : Type 0 where
  pub dlid : ℕ
  pub port_num : ℕ
  pub dgid : Option Gid
  pub hop_limit : ℕ

-- `ibv_qp_attr`
pub record QpAttr (Gid : Type 0) : Type 0 where
  pub qp_state : QpState
  pub port_num : ℕ
  pub dest_qp_num : ℕ
  pub timeout_ : ℕ
  pub retry_cnt_ : ℕ
  pub rnr_retry_ : ℕ
  pub max_rd_atomic : ℕ
  pub max_dest_rd_atomic_ : ℕ
  pub min_rnr_timer_ : ℕ
  pub ah_attr : AhAttr Gid

-- A queue pair as the device knows it.
pub record Qp (Gid : Type 0) : Type 0 where
  pub qp_num : ℕ
  pub at_state : QpState
  pub attr : QpAttr Gid

-- The calls of ibverbs; `none` is an error. The table of identifiers has one for each index.
pub record Ibverbs : Type 1 where
  pub Gid : Type 0
  pub query_gid : ℕ → ℕ → Option Gid
  pub modify_qp : Qp Gid → QpAttr Gid → List Field → Option (Qp Gid)

abbrev pub init_mask : List Field
init_mask = state ∷ pkey_index ∷ port ∷ access_flags ∷ []

abbrev pub rtr_mask : List Field
rtr_mask = state ∷ av ∷ path_mtu ∷ dest_qpn ∷ rq_psn ∷ max_dest_rd_atomic ∷ min_rnr_timer ∷ []

abbrev pub rts_mask : List Field
rts_mask = state ∷ sq_psn ∷ timeout ∷ retry_cnt ∷ rnr_retry ∷ max_qp_rd_atomic ∷ []

module _ (v : Ibverbs) where
  abbrev pub init_attr : ℕ → QpAttr v.Gid
  init_attr port_num = record {
    qp_state = init;
    port_num = port_num;
    dest_qp_num = 0;
    timeout_ = 12;
    retry_cnt_ = 255;
    rnr_retry_ = 7;
    max_rd_atomic = 8;
    max_dest_rd_atomic_ = 8;
    min_rnr_timer_ = 12;
    ah_attr = record { dlid = 0; port_num = 0; dgid = none; hop_limit = 0 };
  }

  abbrev pub modify : Qp v.Gid → QpAttr v.Gid → List Field → Outcome (Qp v.Gid)
  modify q attr mask = elim (v.modify_qp q attr mask) [ none ↦ abort | some q' ↦ done q' ]

  -- The address handle; without a local id the first global id of the port is asked for.
  abbrev pub global_handle : ℕ → PortAttr → Outcome (AhAttr v.Gid)
  global_handle port_num p = assert (leb 1 p.gid_tbl_len) >> elim (v.query_gid port_num 0) [
    | none ↦ abort
    | some gid ↦
        done (record { dlid = p.lid; port_num = port_num; dgid = some gid; hop_limit = 255 })
  ]

  unfoldable pub handle_for : ℕ → PortAttr → Outcome (AhAttr v.Gid)
  handle_for port_num p =
      let global = global_handle port_num p in
      if (p.lid == 0) || p.grh_required
      then global
      else done (record { dlid = p.lid; port_num = port_num; dgid = none; hop_limit = 0 })

  abbrev pub connect_on : ℕ × Option PortAttr → Qp v.Gid → Outcome (Qp v.Gid)
  connect_on (port_num, port_attr) q = do
    q1 ← modify q (init_attr port_num) init_mask
    p ← at port_attr
    ah ← handle_for port_num p
    let attr = record (init_attr port_num) { ah_attr = ah; qp_state = rtr; dest_qp_num = q1.qp_num }
    q2 ← modify q1 attr rtr_mask
    modify q2 (record attr { qp_state = rts }) rts_mask

  -- From the endpoint's queue pair on a device whose port queries succeed.
  unfoldable pub connect_loopback : Device → Qp v.Gid → Outcome (Qp v.Gid)
  connect_loopback d q = connect_on (choose_port d) q
