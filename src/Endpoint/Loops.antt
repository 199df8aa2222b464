-- ===== src/Endpoint/Loops.antt =====
-- A loopback connection on a device with an active port is ready, and leads to itself.
use remus_tutorial.Prelude.{
  ℕ, ◌≤◌, ◌≡◌, ◌⊎◌, ◌==◌, ◌||◌, ◌&&◌, Bool, true, false, if◌then◌else◌, [], some, List, ◌∷◌,
}
use remus_tutorial.Endpoint.{Device, PortAttr}
use remus_tutorial.Endpoint.Ready.{
  Ibverbs, QpState, reset, init, rtr, rts, Field, state, pkey_index, port, access_flags, av,
  path_mtu, dest_qpn, rq_psn, max_dest_rd_atomic, min_rnr_timer, sq_psn, timeout, retry_cnt,
  rnr_retry, max_qp_rd_atomic, AhAttr, QpAttr, Qp, init_attr,
}

abbrev tag : Field → ℕ
tag state = 0
tag pkey_index = 1
tag port = 2
tag access_flags = 3
tag av = 4
tag path_mtu = 5
tag dest_qpn = 6
tag rq_psn = 7
tag max_dest_rd_atomic = 8
tag min_rnr_timer = 9
tag sq_psn = 10
tag timeout = 11
tag retry_cnt = 12
tag rnr_retry = 13
tag max_qp_rd_atomic = 14

abbrev pub has : Field → List Field → Bool
has f [] = false
has f (g ∷ mask) = (tag f == tag g) || has f mask

abbrev has_all : List Field → List Field → Bool
has_all [] mask = true
has_all (f ∷ fs) mask = has f mask && has_all fs mask

abbrev same_fields : List Field → List Field → Bool
same_fields fs mask = has_all fs mask && has_all mask fs

-- The table in the manual of `ibv_modify_qp` for a reliable connection: the fields that a transition
-- requires. Optional fields are left out.
abbrev pub permits : QpState → QpState → List Field → Bool
permits reset init mask = same_fields (state ∷ pkey_index ∷ port ∷ access_flags ∷ []) mask
permits init init mask = same_fields (state ∷ pkey_index ∷ port ∷ access_flags ∷ []) mask
permits init rtr mask =
    same_fields
      (state ∷ av ∷ path_mtu ∷ dest_qpn ∷ rq_psn ∷ max_dest_rd_atomic ∷ min_rnr_timer ∷ []) mask
permits rtr rts mask =
    same_fields (state ∷ timeout ∷ retry_cnt ∷ rnr_retry ∷ sq_psn ∷ max_qp_rd_atomic ∷ []) mask
permits _ _ mask = false

-- What the manual says: a transition of the table succeeds where the device supports the values. The
-- fields of the mask are taken over, and the others are kept.
pub record Follows (v : Ibverbs) : Type 1 where
  pub supports : QpAttr v.Gid → Type 0
  pub transition :
      (q : Qp v.Gid) (a : QpAttr v.Gid) (mask : List Field)
      → permits q.at_state a.qp_state mask ≡ true
      → supports a
      → (q' : Qp v.Gid) × (v.modify_qp q a mask ≡ some q')
        × (q'.at_state ≡ a.qp_state)
        × (q'.qp_num ≡ q.qp_num)
        × (q'.attr.dest_qp_num ≡ (if has dest_qpn mask then a.dest_qp_num else q.attr.dest_qp_num))
        × (q'.attr.ah_attr ≡ (if has av mask then a.ah_attr else q.attr.ah_attr))

-- The port has an address: a local id that is enough, or a global id that the device gives.
abbrev pub IsAddressed : Ibverbs → ℕ → PortAttr → Type 0
IsAddressed v p a =
    (((a.lid == 0) || a.grh_required) ≡ false)
    ⊎ ((1 ≤ a.gid_tbl_len) × (gid : v.Gid) × (v.query_gid p 0 ≡ some gid))

module _ (v : Ibverbs) where
  -- Ready to send, connected to itself through the port `p`.
  pub record Loops (d : Device) (p : ℕ) (q q' : Qp v.Gid) : Type 0 where
    pub is_ready : q'.at_state ≡ rts
    pub same : q'.qp_num ≡ q.qp_num
    pub dest : q'.attr.dest_qp_num ≡ q.qp_num
    pub lid : q'.attr.ah_attr.dlid ≡ (d.query_port p).lid
    pub through : q'.attr.ah_attr.port_num ≡ p

  -- The device supports the values that the code asks for at the port `p`.
  abbrev pub Supports : Follows v → ℕ → Type 0
  Supports f p =
      (s : QpState) (ah : AhAttr v.Gid) (dest : ℕ)
      → f.supports (record (init_attr v p) { ah_attr = ah; qp_state = s; dest_qp_num = dest })
