-- ===== src/Endpoint.antt =====
-- How an endpoint is made: the devices and their ports of rdma/include/remus/util.h, and
-- `initialize_ep` and `connect_loopback` of rdma/include/remus/compute_node.h. What the libraries for
-- RDMA report and do is a parameter.
pub mod Ports
pub mod Service
pub mod Ready
pub mod Loops
mod Tests
use Prim.Native.String.{String}
use remus_tutorial.Prelude.{
  ℕ, zero, suc, ◌+◌, ◌*◌, ◌/◌, ◌%◌, ◌==◌, ◌||◌, leb, not, Bool, true, false, if◌then◌else◌, Option,
  none, some, Outcome, done, abort, ◌>>=◌, ◌>>◌, assert, at, List, [], ◌∷◌, ◌++◌,
}

abbrev pub buffer_size : ℕ
buffer_size = 65536

abbrev pub max_sge : ℕ
max_sge = 32

abbrev pub max_recv_sge : ℕ
max_recv_sge = 1

abbrev pub max_inline_data : ℕ
max_inline_data = 0

abbrev pub max_recv_bytes : ℕ
max_recv_bytes = 64

-- `kMaxWr`
abbrev pub max_wr : ℕ
max_wr = buffer_size / max_recv_bytes

-- `ibv_qp_init_attr`, with the fields that are set.
pub record QpInitAttr : Type 0 where
  pub max_send_wr : ℕ
  pub max_recv_wr : ℕ
  pub max_send_sge : ℕ
  pub max_recv_sge : ℕ
  pub max_inline : ℕ
  pub sq_sig_all : Bool

-- `make_default_qp_init_attrs`
unfoldable pub default_qp_init_attrs : QpInitAttr
default_qp_init_attrs = record {
  max_send_wr = max_wr;
  max_recv_wr = max_wr;
  max_send_sge = max_sge;
  max_recv_sge = max_recv_sge;
  max_inline = max_inline_data;
  sq_sig_all = false;
}

unfoldable pub listener_attrs : QpInitAttr
listener_attrs = record {
  max_send_wr = max_wr;
  max_recv_wr = max_wr;
  max_send_sge = 1;
  max_recv_sge = 1;
  max_inline = 0;
  sq_sig_all = true;
}

-- `ibv_port_attr`
pub record PortAttr : Type 0 where
  pub active : Bool
  pub lid : ℕ
  pub grh_required : Bool
  pub gid_tbl_len : ℕ

-- A device with its ports 1 to `phys_port_cnt`.
pub record Device : Type 0 where
  pub name : String
  pub phys_port_cnt : ℕ
  pub query_port : ℕ → PortAttr

-- The loop of `find_active_ports` over `n` ports from `i` on.
unfoldable pub active_from : (ℕ → PortAttr) → ℕ → ℕ → List ℕ
active_from query i zero = []
active_from query i (suc n) =
    let more = active_from query (i + 1) n in if (query i).active then i ∷ more else more

unfoldable pub find_active_ports : Device → List ℕ
find_active_ports d = active_from d.query_port 1 d.phys_port_cnt

abbrev with_name : String → List ℕ → List (String × ℕ)
with_name name [] = []
with_name name (p ∷ ports) = (name, p) ∷ with_name name ports

-- `get_avail_devices`; a device that cannot be opened is none.
unfoldable pub get_avail_devices : List (Option Device) → List (String × ℕ)
get_avail_devices [] = []
get_avail_devices (none ∷ devices) = get_avail_devices devices
get_avail_devices (some d ∷ devices) =
    with_name d.name (find_active_ports d) ++ get_avail_devices devices

-- `htons` on a machine of little-endian order.
unfoldable pub htons : ℕ → ℕ
htons port = port % 256 * 256 + port / 256 % 256

-- What the library makes of an address and a service: a failure, no address, or an address.
pub data Resolved (A : Type 0) : Type 0 where
  failed : Resolved A
  missing : Resolved A
  found : A → Resolved A

-- `rdma_getaddrinfo` for an address and the number of a service, and `rdma_create_ep`.
pub record Cm : Type 1 where
  pub Addr : Type 0
  pub CmId : Type 0
  pub getaddrinfo : String → ℕ → Bool → Resolved Addr
  pub create_ep : Option Addr → QpInitAttr → Option CmId

module _ (cm : Cm) where
  abbrev created : Option cm.CmId → Outcome cm.CmId
  created none = abort
  created (some id) = done id

  abbrev passive_ep : Resolved cm.Addr → Outcome cm.CmId
  passive_ep failed = abort
  passive_ep missing = abort
  passive_ep (found a) = created (cm.create_ep (some a) listener_attrs)

  abbrev no_devices : List (String × ℕ) → Bool
  no_devices [] = true
  no_devices (d ∷ ds) = false

  -- The flag says that the address is to listen at.
  unfoldable pub make_listen_id : List (Option Device) → String → ℕ → Outcome cm.CmId
  make_listen_id devices address port =
      assert (not (no_devices (get_avail_devices devices)))
      >> passive_ep (cm.getaddrinfo address (htons port) true)

  abbrev active_ep : Resolved cm.Addr → Outcome cm.CmId
  active_ep failed = abort
  active_ep missing = created (cm.create_ep none default_qp_init_attrs)
  active_ep (found a) = created (cm.create_ep (some a) default_qp_init_attrs)

  unfoldable pub initialize_ep : String → ℕ → Outcome cm.CmId
  initialize_ep address port = active_ep (cm.getaddrinfo address (htons port) false)
