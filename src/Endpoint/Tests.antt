-- ===== src/Endpoint/Tests.antt =====
-- Small devices, and uses of the theorems at concrete inputs.
use remus_tutorial.Prelude.{
  ℕ, zero, suc, ◌≡◌, refl, true, false, if◌then◌else◌, none, some, List, [], ◌∷◌,
}
use remus_tutorial.Endpoint.{
  Device, PortAttr, active_from, find_active_ports, get_avail_devices, htons,
}
use remus_tutorial.Endpoint.Ports.{
  first_port, choose_port, chosen, last_queried, choose_port-find_active_ports,
}
use remus_tutorial.Endpoint.Ready.{Ibverbs, init, Field, dest_qpn, av, QpAttr, Qp, init_attr}
use remus_tutorial.Endpoint.Loops.{has, permits, Follows, Loops}

-- Of three ports only the second is active; on the other device none is.
abbrev port_of : ℕ → PortAttr
port_of (suc (suc zero)) = record { active = true; lid = 12; grh_required = false; gid_tbl_len = 0 }
port_of n = record { active = false; lid = n; grh_required = false; gid_tbl_len = 0 }

abbrev one_active : Device
one_active = record { name = "mlx5_0"; phys_port_cnt = 3; query_port = port_of }

abbrev all_down : Device
all_down = record {
  name = "mlx5_1";
  phys_port_cnt = 2;
  query_port = λ n. record { active = false; lid = n; grh_required = false; gid_tbl_len = 0 };
}

-- Without an active port the attributes of port 2 go with port 1.
ports :
    (find_active_ports one_active ≡ 2 ∷ [])
    × (get_avail_devices (some one_active ∷ none ∷ some all_down ∷ []) ≡ ("mlx5_0", 2) ∷ [])
    × (choose_port one_active ≡ (2, some (port_of 2)))
    × (choose_port all_down ≡ (1, some (all_down.query_port 2)))
unfolding find_active_ports active_from get_avail_devices choose_port first_port
ports = (refl, refl, refl, refl)

-- Port 33330 asks for service 12930.
services : (htons 33330 ≡ 12930) × (htons 257 ≡ 257)
unfolding htons
services = (refl, refl)

-- A device that makes the transitions of the table, whatever the values.
abbrev taken : Qp ℕ → QpAttr ℕ → List Field → QpAttr ℕ
taken q a mask = record a {
  dest_qp_num = if has dest_qpn mask then a.dest_qp_num else q.attr.dest_qp_num;
  ah_attr = if has av mask then a.ah_attr else q.attr.ah_attr;
}

abbrev verbs : Ibverbs
verbs = record {
  Gid = ℕ;
  query_gid = λ p i. some 5;
  modify_qp = λ q a mask.
      if permits q.at_state a.qp_state mask
      then some (record q { at_state = a.qp_state; attr = taken q a mask })
      else none;
}

verbs-Follows : Follows verbs
verbs-Follows = record {
  supports = λ a. Unit;
  transition = λ q a mask allowed fine. (
    record q { at_state = a.qp_state; attr = taken q a mask },
    rw allowed refl,
    refl,
    refl,
    refl,
    refl,
  );
}

abbrev new_qp : Qp ℕ
new_qp = record { qp_num = 77; at_state = init; attr = init_attr verbs 0 }

choose_port-find_active_ports_example :
    choose_port all_down
    ≡ chosen all_down.query_port
        (find_active_ports all_down)
        (last_queried all_down.query_port 1 2 none)
choose_port-find_active_ports_example = choose_port-find_active_ports all_down
