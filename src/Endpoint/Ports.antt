-- ===== src/Endpoint/Ports.antt =====
-- The port that `connect_loopback` takes.
use remus_tutorial.Prelude.{
  ℕ, zero, suc, ◌+◌, ◌≡◌, refl, Bool, true, false, if◌then◌else◌, Option, none, some, List, [], ◌∷◌,
}
use remus_tutorial.Endpoint.{Device, PortAttr, active_from, find_active_ports}

-- The loop over `n` ports from `i` on, with the attributes that the last query has left; before the
-- first query there are none.
unfoldable pub first_port : (ℕ → PortAttr) → ℕ → ℕ → Option PortAttr → ℕ × Option PortAttr
first_port query i zero attr = (1, attr)
first_port query i (suc n) attr =
    let more = first_port query (i + 1) n (some (query i)) in
    if (query i).active then (i, some (query i)) else more

unfoldable pub choose_port : Device → ℕ × Option PortAttr
choose_port d = first_port d.query_port 1 d.phys_port_cnt none

-- What is left in the variable by `n` queries from `i` on.
abbrev pub last_queried : (ℕ → PortAttr) → ℕ → ℕ → Option PortAttr → Option PortAttr
last_queried query i zero attr = attr
last_queried query i (suc n) attr = last_queried query (i + 1) n (some (query i))

abbrev pub chosen : (ℕ → PortAttr) → List ℕ → Option PortAttr → ℕ × Option PortAttr
chosen query [] last = (1, last)
chosen query (p ∷ ports) last = (p, some (query p))

chosen_next :
    (query : ℕ → PortAttr) (b : Bool) (i : ℕ) (ports : List ℕ) (last : Option PortAttr)
    {more : ℕ × Option PortAttr}
    → more ≡ chosen query ports last
    → (if b then (i, some (query i)) else more) ≡ chosen query (if b then i ∷ ports else ports) last
chosen_next query true i ports last e = refl
chosen_next query false i ports last e = e

first_port-active_from :
    (query : ℕ → PortAttr) (i n : ℕ) (attr : Option PortAttr)
    → first_port query i n attr ≡ chosen query (active_from query i n) (last_queried query i n attr)
unfolding first_port active_from
first_port-active_from query i zero attr = refl
first_port-active_from query i (suc n) attr =
    chosen_next query (query i).active i (active_from query (i + 1) n)
      (last_queried query (i + 1) n (some (query i)))
      (first_port-active_from query (i + 1) n (some (query i)))

-- The loopback connection takes the first active port with its own attributes. Where no port is
-- active it takes port 1, but with the attributes of the last port of the device, or none at all
-- where the device has no port.
pub choose_port-find_active_ports :
    (d : Device)
    → choose_port d
      ≡ chosen d.query_port (find_active_ports d) (last_queried d.query_port 1 d.phys_port_cnt none)
unfolding choose_port find_active_ports
choose_port-find_active_ports d = first_port-active_from d.query_port 1 d.phys_port_cnt none
