-- ===== src/RdmaPtr/Order.antt =====
-- Equality, order and the null test of pointers.
use remus_tutorial.Prelude.{◌<◌, ◌≡◌, ◌↔◌, ◌⊎◌, true, arith}
use remus_tutorial.RdmaPtr.{RdmaPtr, IsWord, id, address, raw, eq, lt}
use remus_tutorial.RdmaPtr.Fields.{id_lem, address_lem}

-- `==` holds exactly when ids and addresses agree, and `<` orders by id, then by address.
eq-lt_iff :
    (p q : RdmaPtr)
    → IsWord p
    → IsWord q
    → ((eq p q ≡ true) ↔ ((id p ≡ id q) × (address p ≡ address q)))
      × ((lt p q ≡ true) ↔ ((id p < id q) ⊎ ((id p ≡ id q) × (address p < address q))))
unfolding eq lt raw
eq-lt_iff p q hp hq = ground (arith, id_lem p, id_lem q, address_lem p, address_lem q)
