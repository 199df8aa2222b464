-- ===== src/Endpoint/Service.antt =====
-- The service that the two ends of a connection ask for.
use remus_tutorial.Prelude.{ℕ, ◌/◌, ◌%◌, ◌^◌, ◌<◌, ◌≡◌, ◌↔◌, ◌∙◌, sym, ap, arith}
use remus_tutorial.Endpoint.{htons}

htons-htons : (port : ℕ) → port < 2 ^ 16 → htons (htons port) ≡ port
unfolding htons
htons-htons port h = omega arith

-- Two nodes meet at a service only if they have the same port.
htons_injective : (p q : ℕ) → p < 2 ^ 16 → q < 2 ^ 16 → htons p ≡ htons q → p ≡ q
htons_injective p q hp hq e = sym (htons-htons p hp) ∙ ap htons e ∙ htons-htons q hq

-- The service has the number of the port exactly if the two bytes of the port are the same.
htons_iff : (port : ℕ) → port < 2 ^ 16 → (htons port ≡ port) ↔ (port % 256 ≡ port / 256)
unfolding htons
htons_iff port h = (λ e. omega arith, λ e. omega arith)
