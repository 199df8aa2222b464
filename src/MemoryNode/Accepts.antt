-- ===== src/MemoryNode/Accepts.antt =====
-- `handle_connections` ends with the last connection that the node waits for.
use remus_tutorial.Prelude.{
  ℕ, zero, suc, ◌-◌, ◌≡◌, ap, arith, ◌==◌, true, false, some, done, ◌>>=◌, List, [], ◌∷◌, ◌++◌,
}
use remus_tutorial.MemoryNode.{
  MemoryNode, Request, CmEvent, again, timewait_exit, established, disconnected, connect_request,
  on_event, handle_connections,
}

-- Events that the node reads past.
pub data IsIdle : CmEvent → Type 0 where
  on_again : IsIdle again
  on_timewait_exit : IsIdle timewait_exit
  on_established : IsIdle established
  on_disconnected : IsIdle disconnected

-- A request of the machine `id` that the library serves.
pub record IsGood (self id : ℕ) (q : Request) : Type 0 where
  pub known : q.private_data ≡ some id
  pub other : (id == self) ≡ false
  pub accepted : q.accepted ≡ true
  pub sent : q.sent ≡ true

-- The events hold `n` good requests, of the machines in the list, before the last of which nothing
-- goes wrong, and then `rest`.
pub data Serves (self : ℕ) : ℕ → List ℕ → List CmEvent → List CmEvent → Type 0 where
  all_here : {rest : List CmEvent} → Serves self zero [] rest rest
  idle :
      {n : ℕ} {ids : List ℕ} {e : CmEvent} {events rest : List CmEvent}
      → IsIdle e
      → Serves self (suc n) ids events rest
      → Serves self (suc n) ids (e ∷ events) rest
  request :
      {n id : ℕ} {ids : List ℕ} {q : Request} {events rest : List CmEvent}
      → IsGood self id q
      → Serves self n ids events rest
      → Serves self (suc n) (id ∷ ids) (connect_request q ∷ events) rest

-- The node after its last connection.
abbrev pub connected : List ℕ → MemoryNode → MemoryNode
connected ids n = record n { conns_ = n.conns_ ++ ids; remaining_conns_ = 0 }

abbrev accept : ℕ → MemoryNode → MemoryNode
accept id n = record n { conns_ = n.conns_ ++ (id ∷ []); remaining_conns_ = n.remaining_conns_ - 1 }

after :
    (e : CmEvent) (events : List CmEvent) (n : MemoryNode) (k : ℕ) {n' : MemoryNode}
    → n.remaining_conns_ ≡ suc k
    → on_event e n ≡ done n'
    → handle_connections (e ∷ events) n ≡ handle_connections events n'
unfolding handle_connections
after e events n k {n'} r h =
    let more : (n.remaining_conns_ == 0) ≡ false = ground (arith, r) in
    rw (more) (ap (λ o. o >>= λ n''. handle_connections events n'') h)
