-- ===== src/Connection.antt =====
-- rdma/include/remus/connection.h: messages between two machines, as the vectors of the library are
-- sent and received. An element is its bytes. What the device does is a record of operations; one-sided
-- requests are in RdmaOps.
pub mod Vectors
mod Tests
use remus_tutorial.Prelude.{
  ℕ, zero, suc, ◌+◌, ◌*◌, ◌-◌, ◌/◌, ◌%◌, ◌==◌, Bool, if◌then◌else◌, Option, none, some, Outcome,
  done, fault, diverge, ◌>>=◌, List, [], ◌∷◌, ◌++◌, length,
}

-- `remus::StatusVal`, with the kinds of status that are returned here.
pub data StatusVal (A : Type 0) : Type 0 where
  ok : A → StatusVal A
  unavailable aborted internal_error : StatusVal A

-- `rdma_get_recv_comp`: EAGAIN, another error, a flush, `byte_len` bytes of success, another status.
pub data RecvComp : Type 0 where
  again error flushed other : RecvComp
  received : ℕ → RecvComp

-- `rdma_get_send_comp`.
pub data SendComp : Type 0 where
  retry broken success failure : SendComp

-- `seg` reads that many bytes of the segment; `fill` writes bytes to its start.
pub record Channel : Type 1 where
  pub World : Type 0
  pub seg : ℕ → World → List ℕ
  pub fill : List ℕ → World → World
  pub post_send : ℕ → World → Option World
  pub get_send_comp : World → SendComp × World
  pub get_recv_comp : World → RecvComp × World

abbrev pub take_n : ℕ → List ℕ → List ℕ
take_n zero xs = []
take_n (suc n) [] = []
take_n (suc n) (x ∷ xs) = x ∷ take_n n xs

abbrev pub drop_n : ℕ → List ℕ → List ℕ
drop_n zero xs = xs
drop_n (suc n) [] = []
drop_n (suc n) (x ∷ xs) = drop_n n xs

-- `n` elements of `size` bytes.
unfoldable pub elements : ℕ → ℕ → List ℕ → List (List ℕ)
elements zero size bytes = []
elements (suc n) size bytes = take_n size bytes ∷ elements n size (drop_n size bytes)

-- The bytes of a vector.
abbrev pub bytes_of : List (List ℕ) → List ℕ
bytes_of [] = []
bytes_of (x ∷ xs) = x ++ bytes_of xs

-- The copy is of all bytes that were received, to a vector of as many elements as fit: where bytes
-- are left over, it writes behind the end of the vector.
unfoldable pub to_vec : ℕ → StatusVal (List ℕ) → Outcome (StatusVal (List (List ℕ)))
to_vec size (ok bytes) =
    if length bytes % size == 0
    then done (ok (elements (length bytes / size) size bytes))
    else fault
to_vec size unavailable = done unavailable
to_vec size aborted = done aborted
to_vec size internal_error = done internal_error

module _ (c : Channel) where
  -- The loop that waits for the completion of a send.
  unfoldable pub await_send : ℕ → c.World → Outcome (StatusVal (Unit {0}) × c.World)
  await_send zero w = diverge
  await_send (suc fuel) w =
      let (comp, w') = c.get_send_comp w in
      let rest = await_send fuel w' in
      elim comp [
        | retry ↦ rest
        | broken ↦ done (internal_error, w')
        | failure ↦ done (internal_error, w')
        | success ↦ done (ok tt, w')
      ]

  -- `SendMessage`, and `Send`.
  unfoldable pub send_message :
      ℕ → List (List ℕ) → c.World → Outcome (StatusVal (Unit {0}) × c.World)
  send_message fuel msg w =
      let bytes = bytes_of msg in
      elim (c.post_send (length bytes) (c.fill bytes w)) [
        | none ↦ done (internal_error, c.fill bytes w)
        | some w' ↦ await_send fuel w'
      ]

  abbrev pub message_of : RecvComp → c.World → StatusVal (List ℕ)
  message_of again w = unavailable
  message_of error w = internal_error
  message_of flushed w = aborted
  message_of other w = internal_error
  message_of (received n) w = ok (c.seg n w)

  unfoldable pub try_deliver_message : c.World → StatusVal (List ℕ) × c.World
  try_deliver_message w = let (comp, w') = c.get_recv_comp w in (message_of comp w', w')

  unfoldable pub try_deliver_vec : ℕ → c.World → Outcome (StatusVal (List (List ℕ)) × c.World)
  try_deliver_vec size w =
      let (msg, w') = try_deliver_message w in to_vec size msg >>= λ v. done (v, w')

  -- `DeliverVec` tries again while nothing has come.
  unfoldable pub deliver_vec : ℕ → ℕ → c.World → Outcome (StatusVal (List (List ℕ)) × c.World)
  deliver_vec zero size w = diverge
  deliver_vec (suc fuel) size w = try_deliver_vec size w >>= λ (v, w').
      let rest = deliver_vec fuel size w' in
      elim v [
        | unavailable ↦ rest
        | ok x ↦ done (ok x, w')
        | aborted ↦ done (aborted, w')
        | internal_error ↦ done (internal_error, w')
      ]
