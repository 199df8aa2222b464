-- ===== src/Connection/Tests.antt =====
-- Runs of the delivery of vectors, and uses of the theorems at concrete inputs.
use remus_tutorial.Prelude.{ℕ, ◌≡◌, arith, refl, some, done, fault, List, [], ◌∷◌}
use remus_tutorial.Connection.{
  Channel, RecvComp, again, received, success, take_n, bytes_of, ok, to_vec, deliver_vec,
  send_message, await_send,
}
use remus_tutorial.Connection.Vectors.{Arrives, deliver_vec-bytes_of}

-- A segment, and what the next calls for a completion find.
record Wire : Type 0 where
  bytes : List ℕ
  comps : List RecvComp

abbrev next_comp : List RecvComp → Wire → RecvComp × Wire
next_comp [] w = (again, w)
next_comp (c ∷ cs) w = (c, record w { comps = cs })

abbrev wire : Channel
wire = record {
  World = Wire;
  seg = λ n w. take_n n w.bytes;
  fill = λ bytes w. record w { bytes = bytes };
  post_send = λ n w. some (record w { comps = again ∷ received n ∷ [] });
  get_send_comp = λ w. (success, w);
  get_recv_comp = λ w. next_comp w.comps w;
}

abbrev two_regions : List (List ℕ)
two_regions = (1 ∷ 2 ∷ []) ∷ (3 ∷ 4 ∷ []) ∷ []

abbrev empty : Wire
empty = record { bytes = []; comps = [] }

abbrev sent : Wire
sent = record { bytes = bytes_of two_regions; comps = again ∷ received 4 ∷ [] }

abbrev drained : Wire
drained = record { bytes = bytes_of two_regions; comps = [] }

sends : send_message wire 1 two_regions empty ≡ done (ok tt, sent)
unfolding send_message await_send
sends = refl

deliver_vec-bytes_of_example : deliver_vec wire 3 2 sent ≡ done (ok two_regions, drained)
deliver_vec-bytes_of_example =
    deliver_vec-bytes_of wire 2 1 3 two_regions {w = sent} {w' = drained} (omega arith)
      (refl, (refl, tt)) (Arrives.later refl (Arrives.here refl refl)) (omega arith)

-- Five bytes are no vector of elements of two bytes.
left_over : to_vec 2 (ok (1 ∷ 2 ∷ 3 ∷ 4 ∷ 5 ∷ [])) ≡ fault
unfolding to_vec
left_over = refl
