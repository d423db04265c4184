-- ===== src/Tests/Messages.antt =====
-- The results on messages of several frames, at concrete inputs.
use event_bus_cpp.Prelude.{
  true, false, some, [], ◌∷◌, ◌≡◌, refl, arith, ◌⊎◌, sym, ◌∙◌, ℕ, ◌==◌, if◌then◌else◌,
}
use event_bus_cpp.Prelude.Int.{pos, is_negative, negsuc}
use event_bus_cpp.Zmq.{View}
use mathlib.Core.List.{append-nil}
use event_bus_cpp.MZmq.Send.{
  send_event_entity, send_3part_strings, send_data, send_frame, close_with, zmq_common_send,
}
use event_bus_cpp.MZmq.Roundtrip.{Arrives, send_event_entity-recv_event_entity}
use event_bus_cpp.MZmq.Taken.{Returns}
use event_bus_cpp.MZmq.Recv.{recv_event_entity, recv_all_messages, whole, Batch, zmq_common_recv}
use event_bus_cpp.MZmq.Parts.{send_3part_strings_frames}
use event_bus_cpp.MZmq.Sent.{TwoFrames, Sends, send_event_entity-TwoFrames}
use event_bus_cpp.MZmq.Received.{Receipt, recv_event_entity-Receipt}
use event_bus_cpp.MZmq.Batches.{Picked, recv_all_messages-Picked}
use event_bus_cpp.MZmq.Common.{zmq_common_recv-zmq_common_send}
use event_bus_cpp.Tests.Transport.{idle, transport, transport-Documented, waiting}

send_event_entity_example :
    TwoFrames
      (transport false)
      (transport-Documented false)
      2
      (5 ∷ [])
      (6 ∷ [])
      idle
      (send_event_entity (transport false) 2 (5 ∷ []) (some (6 ∷ [])) idle)
send_event_entity_example =
    send_event_entity-TwoFrames (transport false) (transport-Documented false) 2 (5 ∷ [])
      (some (6 ∷ [])) idle

send_3part_strings_example :
    (let r = send_3part_strings (transport false) 2 (5 ∷ []) (6 ∷ []) (7 ∷ []) idle in
      (Sends
          (transport false)
          (transport-Documented false)
          2
          ((5 ∷ [], true) ∷ (6 ∷ [], true) ∷ (7 ∷ [], false) ∷ [])
          idle
          r.1
        × (r.0 ≡ pos 1))
      ⊎ (Sends (transport false) (transport-Documented false) 2 [] idle r.1
          × (is_negative r.0 ≡ true))
      ⊎ (Sends (transport false) (transport-Documented false) 2 ((5 ∷ [], true) ∷ []) idle r.1
          × (is_negative r.0 ≡ true))
      ⊎ (Sends
            (transport false)
            (transport-Documented false)
            2
            ((5 ∷ [], true) ∷ (6 ∷ [], true) ∷ [])
            idle
            r.1
          × (is_negative r.0 ≡ true)))
send_3part_strings_example =
    send_3part_strings_frames (transport false) (transport-Documented false) 2 (5 ∷ []) (6 ∷ [])
      (7 ∷ []) idle

recv_event_entity_example :
    Receipt
      (transport false)
      (transport-Documented false)
      1
      (waiting.inbox 1)
      waiting
      (recv_event_entity (transport false) 1 waiting)
unfolding transport-Documented
recv_event_entity_example =
    recv_event_entity-Receipt (transport false) (transport-Documented false) 1 waiting

recv_all_messages_example :
    (r : Batch × View) × (recv_all_messages (transport false) 2 1 [] [] waiting ≡ some r)
    × Picked
        (transport false)
        (transport-Documented false)
        []
        []
        ((103 ∷ 111 ∷ [], 7 ∷ 8 ∷ []) ∷ [])
        1
        r
unfolding transport-Documented
recv_all_messages_example =
    recv_all_messages-Picked (transport false) (transport-Documented false) 2 1 [] [] waiting
      ((103 ∷ 111 ∷ [], 7 ∷ 8 ∷ []) ∷ []) (omega arith) refl

-- What the publisher's socket 2 has sent stands at socket 1.
arrival :
    Arrives
      (transport false)
      (transport-Documented false)
      2
      1
      idle
      (send_event_entity (transport false) 2 (103 ∷ 111 ∷ []) (some (7 ∷ 8 ∷ [])) idle).1
      waiting
      []
unfolding transport-Documented send_event_entity send_data send_frame close_with
arrival fs e = e ∙ sym (append-nil fs)

send_recv_example :
    Returns
      (transport false)
      (transport-Documented false)
      1
      []
      (whole (103 ∷ 111 ∷ []) (7 ∷ 8 ∷ []))
      waiting
      (recv_event_entity (transport false) 1 waiting)
    ⊎ (is_negative (recv_event_entity (transport false) 1 waiting).0.rc ≡ true)
unfolding transport-Documented send_event_entity send_data send_frame close_with
send_recv_example =
    send_event_entity-recv_event_entity (transport false) (transport-Documented false) 2 1
      (103 ∷ 111 ∷ []) (some (7 ∷ 8 ∷ [])) idle waiting [] refl arrival

-- One frame of two bytes at socket 1.
abbrev one_frame : View
one_frame = record idle { inbox = λ s. if s == 1 then (5 ∷ 6 ∷ [], false) ∷ [] else [] }

one_arrival :
    Arrives
      (transport false)
      (transport-Documented false)
      2
      1
      idle
      (zmq_common_send (transport false) 2 (5 ∷ 6 ∷ []) idle).1
      one_frame
      []
unfolding transport-Documented zmq_common_send send_frame close_with
one_arrival fs e = e ∙ sym (append-nil fs)

zmq_common_example :
    Returns
      (transport false)
      (transport-Documented false)
      1
      []
      (pos 2, 5 ∷ 6 ∷ [])
      one_frame
      (zmq_common_recv (transport false) 1 one_frame)
    ⊎ ((n : ℕ) × Returns
          (transport false)
          (transport-Documented false)
          1
          ((5 ∷ 6 ∷ [], false) ∷ [])
          (negsuc n, [])
          one_frame
          (zmq_common_recv (transport false) 1 one_frame))
unfolding zmq_common_send send_frame close_with
zmq_common_example =
    zmq_common_recv-zmq_common_send (transport false) (transport-Documented false) 2 1 (5 ∷ 6 ∷ [])
      idle one_frame [] refl one_arrival
