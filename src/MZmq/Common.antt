-- ===== src/MZmq/Common.antt =====
-- zmq_common_send and zmq_common_recv together.
use event_bus_cpp.Prelude.{
  ℕ, false, true, List, [], ◌∷◌, length, ◌≡◌, ◌⊎◌, inl, inr, refl, sym, ap, subst, ◌∙◌, arith,
}
use event_bus_cpp.Prelude.Int.{ℤ, pos, negsuc, is_negative}
use event_bus_cpp.Zmq.{Zmq, Documented, View, Frame, Socket, Bytes}
use event_bus_cpp.MZmq.Send.{zmq_common_send, close_with, send_frame}
use event_bus_cpp.MZmq.Sent.{send_frame_lem, Sends, Sends-close}
use event_bus_cpp.MZmq.Recv.{zmq_common_recv}
use event_bus_cpp.MZmq.Taken.{Consumed-quiet, Consumed-frame, Returns, Returns-finish}
use event_bus_cpp.MZmq.Roundtrip.{Arrives}

module _ (z : Zmq) (d : Documented z) where
  open z use {World}
  open d use {view}

  -- zmq_common_send queues its bytes as one whole message, or answers a negative number and queues
  -- nothing; the message is closed.
  pub zmq_common_send_frames :
      (s : Socket) (bytes : Bytes) (w : World)
      → let r = zmq_common_send z s bytes w in
        (Sends z d s ((bytes, false) ∷ []) w r.1 × (r.0 ≡ pos (length bytes)))
        ⊎ (Sends z d s [] w r.1 × (is_negative r.0 ≡ true))
  unfolding zmq_common_send close_with
  zmq_common_send_frames s bytes w =
      let w1 : World = (send_frame z s bytes false w).1 in
      elim (send_frame_lem z d s bytes false w) [
        | inl (rc, e) ↦ rw rc (inl (Sends-close z d s _ w w1 e, refl))
        | inr (n, rc, e) ↦ rw rc (inr (Sends-close z d s _ w w1 e, refl))
      ]

  zmq_common_recv-frame :
      (t : Socket) (f : Frame) (q : List Frame) (w : World)
      → (view w).inbox t ≡ f ∷ q
      → Returns z d t q (pos (length f.0), f.0) w (zmq_common_recv z t w)
        ⊎ ((n : ℕ) × Returns z d t (f ∷ q) (negsuc n, []) w (zmq_common_recv z t w))
  unfolding zmq_common_recv
  zmq_common_recv-frame t f q w e =
      let w1 : World = (z.msg_init w).1 in
      let r : ℤ × World = z.msg_recv t false w1 in
      elim (d.wait_view t f q w1 (ground (arith, d.init_view w)) (ground (arith, d.init_view w))) [
        | inl (rc, v) ↦
            let held : (view r.1).message ≡ f.0 = ap (λ (x : View). x.message) v in
            let read : z.msg_data (length f.0) r.1 ≡ f.0 =
              subst (λ (b : Bytes). z.msg_data (length b) r.1 ≡ b) held (d.data_view r.1) in
            inl (
              rw (rc, zmq_common_recv, read)
                (Returns-finish z d t q (pos (length f.0), f.0) w r.1
                  (Consumed-frame t f.0 f.1 true q (ground (arith, d.init_view w)))))
        | inr (n, err, rc, v) ↦ inr (
          n,
          rw (rc, zmq_common_recv)
              (Returns-finish z d t (f ∷ q) (negsuc n, []) w r.1
                (Consumed-quiet t [] true err (f ∷ q) e (ground (arith, d.init_view w)))),
        )
      ]

  false≢true : false ≡ true → ⊥
  false≢true h = cc

  -- If zmq_common_send does not answer a negative number and what it queued arrives in front at a socket,
  -- zmq_common_recv, which waits there, returns the same bytes with their number, takes them and
  -- leaves what waited behind; or it answers a negative number and no bytes, and takes nothing. The
  -- message is closed either way.
  pub zmq_common_recv-zmq_common_send :
      (s t : Socket) (bytes : Bytes) (w w' : World) (q : List Frame)
      → let r = zmq_common_send z s bytes w in
        is_negative r.0 ≡ false
        → Arrives z d s t w r.1 w' q
        → Returns z d t q (pos (length bytes), bytes) w' (zmq_common_recv z t w')
          ⊎ ((n : ℕ) × Returns z d t
                ((bytes, false) ∷ q)
                (negsuc n, [])
                w'
                (zmq_common_recv z t w'))
  zmq_common_recv-zmq_common_send s t bytes w w' q ok arrives =
      elim (zmq_common_send_frames s bytes w) [
        | inl (sent, rc) ↦ zmq_common_recv-frame t (bytes, false) q w' (arrives _ sent.0.queued)
        | inr (_, neg) ↦ absurd (false≢true (sym ok ∙ neg))
      ]
