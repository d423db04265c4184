-- ===== src/MZmq/Roundtrip.antt =====
-- SendEventEntity and RecvEventEntity together.
use event_bus_cpp.Prelude.{
  true, false, Option, List, ◌∷◌, ◌++◌, ◌≡◌, ◌⊎◌, inl, inr, sym, ◌∙◌, ap, subst,
}
use event_bus_cpp.Prelude.Int.{is_negative}
use event_bus_cpp.Zmq.{Zmq, Documented, Frame, Socket, Bytes}
use event_bus_cpp.MZmq.Send.{send_event_entity}
use event_bus_cpp.MZmq.Sent.{contents, send_event_entity-TwoFrames}
use event_bus_cpp.MZmq.Recv.{Received, whole, recv_event_entity}
use event_bus_cpp.MZmq.Taken.{Returns}
use event_bus_cpp.MZmq.Received.{Receipt, recv_event_entity-Receipt}

false≢true : false ≡ true → ⊥
false≢true h = cc

module _ (z : Zmq) (d : Documented z) where
  open z use {World}
  open d use {view}

  -- The frames that a call queued at `s` are those in front at the socket `t`.
  abbrev pub Arrives : Socket → Socket → World → World → World → List Frame → Type 0
  Arrives s t w sent w' q =
      (fs : List Frame)
      → (view sent).outbox s ≡ (view w).outbox s ++ fs
      → (view w').inbox t ≡ fs ++ q

  received :
      (t : Socket) (w' : World) (title c : Bytes) (q fs : List Frame)
      → fs ≡ (title, true) ∷ (c, false) ∷ q
      → Receipt z d t fs w' (recv_event_entity z t w')
      → Returns z d t q (whole title c) w' (recv_event_entity z t w')
        ⊎ (is_negative (recv_event_entity z t w').0.rc ≡ true)
  received t w' title c q fs e h =
      elim (subst (λ (x : List Frame). Receipt z d t x w' (recv_event_entity z t w')) e h) [
        | inl x ↦ inl x
        | inr (inl x) ↦ inr (ap (λ (r : Received). is_negative r.rc) x.0)
        | inr (inr (n, x)) ↦ inr (ap (λ (r : Received). is_negative r.rc) x.0)
      ]

  -- If SendEventEntity does not answer a negative number and what it queued arrives in front at a
  -- socket, RecvEventEntity there returns the same title and content, with its length, and leaves
  -- what waited behind; or it answers a negative number.
  pub send_event_entity-recv_event_entity :
      (s t : Socket) (title : Bytes) (bytes : Option Bytes) (w w' : World) (q : List Frame)
      → let r = send_event_entity z s title bytes w in
        is_negative r.0 ≡ false
        → Arrives s t w r.1 w' q
        → Returns z d t q (whole title (contents bytes)) w' (recv_event_entity z t w')
          ⊎ (is_negative (recv_event_entity z t w').0.rc ≡ true)
  send_event_entity-recv_event_entity s t title bytes w w' q ok arrives =
      elim (send_event_entity-TwoFrames z d s title bytes w) [
        | inl (sent, rc) ↦
            received t w' title (contents bytes) q _ (arrives _ sent.0.queued)
              (recv_event_entity-Receipt z d t w')
        | inr (inl (_, neg)) ↦ absurd (false≢true (sym ok ∙ neg))
        | inr (inr (_, neg)) ↦ absurd (false≢true (sym ok ∙ neg))
      ]
