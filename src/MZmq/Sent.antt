-- ===== src/MZmq/Sent.antt =====
-- What the sending functions of MZmq.h leave in the socket, on every branch.
use event_bus_cpp.Prelude.{
  ℕ, Bool, true, false, Option, none, some, List, [], ◌∷◌, ◌++◌, if◌then◌else◌, length, ◌≡◌, ◌≢◌,
  ◌⊎◌, inl, inr, arith, refl, sym, ap, subst, ◌∙◌,
}
use mathlib.Core.List.{append-nil, append_assoc}
use event_bus_cpp.Prelude.Int.{ℤ, pos, negsuc, is_negative}
use event_bus_cpp.Prelude.State.{State, ◌>>=◌}
use event_bus_cpp.Zmq.{Zmq, Documented, View, Frame, Socket, Bytes, update}
use event_bus_cpp.MZmq.Send.{
  send_frame, send_blank, send_data, send_event_entity, close_with, send_text, send_msg_strings,
}

-- The frames `fs` are queued at `s`, and nothing else that the program relies on has changed.
pub record Emitted (s : Socket) (fs : List Frame) (v v' : View) : Type 0 where
  pub queued : v'.outbox s ≡ v.outbox s ++ fs
  pub others : (t : Socket) → t ≢ s → v'.outbox t ≡ v.outbox t
  pub same_inbox : v'.inbox ≡ v.inbox
  pub same_filters : v'.filters ≡ v.filters

nil_of_length : (b : Bytes) → length b ≡ 0 → b ≡ []
nil_of_length [] h = refl
nil_of_length (x ∷ xs) h = absurd (omega arith)

-- The bytes of the second frame; none for a null pointer.
abbrev pub contents : Option Bytes → Bytes
contents none = []
contents (some bytes) = bytes

-- The bytes that stand for a text in its last frame.
abbrev pub text_frame : Bytes → Bytes
text_frame [] = 0 ∷ []
text_frame (c ∷ cs) = c ∷ cs

pub Emitted-trans :
    {s : Socket} {fs gs : List Frame} {u v w : View}
    → Emitted s fs u v
    → Emitted s gs v w
    → Emitted s (fs ++ gs) u w
Emitted-trans {s} {fs} {gs} {u} a b = record {
  queued = b.queued ∙ ap (λ (q : List Frame). q ++ gs) a.queued ∙ append_assoc (u.outbox s) fs gs;
  others = λ t h. b.others t h ∙ a.others t h;
  same_inbox = b.same_inbox ∙ a.same_inbox;
  same_filters = b.same_filters ∙ a.same_filters;
}

pub Emitted-quiet :
    (s : Socket) {v v' : View} (m : Bytes) (l : Bool) (e : ℕ)
    → v' ≡ record v { message = m; live = l; error = e }
    → Emitted s [] v v'
Emitted-quiet s {v} m l e h = record {
  queued = ap (λ (x : View). x.outbox s) h ∙ sym (append-nil (v.outbox s));
  others = λ t k. ap (λ (x : View). x.outbox t) h;
  same_inbox = ap (λ (x : View). x.inbox) h;
  same_filters = ap (λ (x : View). x.filters) h;
}

pub quiet_end :
    {s : Socket} {fs : List Frame} {u v w : View}
    → Emitted s fs u v
    → Emitted s [] v w
    → Emitted s fs u w
quiet_end {s} {fs} {u} {v} {w} a b =
    subst (λ (gs : List Frame). Emitted s gs u w) (append-nil fs) (Emitted-trans a b)

Emitted-frame :
    (s : Socket) (f : Frame) {v v' : View} (m : Bytes) (l : Bool)
    → v' ≡ record v { message = m; live = l; outbox = update v.outbox s (v.outbox s ++ f ∷ []) }
    → Emitted s (f ∷ []) v v'
Emitted-frame s f m l h = record {
  queued = ap (λ (x : View). x.outbox s) h ∙ ground arith;
  others = λ t k. ap (λ (x : View). x.outbox t) h ∙ ground arith;
  same_inbox = ap (λ (x : View). x.inbox) h;
  same_filters = ap (λ (x : View). x.filters) h;
}

module _ (z : Zmq) (d : Documented z) where
  open z use {World}
  open d use {view}

  -- A frame is queued whole, or the call fails and queues nothing.
  abbrev pub FrameOutcome : Socket → Bytes → Bool → World → ℤ × World → Type 0
  FrameOutcome s bytes sndmore w r =
      ((r.0 ≡ pos (length bytes)) × Emitted s ((bytes, sndmore) ∷ []) (view w) (view r.1))
      ⊎ ((n : ℕ) × (r.0 ≡ negsuc n) × Emitted s [] (view w) (view r.1))

  frame_outcome :
      (s : Socket) (bytes : Bytes) (sndmore : Bool) (w w' : World)
      → view w' ≡ record (view w) { message = bytes; live = true }
      → FrameOutcome s bytes sndmore w (z.msg_send s sndmore w')
  frame_outcome s bytes sndmore w w' e = elim (d.send_view s sndmore w' (ground arith)) [
    | inl (rc, sent) ↦ inl (ground arith, Emitted-frame s (bytes, sndmore) [] true (ground arith))
    | inr (n, err, rc, failed) ↦ inr (n, rc, Emitted-quiet s bytes true err (ground arith))
  ]

  pub send_frame_lem :
      (s : Socket) (bytes : Bytes) (sndmore : Bool) (w : World)
      → FrameOutcome s bytes sndmore w (send_frame z s bytes sndmore w)
  unfolding send_frame
  send_frame_lem s bytes sndmore w =
      let w1 : World = (z.msg_init_size (length bytes) w).1 in
      let (b, len, e) = d.init_size_view (length bytes) w in
      frame_outcome s bytes sndmore w _ (ground (arith, len, e, d.fill_view bytes w1))

  send_blank_lem : (s : Socket) (w : World) → FrameOutcome s [] false w (send_blank z s w)
  unfolding send_blank
  send_blank_lem s w =
      let (b, len, e) = d.init_size_view 0 w in
      frame_outcome s [] false w _ (ground (arith, len, e, nil_of_length b len))

  send_data_lem :
      (s : Socket) (bytes : Option Bytes) (w : World)
      → FrameOutcome s (contents bytes) false w (send_data z s bytes w)
  unfolding send_data
  send_data_lem s none w = send_blank_lem s w
  send_data_lem s (some bytes) w = send_frame_lem s bytes false w

  -- The frames `fs` are queued, nothing else is, and the message is closed.
  abbrev pub Sends : Socket → List Frame → World → World → Type 0
  Sends s fs w w' = Emitted s fs (view w) (view w') × ((view w').live ≡ false)

  pub Sends-close :
      (s : Socket) (fs : List Frame) (w w' : World)
      → Emitted s fs (view w) (view w')
      → Sends s fs w (z.msg_close w').1
  Sends-close s fs w w' e = (
    quiet_end e (Emitted-quiet s [] false (view w').error (d.close_view w')),
    ap (λ (x : View). x.live) (d.close_view w'),
  )

  -- A title frame with a last frame behind it, as two of the functions send them.
  abbrev pub TwoFrames : Socket → Bytes → Bytes → World → ℤ × World → Type 0
  TwoFrames s title body w r =
      (Sends s ((title, true) ∷ (body, false) ∷ []) w r.1 × (r.0 ≡ pos (length body)))
      ⊎ (Sends s [] w r.1 × (is_negative r.0 ≡ true))
      ⊎ (Sends s ((title, true) ∷ []) w r.1 × (is_negative r.0 ≡ true))

  abbrev title_then : Socket → Bytes → State World ℤ → State World ℤ
  title_then s title last = do
    rc ← send_frame z s title true
    if is_negative rc then close_with z rc else do rc' ← last; close_with z rc'

  title_then-TwoFrames :
      (s : Socket) (title body : Bytes) (last : State World ℤ) (w : World)
      → ((u : World) → FrameOutcome s body false u (last u))
      → TwoFrames s title body w (title_then s title last w)
  unfolding close_with
  title_then-TwoFrames s title body last w h =
      let w1 : World = (send_frame z s title true w).1 in
      elim (send_frame_lem s title true w) [
        | inr (n, rc, e) ↦ rw rc (inr (inl (Sends-close s [] w w1 e, refl)))
        | inl (rc, e) ↦ elim (h w1) [
          | inl (rc', e') ↦
              rw (rc, rc') (inl (Sends-close s _ w (last w1).1 (Emitted-trans e e'), refl))
          | inr (n, rc', e') ↦
              rw (rc, rc') (inr (inr (Sends-close s _ w (last w1).1 (Emitted-trans e e'), refl)))
        ]
      ]

  -- SendEventEntity queues the title with a flag that more follows and then the data, the empty frame
  -- for a null pointer, and answers the length of the data; or it answers a negative number and has
  -- queued nothing, or the title alone. On every way out the message is closed, and what waits at
  -- the sockets, their filters and the queues of other sockets are as before.
  pub send_event_entity-TwoFrames :
      (s : Socket) (title : Bytes) (bytes : Option Bytes) (w : World)
      → TwoFrames s title (contents bytes) w (send_event_entity z s title bytes w)
  unfolding send_event_entity
  send_event_entity-TwoFrames s title bytes w =
      title_then-TwoFrames s title (contents bytes) (send_data z s bytes) w (send_data_lem s bytes)

  pub send_text_lem :
      (s : Socket) (text : Bytes) (w : World)
      → FrameOutcome s (text_frame text) false w (send_text z s text w)
  unfolding send_text
  send_text_lem s [] w = send_frame_lem s (0 ∷ []) false w
  send_text_lem s (c ∷ cs) w = send_frame_lem s (c ∷ cs) false w

  -- SendMsgStrings queues the title with a flag that more follows and then the text, a single zero byte
  -- for the empty one, and answers the length of what it sent as the text; or it answers a negative
  -- number and has queued nothing, or the title alone. On every way out the message is closed.
  pub send_msg_strings-TwoFrames :
      (s : Socket) (title text : Bytes) (w : World)
      → TwoFrames s title (text_frame text) w (send_msg_strings z s title text w)
  unfolding send_msg_strings
  send_msg_strings-TwoFrames s title text w =
      title_then-TwoFrames s title (text_frame text) (send_text z s text) w (send_text_lem s text)
