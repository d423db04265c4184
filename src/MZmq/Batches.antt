-- ===== src/MZmq/Batches.antt =====
-- RecvAllMessages picks up what waits, message by message, and stops at EAGAIN or at a failure.
use event_bus_cpp.Prelude.{
  ℕ, zero, suc, true, false, some, List, [], ◌∷◌, ◌++◌, length, ◌≡◌, ◌⊎◌, inl, inr, refl, ap, ◌∙◌,
  sym, ◌<◌, arith,
}
use mathlib.Core.List.{append-nil, append_assoc}
use event_bus_cpp.Prelude.Int.{to_int, ℤ, negsuc}
use event_bus_cpp.Zmq.{Zmq, Documented, Frame, Socket, Bytes}
use event_bus_cpp.MZmq.Recv.{
  Round, no_more, broken, got, receive, recv_round, round_content, recv_all_messages, Batch,
}
use event_bus_cpp.MZmq.Taken.{
  Took, receive-frame, receive-nil, Returns, Returns-finish, Returns-after, left, closed-Took,
  title-Took,
}

-- An event as a publisher sends it: two frames.
abbrev pub Event : Type 0
Event = Bytes × Bytes

abbrev pub wire : List Event → List Frame
wire [] = []
wire ((title, content) ∷ es) = (title, true) ∷ (content, false) ∷ wire es

abbrev pub titles : List Event → List Bytes
titles [] = []
titles ((title, content) ∷ es) = title ∷ titles es

abbrev pub contents_of : List Event → List Bytes
contents_of [] = []
contents_of ((title, content) ∷ es) = content ∷ contents_of es

module _ (z : Zmq) (d : Documented z) where
  open z use {World}
  open d use {view}

  round_content-frame :
      (s : Socket) (title : Bytes) (w : World) (c : Bytes) (q : List Frame)
      → (view w).inbox s ≡ (c, false) ∷ q
      → let r = round_content z s title w in
        Returns z d s q (got title c) w r ⊎ ((e : ℕ) × (r.0 ≡ broken e))
  unfolding round_content
  round_content-frame s title w c q e =
      let r : ℤ × World = receive z s w in
      elim (receive-frame z d s w c false q e) [
        | inl t ↦ inl (
            rw (t.size, round_content, title-Took z d t)
              (Returns-finish z d s q (got title c) w r.1 t.rest))
        | inr t ↦ inr (z.get_errno r.1, rw (t.failed, round_content))
      ]

  recv_round-event :
      (s : Socket) (w : World) (title c : Bytes) (q : List Frame)
      → (view w).inbox s ≡ (title, true) ∷ (c, false) ∷ q
      → let r = recv_round z s w in Returns z d s q (got title c) w r ⊎ ((e : ℕ) × (r.0 ≡ broken e))
  unfolding recv_round
  recv_round-event s w title c q e =
      let r : ℤ × World = receive z s w in
      elim (receive-frame z d s w title true ((c, false) ∷ q) e) [
        | inl t ↦ rw (t.size, recv_round, t.follows, title-Took z d t) (second t)
        | inr t ↦ inr (z.get_errno r.1, rw (t.failed, recv_round, t.is_again))
      ]
    where
      second :
          Took z d s title true ((c, false) ∷ q) w (receive z s w)
          → let r = round_content z s title (z.msg_close (receive z s w).1).1 in
            Returns z d s q (got title c) w r ⊎ ((e : ℕ) × (r.0 ≡ broken e))
      second t =
          let after = closed-Took z d t in
          elim (round_content-frame s title _ c q after.waiting) [
            | inl h ↦ inl (Returns-after z d after h)
            | inr h ↦ inr h
          ]

  recv_round-nil :
      (s : Socket) (w : World)
      → (view w).inbox s ≡ []
      → let r = recv_round z s w in
        ((e : ℕ) × Returns z d s [] (no_more e) w r) ⊎ ((e : ℕ) × (r.0 ≡ broken e))
  unfolding recv_round
  recv_round-nil s w e =
      let r : ℤ × World = receive z s w in
      elim (receive-nil z d s w e) [
        | inl t ↦ inl (
          z.get_errno r.1,
          rw (t.failed, recv_round, t.is_again)
              (Returns-finish z d s _ (no_more (z.get_errno r.1)) w r.1 (left z d e t.rest)),
        )
        | inr t ↦ inr (z.get_errno r.1, rw (t.failed, recv_round, t.is_again))
      ]

  -- The events taken stand behind what the lists held; either they are all, and the code counts the
  -- contents, or a receive failed and the code is -1.
  pub record Picked (ts cs : List Bytes) (es : List Event) (s : Socket) (r : Batch × World)
      : Type 0 where
    pub taken : List Event
    pub lost : List Event
    pub parts : es ≡ taken ++ lost
    pub same_titles : r.0.titles ≡ ts ++ titles taken
    pub same_contents : r.0.contents ≡ cs ++ contents_of taken
    pub ends :
        ((lost ≡ []) × (r.0.rc ≡ to_int (length r.0.contents)) × ((view r.1).inbox s ≡ []))
        ⊎ (r.0.rc ≡ negsuc 0)

  Picked-cons :
      {ts cs : List Bytes} {es : List Event} {s : Socket} {r : Batch × World} (t c : Bytes)
      → Picked (ts ++ t ∷ []) (cs ++ c ∷ []) es s r
      → Picked ts cs ((t, c) ∷ es) s r
  Picked-cons {ts} {cs} t c p = record {
    taken = (t, c) ∷ p.taken;
    lost = p.lost;
    parts = ap (◌∷◌ (t, c)) p.parts;
    same_titles = p.same_titles ∙ append_assoc ts (t ∷ []) (titles p.taken);
    same_contents = p.same_contents ∙ append_assoc cs (c ∷ []) (contents_of p.taken);
    ends = p.ends;
  }

  Picked-broken :
      (ts cs : List Bytes) (es : List Event) (s : Socket) (n : ℕ) (w : World)
      → Picked ts cs es s (record { rc = negsuc 0; titles = ts; contents = cs; err_num = n }, w)
  Picked-broken ts cs es s n w = record {
    taken = [];
    lost = es;
    parts = refl;
    same_titles = sym (append-nil ts);
    same_contents = sym (append-nil cs);
    ends = inr refl;
  }

  -- With only whole events waiting at the socket and more fuel than events, RecvAllMessages
  -- ends. It appends to its two lists the titles and the contents of the first of these events,
  -- in order; either of all of them, and then nothing waits any more and it answers the length
  -- of the list of contents as an int, or it answers -1.
  pub recv_all_messages-Picked :
      (fuel : ℕ) (s : Socket) (ts cs : List Bytes) (w : World) (es : List Event)
      → length es < fuel
      → (view w).inbox s ≡ wire es
      → (r : Batch × World) × (recv_all_messages z fuel s ts cs w ≡ some r) × Picked ts cs es s r
  unfolding recv_all_messages
  recv_all_messages-Picked zero s ts cs w es h e = absurd (omega arith)
  recv_all_messages-Picked (suc fuel) s ts cs w [] h e = elim (recv_round-nil s w e) [
    | inl (n, x) ↦ (
      (stop (to_int (length cs)) n, (recv_round z s w).1),
      rw (x.0, recv_all_messages),
      record {
        taken = [];
        lost = [];
        parts = refl;
        same_titles = sym (append-nil ts);
        same_contents = sym (append-nil cs);
        ends = inl (refl, refl, x.1.waiting);
      },
    )
    | inr (n, x) ↦ (
      (stop (negsuc 0) n, (recv_round z s w).1),
      rw (x, recv_all_messages),
      Picked-broken ts cs [] s n (recv_round z s w).1,
    )
  ]
    where
      stop : ℤ → ℕ → Batch
      stop rc n = record { rc = rc; titles = ts; contents = cs; err_num = n }
  recv_all_messages-Picked (suc fuel) s ts cs w ((t, c) ∷ es) h e =
      let r : Round × World = recv_round z s w in
      elim (recv_round-event s w t c (wire es) e) [
        | inl x ↦
            let (b, run, p) =
              recv_all_messages-Picked fuel s (ts ++ t ∷ []) (cs ++ c ∷ []) r.1 es (omega arith)
                x.1.waiting in
            (b, rw (x.0, recv_all_messages) run, Picked-cons t c p)
        | inr (n, x) ↦ (
          (record { rc = negsuc 0; titles = ts; contents = cs; err_num = n }, r.1),
          rw (x, recv_all_messages),
          Picked-broken ts cs _ s n r.1,
        )
      ]
