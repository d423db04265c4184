-- ===== src/MZmq/Received.antt =====
-- What RecvEventEntity and RecvMsgString return for each sequence of frames that may be waiting.
use event_bus_cpp.Prelude.{
  ℕ, Bool, true, false, List, [], ◌∷◌, length, ◌≡◌, ◌⊎◌, inl, inr, subst, refl,
}
use event_bus_cpp.Prelude.Int.{ℤ, pos, negsuc}
use event_bus_cpp.Zmq.{Zmq, Documented, Frame, Socket, Bytes}
use event_bus_cpp.MZmq.Recv.{
  Received, whole, receive, nothing, recv_content, recv_message, recv_event_entity, recv_msg_string,
}
use event_bus_cpp.MZmq.Taken.{
  Took, Missed, receive-frame, receive-nil, Returns, Returns-finish, Returns-after, left,
  closed-Took, title-Took,
}

module _ (z : Zmq) (d : Documented z) where
  open z use {World}
  open d use {view}

  -- The bytes that `read` takes out of a message are those it holds.
  abbrev pub Reads : (ℕ → World → Bytes) → Type 0
  Reads read = (w : World) → read (length (view w).message) w ≡ (view w).message

  module _ (read : ℕ → World → Bytes) (reads : Reads read) where
    read-Took :
        {s : Socket} {b : Bytes} {m : Bool} {q : List Frame} {w : World} {r : ℤ × World}
        → Took z d s b m q w r
        → read (length b) r.1 ≡ b
    read-Took {r} t = subst (λ (x : Bytes). read (length x) r.1 ≡ x) t.bytes (reads r.1)

    recv_content-frame :
        (s : Socket) (title : Bytes) (w : World) (c : Bytes) (m : Bool) (q : List Frame)
        → (view w).inbox s ≡ (c, m) ∷ q
        → let r = recv_content z read s title w in
          Returns z d s q (whole title c) w r
          ⊎ ((n : ℕ) × Returns z d s ((c, m) ∷ q) (nothing z (negsuc n) title) w r)
    unfolding recv_content
    recv_content-frame s title w c m q e =
        let r : ℤ × World = receive z s w in
        elim (receive-frame z d s w c m q e) [
          | inl t ↦ inl (
              rw (t.size, recv_content, read-Took t)
                (Returns-finish z d s q (whole title c) w r.1 t.rest))
          | inr t ↦ inr (
            t.code,
            rw (t.failed, recv_content)
                (Returns-finish z d s _ (nothing z (negsuc t.code) title) w r.1
                  (left z d e t.rest)),
          )
        ]

    -- A title with a content behind it.
    recv_message-pair :
        (s : Socket) (w : World) (title c : Bytes) (m : Bool) (q : List Frame)
        → (view w).inbox s ≡ (title, true) ∷ (c, m) ∷ q
        → let r = recv_message z read s w in
          Returns z d s q (whole title c) w r
          ⊎ Returns z d s ((title, true) ∷ (c, m) ∷ q) (nothing z (negsuc 0) []) w r
          ⊎ ((n : ℕ) × Returns z d s ((c, m) ∷ q) (nothing z (negsuc n) title) w r)
    unfolding recv_message
    recv_message-pair s w title c m q e =
        let r : ℤ × World = receive z s w in
        let w' : World = (z.msg_close r.1).1 in
        elim (receive-frame z d s w title true ((c, m) ∷ q) e) [
          | inl t ↦ rw (t.size, recv_message, t.follows, title-Took z d t) (second t)
          | inr t ↦ inr (
              inl (
                rw (t.failed, recv_message, t.is_again)
                  (Returns-finish z d s _ (nothing z (negsuc 0) []) w r.1 (left z d e t.rest))))
        ]
      where
        second :
            Took z d s title true ((c, m) ∷ q) w (receive z s w)
            → let r = recv_content z read s title (z.msg_close (receive z s w).1).1 in
              Returns z d s q (whole title c) w r
              ⊎ Returns z d s ((title, true) ∷ (c, m) ∷ q) (nothing z (negsuc 0) []) w r
              ⊎ ((n : ℕ) × Returns z d s ((c, m) ∷ q) (nothing z (negsuc n) title) w r)
        second t =
            let after = closed-Took z d t in
            elim (recv_content-frame s title _ c m q after.waiting) [
              | inl h ↦ inl (Returns-after z d after h)
              | inr (n, h) ↦ inr (inr (n, Returns-after z d after h))
            ]

    -- Nothing waits: 0 for EAGAIN, and -1 for another failure.
    recv_message-nil :
        (s : Socket) (w : World)
        → (view w).inbox s ≡ []
        → let r = recv_message z read s w in
          Returns z d s [] (nothing z (pos 0) []) w r
          ⊎ Returns z d s [] (nothing z (negsuc 0) []) w r
    unfolding recv_message
    recv_message-nil s w e =
        let r : ℤ × World = receive z s w in
        elim (receive-nil z d s w e) [
          | inl t ↦ inl (
              rw (t.failed, recv_message, t.is_again)
                (Returns-finish z d s _ (nothing z (pos 0) []) w r.1 (left z d e t.rest)))
          | inr t ↦ inr (
              rw (t.failed, recv_message, t.is_again)
                (Returns-finish z d s _ (nothing z (negsuc 0) []) w r.1 (left z d e t.rest)))
        ]

    -- A message of one frame is refused, and its title is handed out all the same.
    recv_message-single :
        (s : Socket) (w : World) (title : Bytes) (q : List Frame)
        → (view w).inbox s ≡ (title, false) ∷ q
        → let r = recv_message z read s w in
          Returns z d s q (nothing z (negsuc 0) title) w r
          ⊎ Returns z d s ((title, false) ∷ q) (nothing z (negsuc 0) []) w r
    unfolding recv_message
    recv_message-single s w title q e =
        let r : ℤ × World = receive z s w in
        elim (receive-frame z d s w title false q e) [
          | inl t ↦ inl (
              rw (t.size, recv_message, t.follows, title-Took z d t)
                (Returns-finish z d s q (nothing z (negsuc 0) title) w r.1 t.rest))
          | inr t ↦ inr (
              rw (t.failed, recv_message, t.is_again)
                (Returns-finish z d s _ (nothing z (negsuc 0) []) w r.1 (left z d e t.rest)))
        ]

    -- A title whose content is missing; the transport delivers messages whole, so none is met.
    recv_content-nil :
        (s : Socket) (title : Bytes) (w : World)
        → (view w).inbox s ≡ []
        → (n : ℕ) × Returns z d s [] (nothing z (negsuc n) title) w (recv_content z read s title w)
    unfolding recv_content
    recv_content-nil s title w e = elim (receive-nil z d s w e) [
      | inl t ↦ missed t
      | inr t ↦ missed t
    ]
      where
        missed :
            {again : Bool}
            → Missed z d s again w (receive z s w)
            → (n : ℕ) × Returns z d s []
                (nothing z (negsuc n) title)
                w
                (recv_content z read s title w)
        missed t = (
          t.code,
          rw (t.failed, recv_content)
              (Returns-finish z d s _ (nothing z (negsuc t.code) title) w (receive z s w).1
                (left z d e t.rest)),
        )

    recv_message-cut :
        (s : Socket) (w : World) (title : Bytes)
        → (view w).inbox s ≡ (title, true) ∷ []
        → let r = recv_message z read s w in
          Returns z d s ((title, true) ∷ []) (nothing z (negsuc 0) []) w r
          ⊎ ((n : ℕ) × Returns z d s [] (nothing z (negsuc n) title) w r)
    unfolding recv_message
    recv_message-cut s w title e =
        let r : ℤ × World = receive z s w in
        elim (receive-frame z d s w title true [] e) [
          | inl t ↦
              let after = closed-Took z d t in
              let (n, h) = recv_content-nil s title (z.msg_close r.1).1 after.waiting in
              inr (
                n,
                rw (t.size, recv_message, t.follows, title-Took z d t) (Returns-after z d after h),
              )
          | inr t ↦ inl (
              rw (t.failed, recv_message, t.is_again)
                (Returns-finish z d s _ (nothing z (negsuc 0) []) w r.1 (left z d e t.rest)))
        ]

  -- What is returned, and left waiting, for the frames that wait.
  abbrev pub Receipt : Socket → List Frame → World → Received × World → Type 0
  Receipt s [] w r =
      Returns z d s [] (nothing z (pos 0) []) w r ⊎ Returns z d s [] (nothing z (negsuc 0) []) w r
  Receipt s ((title, false) ∷ q) w r =
      Returns z d s q (nothing z (negsuc 0) title) w r
      ⊎ Returns z d s ((title, false) ∷ q) (nothing z (negsuc 0) []) w r
  Receipt s ((title, true) ∷ []) w r =
      Returns z d s ((title, true) ∷ []) (nothing z (negsuc 0) []) w r
      ⊎ ((n : ℕ) × Returns z d s [] (nothing z (negsuc n) title) w r)
  Receipt s ((title, true) ∷ (c, m) ∷ q) w r =
      Returns z d s q (whole title c) w r
      ⊎ Returns z d s ((title, true) ∷ (c, m) ∷ q) (nothing z (negsuc 0) []) w r
      ⊎ ((n : ℕ) × Returns z d s ((c, m) ∷ q) (nothing z (negsuc n) title) w r)

  recv_message-Receipt :
      (read : ℕ → World → Bytes) (reads : Reads read) (s : Socket) (w : World) (fs : List Frame)
      → (view w).inbox s ≡ fs
      → Receipt s fs w (recv_message z read s w)
  recv_message-Receipt read reads s w [] e = recv_message-nil read reads s w e
  recv_message-Receipt read reads s w ((title, false) ∷ q) e =
      recv_message-single read reads s w title q e
  recv_message-Receipt read reads s w ((title, true) ∷ []) e =
      recv_message-cut read reads s w title e
  recv_message-Receipt read reads s w ((title, true) ∷ (c, m) ∷ q) e =
      recv_message-pair read reads s w title c m q e

  -- RecvEventEntity, whatever waits. A title and a content are returned whole with the content's
  -- length and are taken from the queue; nothing waiting gives 0 or -1 and two empty texts; a
  -- message of one frame is dropped, with -1 and its title handed out; a failure at the title gives -1,
  -- empty texts and the queue as it was, and one at the content a negative number and the title.
  -- On every way out the message is closed, and other sockets are as before.
  pub recv_event_entity-Receipt :
      (s : Socket) (w : World) → Receipt s ((view w).inbox s) w (recv_event_entity z s w)
  unfolding recv_event_entity
  recv_event_entity-Receipt s w = recv_message-Receipt z.msg_data d.data_view s w _ refl

  -- RecvMsgString, whatever waits, returns and leaves behind what RecvEventEntity does, though
  -- it takes the content's length from zmq_msg_size.
  pub recv_msg_string-Receipt :
      (s : Socket) (w : World) → Receipt s ((view w).inbox s) w (recv_msg_string z s w)
  unfolding recv_msg_string
  recv_msg_string-Receipt s w =
      recv_message-Receipt (λ n u. z.msg_data (z.msg_size u) u)
        (λ u. rw (d.size_view u) (d.data_view u)) s w _ refl
