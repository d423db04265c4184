-- ===== src/MZmq/Parts.antt =====
-- What Send3PartStrings leaves in the socket.
use event_bus_cpp.Prelude.{
  true, false, List, [], ◌∷◌, ◌++◌, length, ◌≡◌, ◌⊎◌, inl, inr, arith, refl,
}
use event_bus_cpp.Prelude.Int.{ℤ, pos, is_negative}
use event_bus_cpp.Zmq.{Zmq, Documented, Frame, Socket, Bytes}
use event_bus_cpp.MZmq.Send.{send_frame, close_with, send_text, send_middle, send_3part_strings}
use event_bus_cpp.MZmq.Sent.{
  Emitted, Emitted-trans, Emitted-quiet, quiet_end, text_frame, send_frame_lem, Sends, Sends-close,
  send_text_lem,
}

-- The frame between, if its text is not empty.
abbrev pub middle_frames : Bytes → List Frame
middle_frames [] = []
middle_frames (c ∷ cs) = (c ∷ cs, true) ∷ []

module _ (z : Zmq) (d : Documented z) where
  open z use {World}
  open d use {view}

  send_middle_lem :
      (s : Socket) (text : Bytes) (rc : ℤ) (w : World)
      → is_negative rc ≡ false
      → let r = send_middle z s text rc w in
        ((is_negative r.0 ≡ false) × Emitted s (middle_frames text) (view w) (view r.1))
        ⊎ ((is_negative r.0 ≡ true) × Emitted s [] (view w) (view r.1))
  unfolding send_middle
  send_middle_lem s [] rc w h =
      inl (h, Emitted-quiet s (view w).message (view w).live (view w).error refl)
  send_middle_lem s (c ∷ cs) rc w h = elim (send_frame_lem z d s (c ∷ cs) true w) [
    | inl (rc', e) ↦ inl (ground arith, e)
    | inr (n, rc', e) ↦ inr (ground arith, e)
  ]

  -- Send3PartStrings queues the title, the middle text unless it is empty, and the last text; when it
  -- answers a negative number it has queued a proper part of these from the left.
  pub send_3part_strings_frames :
      (s : Socket) (title title1 text : Bytes) (w : World)
      → let r = send_3part_strings z s title title1 text w in
        (Sends z d s (((title, true) ∷ middle_frames title1) ++ (text_frame text, false) ∷ []) w r.1
          × (r.0 ≡ pos (length (text_frame text))))
        ⊎ (Sends z d s [] w r.1 × (is_negative r.0 ≡ true))
        ⊎ (Sends z d s ((title, true) ∷ []) w r.1 × (is_negative r.0 ≡ true))
        ⊎ (Sends z d s ((title, true) ∷ middle_frames title1) w r.1 × (is_negative r.0 ≡ true))
  unfolding send_3part_strings close_with
  send_3part_strings_frames s title title1 text w =
      let r1 : ℤ × World = send_frame z s title true w in
      let r2 : ℤ × World = send_middle z s title1 r1.0 r1.1 in
      let r3 : ℤ × World = send_text z s text r2.1 in
      elim (send_frame_lem z d s title true w) [
        | inr (n, rc, e) ↦ rw rc (inr (inl (Sends-close z d s [] w r1.1 e, refl)))
        | inl (rc, e) ↦
            let going : is_negative r1.0 ≡ false = ground arith in
            elim (send_middle_lem s title1 r1.0 r1.1 going) [
              | inr (neg, e') ↦
                  rw (going, neg)
                    (inr (inr (inl (Sends-close z d s _ w r2.1 (Emitted-trans e e'), neg))))
              | inl (ok, e') ↦
                  rw (going, ok)
                    (elim (send_text_lem z d s text r2.1) [
                      | inl (rc', e'') ↦ rw rc' (
                          inl (
                            Sends-close z d s _ w r3.1 (Emitted-trans (Emitted-trans e e') e''),
                            refl,
                          ))
                      | inr (n, rc', e'') ↦ rw rc' (
                          inr (
                            inr (
                              inr (
                                Sends-close z d s _ w r3.1 (quiet_end (Emitted-trans e e') e''),
                                refl,
                              ))))
                    ])
            ]
      ]
