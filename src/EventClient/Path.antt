-- ===== src/EventClient/Path.antt =====
-- The whole way of an event: register_observer at one client, publish_event at another, the proxy
-- between them, and handle_event.
use event_bus_cpp.Prelude.{
  ℕ, Bool, true, false, List, [], ◌∷◌, ◌++◌, ◌≡◌, ◌⊎◌, inl, inr, refl, sym, ap, subst, ◌∙◌, ◌<◌,
  arith, length, if◌then◌else◌, ◌==◌, ◌&&◌, if-true,
}
use mathlib.Core.List.{append_cancel_left, append-nil}
use event_bus_cpp.Prelude.Int.{ℤ, is_negative}
use event_bus_cpp.Keys.{
  EventType, EventContent, type_order, compare_types_refl, eq_of_compare_types, is_eq,
}
use event_bus_cpp.Zmq.{Zmq, Documented, Frame, Bytes, Socket}
use event_bus_cpp.Multimap.{observers, IsWellFormed}
use event_bus_cpp.MZmq.Send.{send_event_entity}
use event_bus_cpp.MZmq.Sent.{contents, send_event_entity-TwoFrames}
use event_bus_cpp.MZmq.Recv.{recv_event_entity}
use event_bus_cpp.MZmq.Roundtrip.{Arrives}
use event_bus_cpp.EventClient.Defs.{
  Client, Local, done, data_pointer, publish_event, poll, handle_event, register_observer,
}
use event_bus_cpp.EventClient.Walk.{deliver_all}
use event_bus_cpp.EventClient.Delivery.{KeepsMap}
use event_bus_cpp.EventClient.Registry.{
  add, map_of, observers_of, register_observer-observers, register_observer-IsWellFormed,
}
use event_bus_cpp.EventClient.Filters.{
  count, wanted, wanted-add, Mirrors, register_observer-Mirrors,
}
use event_bus_cpp.EventClient.Bus.{handle_event-publish_event}

-- A filter lets through the messages that begin with it.
abbrev pub begins_with : Bytes → Bytes → Bool
begins_with title [] = true
begins_with [] (f ∷ fs) = false
begins_with (t ∷ ts) (f ∷ fs) = (t == f) && begins_with ts fs

abbrev pub passes : List Bytes → Bytes → Bool
passes [] title = false
passes (f ∷ fs) title = if begins_with title f then true else passes fs title

abbrev pub first_bytes : List Frame → Bytes
first_bytes [] = []
first_bytes (f ∷ fs) = f.0

begins_with_refl : (b : Bytes) → begins_with b b ≡ true
begins_with_refl [] = refl
begins_with_refl (x ∷ b) = ground (arith, begins_with_refl b)

count-passes : (k : EventType) (fs : List Bytes) → count k fs ≡ 1 → passes fs k ≡ true
unfolding count
count-passes k [] h = absurd (omega arith)
count-passes k (f ∷ fs) h =
    ground (arith, count-passes k fs, eq_of_compare_types f k, begins_with_refl k)

module _ (z : Zmq) (d : Documented z) (App App' : Type 0)
    (event_handle : ℕ → EventType → EventContent → Local z App → ℤ × Local z App)
    (keeps : KeepsMap z App event_handle) where
  open z use {World}
  open d use {view}

  -- The proxy has carried the message that a call queued at `p`, from `w` to `sent`, on to the SUB socket
  -- `s`, where it waits in `w'` if a filter that the socket had lets it through.
  abbrev pub Carried : Socket → Socket → World → World → World → Type 0
  Carried p s w sent w' =
      (fs : List Frame)
      → (view sent).outbox p ≡ (view w).outbox p ++ fs
      → (view w').inbox s
        ≡ (view w).inbox s ++ (if passes ((view w).filters s) (first_bytes fs) then fs else [])

  queued_lem :
      (p : Socket) (type : EventType) (content : EventContent) (w : World)
      → let r = send_event_entity z p type (data_pointer z App' content) w in
        is_negative r.0 ≡ false
        → (fs : List Frame) → (view r.1).outbox p ≡ (view w).outbox p ++ fs
        → first_bytes fs ≡ type
  queued_lem p type content w ok fs e =
      elim (send_event_entity-TwoFrames z d p type (data_pointer z App' content) w) [
        | inl (sent, rc) ↦
            let queued : fs ≡ (type, true) ∷ (contents (data_pointer z App' content), false) ∷ [] =
              append_cancel_left ((view w).outbox p) fs _ (sym e ∙ sent.0.queued) in
            ap first_bytes queued
        | inr (inl (_, neg)) ↦ cc
        | inr (inr (_, neg)) ↦ cc
      ]

  filter_lem :
      (type : EventType) (object : ℕ) (l : Local z App)
      → IsWellFormed (map_of z App l)
      → Mirrors z d App l
      → (register_observer z App type object l).0 ≡ true
      → let l1 = (register_observer z App type object l).1 in
        (passes ((view l1.world).filters l1.client.sub_socket) type ≡ true)
        × (observers_of z App type l1 ≡ add object (observers_of z App type l))
  filter_lem type object l v m ok =
      let row : observers_of z App type (register_observer z App type object l).1
          ≡ add object (observers_of z App type l) =
        register_observer-observers z App type type object l v
        ∙ if-true _ _ _ (ap is_eq (compare_types_refl type)) in
      (
        count-passes type _ (
            register_observer-Mirrors z d App type object l v m ok type
            ∙ ap wanted row
            ∙ wanted-add object _),
        row,
      )

  -- Let a target have registered for a type at a client with a well-formed map, whose filters were those of
  -- the observed types, and let the answer have been true. If then another client publishes an event
  -- of the type, while nothing waits for the first client and its filters are as they were, and
  -- ZeroMQ takes the event, the proxy carries it on and the poll sees it, then the first client, if
  -- it is as it was, hands the event by handle_event to the earlier observers of the type and then
  -- to the target, if it was not among them, with its type and its content; unless receiving it
  -- fails. The callbacks leave the map alone, and there is more fuel than the map has nodes.
  pub handle_event-register_observer :
      (fuel : ℕ) (type : EventType) (content : EventContent) (object : ℕ) (l0 l : Local z App)
      (p : Local z App')
      → IsWellFormed (map_of z App l0)
      → Mirrors z d App l0
      → (register_observer z App type object l0).0 ≡ true
      → l.client ≡ (register_observer z App type object l0).1.client
      → length (map_of z App l).nodes < fuel
      → (view p.world).filters l.client.sub_socket
        ≡ (view (register_observer z App type object l0).1.world).filters l.client.sub_socket
      → (view p.world).inbox l.client.sub_socket ≡ []
      → is_negative
          (send_event_entity z p.client.pub_socket type (data_pointer z App' content) p.world).0
        ≡ false
      → Carried p.client.pub_socket l.client.sub_socket p.world
          (publish_event z App' type content p).world
          (poll z App l).world
      → (poll z App l).client.pollin ≡ true
      → let l' = poll z App l in
        let r = recv_event_entity z l.client.sub_socket l'.world in
        (handle_event z App event_handle fuel l
          ≡ done (
              deliver_all z App event_handle
                (add object (observers_of z App type l0))
                type
                content
                (record l' { world = r.1 })))
        ⊎ (is_negative r.0.rc ≡ true)
  unfolding publish_event
  handle_event-register_observer fuel type content object l0 l p v m ok same h filters idle sent
        carried on =
      let l1 : Local z App = (register_observer z App type object l0).1 in
      let (open_for, row) = filter_lem type object l0 v m ok in
      let valid : IsWellFormed (map_of z App l) =
        subst (λ (c : Client). IsWellFormed c.event_object_map) (sym same)
          (register_observer-IsWellFormed z App type object l0 v) in
      let through : passes ((view p.world).filters l.client.sub_socket) type ≡ true =
        ap (λ fs. passes fs type)
          (filters ∙ ap (λ (c : Client). (view l1.world).filters c.sub_socket) same)
        ∙ open_for in
      let arrives : Arrives z d p.client.pub_socket l.client.sub_socket p.world
          (publish_event z App' type content p).world (poll z App l).world [] =
        λ fs e.
          carried fs e
          ∙ ap (λ (q : List Frame). q ++ waiting fs) idle
          ∙ if-true _ _ _ (
              ap (passes ((view p.world).filters l.client.sub_socket))
                (queued_lem p.client.pub_socket type content p.world sent fs e)
              ∙ through)
          ∙ sym (append-nil fs) in
      let rows : observers type (map_of z App l).nodes ≡ add object (observers_of z App type l0) =
        ap (λ (c : Client). observers type c.event_object_map.nodes) same ∙ row in
      elim (handle_event-publish_event z d App App' event_handle keeps fuel type content p l []
        valid h sent on arrives) [
          | inl run ↦ inl (
              subst
                (λ (row : List ℕ).
                  handle_event z App event_handle fuel l
                  ≡ done (
                      deliver_all z App event_handle row type content (record (poll z App l) {
                        world = (recv_event_entity z l.client.sub_socket (poll z App l).world).1;
                      })))
                rows run)
          | inr failed ↦ inr failed
        ]
    where
      waiting : List Frame → List Frame
      waiting fs =
          if passes ((view p.world).filters l.client.sub_socket) (first_bytes fs) then fs else []
