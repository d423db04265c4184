-- ===== src/EventClient/Bus.antt =====
-- From publish_event at one client to the callbacks at another.
use event_bus_cpp.Prelude.{
  ℕ, true, false, List, [], ◌∷◌, ◌≡◌, ◌⊎◌, inl, inr, sym, ◌∙◌, refl, ap, ◌<◌, length,
}
use event_bus_cpp.Prelude.Int.{ℤ, is_negative}
use event_bus_cpp.Keys.{EventType, EventContent, type_order}
use event_bus_cpp.Zmq.{Zmq, Documented, Frame}
use event_bus_cpp.Multimap.{observers, IsWellFormed}
use event_bus_cpp.MZmq.Send.{send_event_entity}
use event_bus_cpp.MZmq.Sent.{contents}
use event_bus_cpp.MZmq.Recv.{Received, whole, recv_event_entity}
use event_bus_cpp.MZmq.Roundtrip.{Arrives, send_event_entity-recv_event_entity}
use event_bus_cpp.EventClient.Defs.{
  Local, Outcome, done, data_pointer, publish_event, poll, handle_event,
}
use event_bus_cpp.EventClient.Walk.{deliver_all}
use event_bus_cpp.EventClient.Delivery.{KeepsMap, handle_event-observers}

module _ (z : Zmq) (d : Documented z) (App App' : Type 0)
    (event_handle : ℕ → EventType → EventContent → Local z App → ℤ × Local z App)
    (keeps : KeepsMap z App event_handle) where
  contents-data_pointer : (c : EventContent) → contents (data_pointer z App' c) ≡ c
  contents-data_pointer [] = refl
  contents-data_pointer (x ∷ xs) = refl

  true≢false : true ≡ false → ⊥
  true≢false h = cc

  -- An event that one client publishes, whose frames ZeroMQ takes and brings to the front at the
  -- SUB socket of another, where the poll sees them, is handed by the other's handle_event to
  -- exactly the observers of its type, in the order of their registration, with its type and its
  -- content; unless receiving it fails. The other's map is well formed, its callbacks leave the
  -- map alone, and there is more fuel than the map has nodes.
  pub handle_event-publish_event :
      (fuel : ℕ) (type : EventType) (content : EventContent) (p : Local z App') (l : Local z App)
      (q : List Frame)
      → IsWellFormed l.client.event_object_map
      → length l.client.event_object_map.nodes < fuel
      → is_negative
          (send_event_entity z p.client.pub_socket type (data_pointer z App' content) p.world).0
        ≡ false
      → (poll z App l).client.pollin ≡ true
      → Arrives z d p.client.pub_socket l.client.sub_socket p.world
          (publish_event z App' type content p).world
          (poll z App l).world
          q
      → let l' = poll z App l in
        let r = recv_event_entity z l.client.sub_socket l'.world in
        (handle_event z App event_handle fuel l
          ≡ done (
              deliver_all z App event_handle
                (observers type l.client.event_object_map.nodes)
                type
                content
                (record l' { world = r.1 })))
        ⊎ (is_negative r.0.rc ≡ true)
  unfolding publish_event poll
  handle_event-publish_event fuel type content p l q v h sent on arrives =
      elim (handle_event-observers z App event_handle keeps fuel l v h).2 [
        | inl (off, _) ↦ absurd (true≢false (sym on ∙ off))
        | inr (_, run) ↦
            elim (send_event_entity-recv_event_entity z d p.client.pub_socket l.client.sub_socket
              type (data_pointer z App' content) p.world l'.world q sent arrives) [
                | inl x ↦
                    inl (run ∙ ap handed (x.0 ∙ ap (whole type) (contents-data_pointer content)))
                | inr neg ↦ inr neg
              ]
      ]
    where
      l' : Local z App
      l' = poll z App l

      after : Local z App
      after = record l' { world = (recv_event_entity z l.client.sub_socket l'.world).1 }

      handed : Received → Outcome (Local z App)
      handed x = done (
          deliver_all z App event_handle (observers x.title l.client.event_object_map.nodes) x.title
            x.content after)
