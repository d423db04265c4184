-- ===== src/EventClient/Delivery.antt =====
-- Which targets an event reaches: the loops over iterators against a plain list of targets.
use event_bus_cpp.Prelude.{
  ℕ, true, false, List, ◌++◌, length, ◌≡◌, ◌⊎◌, inl, inr, ◌<◌, refl, sym, ap, subst, ◌∙◌, arith,
  Bool-cases, if◌then◌else◌, if-true, if-false,
}
use event_bus_cpp.Prelude.Int.{ℤ}
use event_bus_cpp.Keys.{EventType, EventContent, type_order}
use event_bus_cpp.Multimap.{
  Multimap, Node, iter_of, targets, IsDistinct, IsWellFormed, observers, matches, length-matches-le,
  below, upper_rest, lower_rest, lower_rest-matches, below-lower_rest, targets-matches, IsSorted,
  lower_bound, upper_bound,
}
use event_bus_cpp.Zmq.{Zmq}
use event_bus_cpp.MZmq.Recv.{recv_event_entity}
use event_bus_cpp.EventClient.Walk.{deliver_all, deliver-segment}
use event_bus_cpp.EventClient.Defs.{Local, done, deliver, dispatch, poll, handle_event}

module _ (z : Zmq) (App : Type 0)
    (event_handle : ℕ → EventType → EventContent → Local z App → ℤ × Local z App) where
  -- No callback registers or unregisters anything at the client that calls it.
  abbrev pub KeepsMap : Type 0
  KeepsMap =
      (t : ℕ) (type : EventType) (content : EventContent) (l : Local z App)
      → (event_handle t type content l).1.client.event_object_map ≡ l.client.event_object_map

  poll_map : (l : Local z App) → (poll z App l).client.event_object_map ≡ l.client.event_object_map
  unfolding poll
  poll_map l = refl

  poll_socket : (l : Local z App) → (poll z App l).client.sub_socket ≡ l.client.sub_socket
  unfolding poll
  poll_socket l = refl

  module _ (keeps : KeepsMap) where
    -- A part of the map, while the callbacks leave the map alone.
    pub deliver-kept :
        (fuel : ℕ) (pre mid post : List (Node EventType)) (type : EventType)
        (content : EventContent) (l : Local z App)
        → length mid < fuel
        → l.client.event_object_map.nodes ≡ pre ++ (mid ++ post)
        → IsDistinct (pre ++ (mid ++ post))
        → deliver z App event_handle fuel (iter_of post) (iter_of (mid ++ post)) type content l
          ≡ done (deliver_all z App event_handle (targets mid) type content l)
    deliver-kept fuel pre mid post type content l h e d =
        deliver-segment z App event_handle type content l.client.event_object_map
          (λ t l' e'. keeps t type content l' ∙ e') fuel pre mid post l h refl e d

    pub split_nodes :
        (type : EventType) (ns : List (Node EventType))
        → IsSorted ns
        → ns ≡ below type ns ++ (matches type ns ++ upper_rest type ns)
    split_nodes type ns h =
        sym (below-lower_rest type ns) ∙ ap (◌++◌ (below type ns)) (lower_rest-matches type ns h)

    -- The range of equal_range in a well-formed map: it is delivered to the observers, in order.
    dispatch-observers :
        (fuel : ℕ) (type : EventType) (content : EventContent) (l : Local z App)
        → IsWellFormed l.client.event_object_map
        → length l.client.event_object_map.nodes < fuel
        → dispatch z App event_handle fuel type content l
          ≡ done (
              deliver_all z App event_handle
                (observers type l.client.event_object_map.nodes)
                type
                content
                l)
    unfolding dispatch lower_bound upper_bound
    dispatch-observers fuel type content l v h =
        rw (← targets-matches type ns, lower)
          (deliver-kept fuel (below type ns) (matches type ns) (upper_rest type ns) type content l
            (omega (arith, length-matches-le type ns)) parts (subst IsDistinct parts v.distinct))
      where
        ns : List (Node EventType)
        ns = l.client.event_object_map.nodes

        lower : lower_rest type ns ≡ matches type ns ++ upper_rest type ns
        lower = lower_rest-matches type ns v.sorted

        parts : ns ≡ below type ns ++ (matches type ns ++ upper_rest type ns)
        parts = split_nodes type ns v.sorted

    after_poll :
        (fuel : ℕ) (l' : Local z App)
        → IsWellFormed l'.client.event_object_map
        → length l'.client.event_object_map.nodes < fuel
        → let r = recv_event_entity z l'.client.sub_socket l'.world in
          let run =
            if l'.client.pollin
            then dispatch z App event_handle fuel r.0.title r.0.content (record l' { world = r.1 })
            else done l' in
          ((l'.client.pollin ≡ false) × (run ≡ done l'))
          ⊎ ((l'.client.pollin ≡ true)
              × (run
                  ≡ done (
                      deliver_all z App event_handle
                        (observers r.0.title l'.client.event_object_map.nodes)
                        r.0.title
                        r.0.content
                        (record l' { world = r.1 }))))
    after_poll fuel l' v h =
        let r = recv_event_entity z l'.client.sub_socket l'.world in
        let l'' : Local z App = record l' { world = r.1 } in
        elim (Bool-cases l'.client.pollin) [
          | inl on ↦ inr (
            on,
            if-true l'.client.pollin _ _ on ∙ dispatch-observers fuel r.0.title r.0.content l'' v h,
          )
          | inr off ↦ inl (off, if-false l'.client.pollin _ _ off)
        ]

    -- With a well-formed map, callbacks that leave it alone and more fuel than it has nodes:
    -- handle_event polls, which leaves the map and the socket alone, and does no more when no
    -- event is in the socket. With one it reads it, and calls exactly the observers of its
    -- title, in the order of their registration, each with the title and the content that were
    -- read.
    pub handle_event-observers :
        (fuel : ℕ) (l : Local z App)
        → IsWellFormed l.client.event_object_map
        → length l.client.event_object_map.nodes < fuel
        → let l' = poll z App l in
          let r = recv_event_entity z l'.client.sub_socket l'.world in
          let run = handle_event z App event_handle fuel l in
          (l'.client.event_object_map ≡ l.client.event_object_map)
          × (l'.client.sub_socket ≡ l.client.sub_socket)
          × (((l'.client.pollin ≡ false) × (run ≡ done l'))
              ⊎ ((l'.client.pollin ≡ true)
                  × (run
                      ≡ done (
                          deliver_all z App event_handle
                            (observers r.0.title l'.client.event_object_map.nodes)
                            r.0.title
                            r.0.content
                            (record l' { world = r.1 })))))
    unfolding handle_event
    handle_event-observers fuel l v h = (
      poll_map l,
      poll_socket l,
      after_poll fuel (poll z App l) (subst IsWellFormed (sym (poll_map l)) v)
          (subst (λ (m : Multimap EventType). length m.nodes < fuel) (sym (poll_map l)) h),
    )
