-- ===== src/EventClient/Defs.antt =====
-- EventClient: its observers, what it does with them, and the two sockets it talks through.
use event_bus_cpp.Prelude.{
  ℕ, zero, suc, Bool, true, false, Option, none, some, List, [], ◌∷◌, ◌==◌, if◌then◌else◌, ◌&&◌,
}
use event_bus_cpp.Prelude.Int.{ℤ, pos, negsuc}
use event_bus_cpp.Keys.{EventType, EventContent, type_order, compare_types, is_eq}
use event_bus_cpp.Multimap.{
  Multimap, Node, Iter, past_end, find_rest, find, insert, erase, lower_bound, upper_bound, deref,
  next, same_iter,
}
use event_bus_cpp.Zmq.{Zmq, Socket, Bytes}
use event_bus_cpp.MZmq.Send.{send_event_entity}
use event_bus_cpp.MZmq.Recv.{recv_event_entity}

-- The members of the class; an EventTarget is known by its address. `pollin` is whether
-- sub_items.revents has ZMQ_POLLIN.
pub record Client : Type 0 where
  pub event_object_map : Multimap EventType
  pub sub_socket : Socket
  pub pub_socket : Socket
  pub pollin : Bool

-- What one thread's code can reach: its client, ZeroMQ, and the state of its own objects.
pub record Local (z : Zmq) (App : Type 0) : Type 0 where
  pub client : Client
  pub world : z.World
  pub app : App

-- How a loop over iterators ends. Following an iterator to a node that is gone, or past the end, has
-- no defined behaviour.
pub data Outcome (A : Type 0) : Type 0 where
  done : A → Outcome A
  fault : Outcome A
  out_of_fuel : Outcome A

-- rc == 0
abbrev pub is_zero : ℤ → Bool
is_zero (pos n) = n == 0
is_zero (negsuc n) = false

-- Whether `type.compare(it->first) == 0 && it->second == &object`.
abbrev pub is_pair : EventType → ℕ → Node EventType → Bool
is_pair type object n = is_eq (compare_types n.key type) && (n.target == object)

-- The loop of register_observer, which runs from the first node of the type to the end of the map.
unfoldable pub is_registered : EventType → ℕ → List (Node EventType) → Bool
is_registered type object [] = false
is_registered type object (n ∷ ns) =
    let rest = is_registered type object ns in if is_pair type object n then true else rest

-- The loop of unregister_observer up to the node that it erases.
unfoldable pub find_pair : EventType → ℕ → List (Node EventType) → Option ℕ
find_pair type object [] = none
find_pair type object (n ∷ ns) =
    let rest = find_pair type object ns in if is_pair type object n then some n.id else rest

module _ (z : Zmq) (App : Type 0) where
  abbrev pub with_map : Multimap EventType → Local z App → Local z App
  with_map m l = record l { client = record l.client { event_object_map = m } }

  -- The branch of register_observer for a type that has observers.
  unfoldable pub register_next :
      EventType → ℕ → List (Node EventType) → Local z App → Bool × Local z App
  unfolding is_registered
  register_next type object rest l =
      if is_registered type object rest
      then (true, l)
      else (true, with_map (insert type object l.client.event_object_map) l)

  -- And for one that has none: only now is the filter set.
  unfoldable pub register_first : EventType → ℕ → Local z App → Bool × Local z App
  register_first type object l =
      let l' = with_map (insert type object l.client.event_object_map) l in
      let r = z.set_subscribe l.client.sub_socket type l.world in
      (is_zero r.0, record l' { world = r.1 })

  unfoldable pub register_observer : EventType → ℕ → Local z App → Bool × Local z App
  unfolding register_next register_first
  register_observer type object l = elim (find_rest type l.client.event_object_map.nodes) [
    | [] ↦ register_first type object l
    | n ∷ ns ↦ register_next type object (n ∷ ns) l
  ]

  -- After the erasure: the filter goes with the last observer of the type.
  unfoldable pub release_filter : EventType → Local z App → Bool × Local z App
  release_filter type l =
      let r = z.set_unsubscribe l.client.sub_socket type l.world in
      if same_iter (find type l.client.event_object_map) past_end
      then (is_zero r.0, record l { world = r.1 })
      else (true, l)

  unfoldable pub unregister_observer : EventType → ℕ → Local z App → Bool × Local z App
  unfolding release_filter find_pair
  unregister_observer type object l = elim (find_pair type object l.client.event_object_map.nodes) [
    | none ↦ (true, l)
    | some id ↦ release_filter type (with_map (erase id l.client.event_object_map) l)
  ]

  -- The pointer that publish_event hands on: null for an empty content.
  abbrev pub data_pointer : EventContent → Option Bytes
  data_pointer [] = none
  data_pointer (c ∷ cs) = some (c ∷ cs)

  -- publish_event; the code of SendEventEntity is dropped.
  unfoldable pub publish_event : EventType → EventContent → Local z App → Local z App
  publish_event type content l = record l {
    world = (send_event_entity z l.client.pub_socket type (data_pointer content) l.world).1;
  }

  -- zmq_poll for 20 ms on the SUB socket.
  unfoldable pub poll : Local z App → Local z App
  poll l =
      let r = z.poll_in l.client.sub_socket 20 l.world in
      let flag : Bool = elim r.0 [ none ↦ l.client.pollin | some b ↦ b ] in
      record l { client = record l.client { pollin = flag }; world = r.1 }

  -- The callbacks, by the target's address: EventTarget::event_handle and what overrides it.
  module _ (event_handle : ℕ → EventType → EventContent → Local z App → ℤ × Local z App) where
    -- `for (it = ...; it != stop; ++it) it->second->event_handle(type, content)`. The callbacks may
    -- change the map, so the iterator is followed in the map as they leave it.
    unfoldable pub deliver :
        ℕ → Iter → Iter → EventType → EventContent → Local z App → Outcome (Local z App)
    deliver zero stop it type content l = out_of_fuel
    deliver (suc fuel) stop it type content l = elim (same_iter it stop) [
      | true ↦ done l
      | false ↦ elim (deref it l.client.event_object_map) [
        | none ↦ fault
        | some n ↦
            let l' = (event_handle n.target type content l).1 in
            elim (next it l'.client.event_object_map) [
              | none ↦ fault
              | some it' ↦ deliver fuel stop it' type content l'
            ]
      ]
    ]

    unfoldable pub publish_loc_event :
        ℕ → EventType → EventContent → Local z App → Outcome (Local z App)
    publish_loc_event fuel type content l =
        deliver fuel past_end (find type l.client.event_object_map) type content l

    -- What is done with the event that RecvEventEntity has read; its code is dropped.
    unfoldable pub dispatch : ℕ → EventType → EventContent → Local z App → Outcome (Local z App)
    dispatch fuel title content l =
        let m = l.client.event_object_map in
        deliver fuel (upper_bound title m) (lower_bound title m) title content l

    unfoldable pub handle_event : ℕ → Local z App → Outcome (Local z App)
    handle_event fuel l =
        let l' = poll l in
        let r = recv_event_entity z l'.client.sub_socket l'.world in
        if l'.client.pollin
        then dispatch fuel r.0.title r.0.content (record l' { world = r.1 })
        else done l'
