-- ===== src/Tests/Path.antt =====
-- The whole way of an event, and sequences of registrations, at one client with one target.
use event_bus_cpp.Prelude.{
  ℕ, true, false, List, [], ◌∷◌, ◌≡◌, ◌⊎◌, refl, ap, arith, if◌then◌else◌, ◌==◌,
}
use event_bus_cpp.Prelude.Int.{ℤ, pos, is_negative}
use event_bus_cpp.Keys.{EventType, EventContent, type_order, compare_types}
use event_bus_cpp.Zmq.{Frame}
use event_bus_cpp.Multimap.{observers, empty, empty-IsWellFormed, find_rest, insert}
use event_bus_cpp.MZmq.Send.{send_event_entity, send_data, send_frame, close_with}
use event_bus_cpp.MZmq.Recv.{recv_event_entity}
use event_bus_cpp.EventClient.Defs.{
  Local, done, register_observer, publish_event, poll, handle_event, unregister_observer, find_pair,
}
use event_bus_cpp.EventClient.Walk.{deliver_all}
use event_bus_cpp.EventClient.Registry.{observers_of}
use event_bus_cpp.EventClient.Filters.{Mirrors, count}
use event_bus_cpp.EventClient.Path.{Carried, first_bytes, passes, handle_event-register_observer}
use event_bus_cpp.EventClient.Refines.{
  observe, forget, run, occurrences, observes, run-empty_refines, replay,
}
use event_bus_cpp.EventClient.Gate.{answered, some_prefix, passes-run}
use event_bus_cpp.Tests.Transport.{transport, transport-Documented, idle}

abbrev go : EventType
go = 103 ∷ 111 ∷ []

-- The application is the list of the targets that were called.
abbrev App : Type 0
App = List ℕ

abbrev logs :
    ℕ → EventType → EventContent → Local (transport false) App → ℤ × Local (transport false) App
logs t type content l = (pos 0, record l { app = t ∷ l.app })

abbrev fresh : Local (transport false) App
fresh = record {
  client = record { event_object_map = empty; sub_socket = 1; pub_socket = 2; pollin = false };
  world = idle;
  app = [];
}

fresh-Mirrors : Mirrors (transport false) (transport-Documented false) App fresh
unfolding empty observers transport-Documented count
fresh-Mirrors k = refl

-- The target 10 registers for "go".
abbrev registered : Local (transport false) App
registered = (register_observer (transport false) App go 10 fresh).1

abbrev publisher : Local (transport false) App
publisher = record {
  client = record { event_object_map = empty; sub_socket = 3; pub_socket = 2; pollin = false };
  world = registered.world;
  app = [];
}

abbrev frames : List Frame
frames = (go, true) ∷ (7 ∷ [], false) ∷ []

abbrev reached : Local (transport false) App
reached = record registered {
  world = record registered.world { inbox = λ s. if s == 1 then frames else [] };
}

carried :
    Carried
      (transport false)
      (transport-Documented false)
      App
      App
      logs
      (λ t type content l. refl)
      2
      1
      publisher.world
      (publish_event (transport false) App go (7 ∷ []) publisher).world
      (poll (transport false) App reached).world
unfolding transport-Documented register_observer find_rest empty publish_event poll
    send_event_entity send_data send_frame close_with compare_types
carried fs e = ap (λ (fs : List Frame). if passes (go ∷ []) (first_bytes fs) then fs else []) e

handle_event-register_observer_example :
    let l' = poll (transport false) App reached in
    let r = recv_event_entity (transport false) 1 l'.world in
    (handle_event (transport false) App logs 4 reached
      ≡ done (
          deliver_all (transport false) App logs (10 ∷ []) go (7 ∷ []) (record l' { world = r.1 })))
    ⊎ (is_negative r.0.rc ≡ true)
unfolding transport-Documented register_observer find_rest empty publish_event poll
    send_event_entity send_data send_frame close_with observers insert
handle_event-register_observer_example =
    handle_event-register_observer (transport false) (transport-Documented false) App App logs
      (λ t type content l. refl) 4 go (7 ∷ []) 10 fresh reached publisher empty-IsWellFormed
      fresh-Mirrors refl refl (omega arith) refl refl refl carried refl

-- 10 registers, 11 registers, 10 takes its registration back.
run-empty_refines_example :
    occurrences 11 (
      observers_of
        (transport false)
        App
        go
        (run (transport false) App (observe go 10 ∷ observe go 11 ∷ forget go 10 ∷ []) fresh))
    ≡ 1
unfolding observes compare_types
run-empty_refines_example =
    run-empty_refines (transport false) App (observe go 10 ∷ observe go 11 ∷ forget go 10 ∷ [])
      fresh go 11 refl

-- "go" is observed, so "gone" comes in, too.
passes-run_example :
    passes
      ((run (transport false) App (observe go 10 ∷ forget go 11 ∷ []) fresh).world.filters
        (run (transport false) App (observe go 10 ∷ forget go 11 ∷ []) fresh).client.sub_socket)
      (103 ∷ 111 ∷ 110 ∷ 101 ∷ [])
    ≡ true
unfolding transport-Documented answered run register_observer unregister_observer find_rest empty
    insert find_pair some_prefix replay compare_types
passes-run_example =
    passes-run (transport false) (transport-Documented false) App
      (observe go 10 ∷ forget go 11 ∷ []) fresh (103 ∷ 111 ∷ 110 ∷ 101 ∷ []) refl refl refl
