-- ===== src/Tests/Observers.antt =====
-- The results on observers and deliveries, at a client with three registrations.
use event_bus_cpp.Prelude.{
  ℕ, Bool, true, false, List, [], ◌∷◌, ◌≡◌, ◌≢◌, ◌⊎◌, refl, arith, ◌++◌, sym, ◌∙◌,
}
use event_bus_cpp.Prelude.Int.{ℤ, pos, is_negative}
use event_bus_cpp.Keys.{EventType, EventContent, type_order, compare_types}
use event_bus_cpp.Zmq.{View}
use event_bus_cpp.Multimap.{
  Multimap, observers, IsWellFormed, empty, upper_rest, targets, find, same_iter, deref, next,
}
use mathlib.Core.List.{append-nil}
use event_bus_cpp.MZmq.Send.{send_event_entity, send_data, send_frame, close_with}
use event_bus_cpp.MZmq.Roundtrip.{Arrives}
use event_bus_cpp.MZmq.Recv.{recv_event_entity}
use event_bus_cpp.EventClient.Defs.{
  Local, done, fault, unregister_observer, dispatch, publish_loc_event, handle_event, publish_event,
  poll, deliver,
}
use event_bus_cpp.EventClient.Walk.{deliver_all}
use event_bus_cpp.EventClient.Delivery.{handle_event-observers}
use event_bus_cpp.EventClient.Locally.{publish_loc_event_reaches}
use event_bus_cpp.EventClient.Registry.{map_of, observers_of}
use event_bus_cpp.EventClient.Reentry.{dispatch-Unregisters}
use event_bus_cpp.EventClient.Refines.{observe, forget, run, replay, run_refines}
use event_bus_cpp.EventClient.Bus.{handle_event-publish_event}
use event_bus_cpp.Tests.Transport.{transport, transport-Documented, idle, waiting}

-- Targets 10 and 11 observe "go"; 12 observes "gp", which comes behind it.
abbrev pub go : EventType
go = 103 ∷ 111 ∷ []

abbrev gp : EventType
gp = 103 ∷ 112 ∷ []

abbrev three : Multimap EventType
three = record {
  nodes =
      record { id = 0; key = go; target = 10 }
      ∷ record { id = 2; key = go; target = 11 }
      ∷ record { id = 1; key = gp; target = 12 }
      ∷ [];
  next_id = 3;
}

-- The application is the log of the deliveries.
abbrev pub Log : Type 0
Log = List (ℕ × EventType × EventContent)

abbrev pub local : (refuse : Bool) → Multimap EventType → View → Local (transport refuse) Log
local refuse m w = record {
  client = record { event_object_map = m; sub_socket = 1; pub_socket = 2; pollin = false };
  world = w;
  app = [];
}

three-IsWellFormed : IsWellFormed three
unfolding compare_types
three-IsWellFormed = record {
  sorted = ((λ e. cc, (λ e. cc, tt)), ((λ e. cc, tt), (tt, tt)));
  distinct = omega arith;
  older = omega arith;
}

-- Each target logs what it is called with.
abbrev logs :
    ℕ → EventType → EventContent → Local (transport false) Log → ℤ × Local (transport false) Log
logs t type content l = (pos 0, record l { app = l.app ++ (t, type, content) ∷ [] })

publish_loc_event_example :
    ((observers go three.nodes ≡ [])
      × (publish_loc_event (transport false) Log logs 4 go [] (local false three idle)
          ≡ done (local false three idle)))
    ⊎ ((observers go three.nodes ≢ [])
        × (publish_loc_event (transport false) Log logs 4 go [] (local false three idle)
            ≡ done (
                deliver_all
                  (transport false)
                  Log
                  logs
                  (observers go three.nodes ++ targets (upper_rest go three.nodes))
                  go
                  []
                  (local false three idle))))
publish_loc_event_example =
    publish_loc_event_reaches (transport false) Log logs (λ t type content l. refl) 4 go []
      (local false three idle) three-IsWellFormed (omega arith)

-- So target 12, which observes only "gp", gets "go".
publish_loc_event_overshoots :
    publish_loc_event (transport false) Log logs 4 go [] (local false three idle)
    ≡ done
        (record (local false three idle) { app = (10, go, []) ∷ (11, go, []) ∷ (12, go, []) ∷ [] })
unfolding publish_loc_event deliver find same_iter deref next compare_types
publish_loc_event_overshoots = refl

-- A callback that takes its own registration back.
abbrev quits :
    ℕ → EventType → EventContent → Local (transport false) Log → ℤ × Local (transport false) Log
quits t type content l = (pos 0, (unregister_observer (transport false) Log type t l).1)

dispatch-Unregisters_example :
    dispatch (transport false) Log quits 4 go [] (local false three idle) ≡ fault
unfolding observers compare_types
dispatch-Unregisters_example =
    dispatch-Unregisters (transport false) Log quits (λ t type content l. refl) 3 go []
      (local false three idle) three-IsWellFormed (λ e. cc)

abbrev polled : Local (transport false) Log
polled = local false three waiting

handle_event-observers_example :
    let l' = poll (transport false) Log polled in
    let r = recv_event_entity (transport false) 1 l'.world in
    let run = handle_event (transport false) Log logs 4 polled in
    (l'.client.event_object_map ≡ three)
    × (l'.client.sub_socket ≡ 1)
    × (((l'.client.pollin ≡ false) × (run ≡ done l'))
        ⊎ ((l'.client.pollin ≡ true)
            × (run
                ≡ done (
                    deliver_all
                      (transport false)
                      Log
                      logs
                      (observers r.0.title l'.client.event_object_map.nodes)
                      r.0.title
                      r.0.content
                      (record l' { world = r.1 })))))
unfolding poll
handle_event-observers_example =
    handle_event-observers (transport false) Log logs (λ t type content l. refl) 4 polled
      three-IsWellFormed (omega arith)

arrival :
    Arrives
      (transport false)
      (transport-Documented false)
      2
      1
      idle
      (publish_event (transport false) Log go (7 ∷ 8 ∷ []) (local false empty idle)).world
      (poll (transport false) Log polled).world
      []
unfolding transport-Documented publish_event poll send_event_entity send_data send_frame close_with
arrival fs e = e ∙ sym (append-nil fs)

handle_event-publish_event_example :
    let l' = poll (transport false) Log polled in
    let r = recv_event_entity (transport false) 1 l'.world in
    (handle_event (transport false) Log logs 4 polled
      ≡ done (
          deliver_all
            (transport false)
            Log
            logs
            (observers go three.nodes)
            go
            (7 ∷ 8 ∷ [])
            (record l' { world = r.1 })))
    ⊎ (is_negative r.0.rc ≡ true)
unfolding send_event_entity send_data send_frame close_with poll
handle_event-publish_event_example =
    handle_event-publish_event (transport false) (transport-Documented false) Log Log logs
      (λ t type content l. refl) 4 go (7 ∷ 8 ∷ []) (local false empty idle) polled []
      three-IsWellFormed (omega arith) refl refl arrival

-- 10 leaves "go", and then registers for "gp".
run_refines_example :
    IsWellFormed (
      map_of
        (transport false)
        Log
        (run (transport false) Log (forget go 10 ∷ observe gp 10 ∷ []) (local false three idle)))
    × ((k : EventType)
        → observers_of
            (transport false)
            Log
            k
            (run (transport false) Log (forget go 10 ∷ observe gp 10 ∷ []) (local false three idle))
          ≡ replay
              (forget go 10 ∷ observe gp 10 ∷ [])
              k
              (observers_of (transport false) Log k (local false three idle)))
run_refines_example =
    run_refines (transport false) Log (forget go 10 ∷ observe gp 10 ∷ []) (local false three idle)
      three-IsWellFormed
