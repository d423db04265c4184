-- ===== src/Tests/Sockets.antt =====
-- The sockets of the bus and of one client, made and taken down.
use event_bus_cpp.Prelude.{false, none, [], ◌∷◌, ◌≡◌, refl, arith, ℕ}
use event_bus_cpp.Multimap.{empty}
use event_bus_cpp.ClientCenter.{register_client}
use event_bus_cpp.Zmq.{View, sub_kind, pub_kind, xpub, xsub}
use event_bus_cpp.EventBus.{EventBus, bind_socket, construct}
use event_bus_cpp.EventBus.Sockets.{Standing, construct-construct}
use event_bus_cpp.EventClient.Defs.{Client}
use event_bus_cpp.EventClient.Lifecycle.{
  Endpoints, open_socket, construct as construct_client, destruct,
}
use event_bus_cpp.EventClient.Shut.{Same, destruct_disconnects}
use event_bus_cpp.Tests.Transport.{
  transport, transport-Documented, idle, with_bound, with_connected,
}

abbrev ends : Endpoints
ends = record { xsub_addr_port = 1 ∷ []; xpub_addr_port = 2 ∷ [] }

abbrev bus : EventBus
bus = record { xpub_socket = 3; xsub_socket = 4; self_thread = none; this_id = none }

abbrev client : Client
client = record { event_object_map = empty; sub_socket = 1; pub_socket = 2; pollin = false }

abbrev with_bus : View
with_bus = with_bound xsub (1 ∷ []) (with_bound xpub (2 ∷ []) idle)

abbrev with_client : View
with_client = with_connected pub_kind (1 ∷ []) (with_connected sub_kind (2 ∷ []) with_bus)

construct-construct_example :
    Standing xpub 3 ((2 ∷ []) ∷ []) [] with_client
    × Standing sub_kind 1 [] ((2 ∷ []) ∷ []) with_client
    × Standing xsub 4 ((1 ∷ []) ∷ []) [] with_client
    × Standing pub_kind 2 [] ((1 ∷ []) ∷ []) with_client
unfolding construct bind_socket construct_client open_socket register_client transport-Documented
construct-construct_example =
    construct-construct (transport false) (transport-Documented false) ends 6 60 [] ((6, 60) ∷ [])
      bus client idle with_bus with_client refl refl

destruct_disconnects_example :
    let v = destruct (transport false) ends client with_client in
    (w1 : View) × (e : ℕ) × (w1 ≡ record with_client { error = e })
    × (w1.connected 2 ≡ (1 ∷ []) ∷ [])
    × (destruct (transport false) ends client with_client
        ≡ ((transport false).close 1
            ((transport false).disconnect 1 (2 ∷ []) ((transport false).close 2 w1).1).1).1)
    × (v.kind 2 ≡ none)
    × (v.kind 1 ≡ none)
    × Same 3 with_client v
unfolding transport-Documented
destruct_disconnects_example =
    destruct_disconnects (transport false) (transport-Documented false) ends client 3 with_client
      (refl, refl, refl) (refl, refl, refl) (λ e. cc) (λ s u. refl) (omega arith) (omega arith)
