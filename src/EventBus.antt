-- ===== src/EventBus.antt =====
-- EventBus.h and EventBus.cpp: the two sockets that all clients connect to, and the thread that passes
-- the events on between them.
pub mod Sockets
use event_bus_cpp.Prelude.{ℕ, Option, none, some, if◌then◌else◌}
use event_bus_cpp.Zmq.{Zmq, Socket, SocketKind, xpub, xsub, Bytes}
use event_bus_cpp.StdThread.{ThreadObject, start, detach, get_id}
use event_bus_cpp.EventClient.Defs.{is_zero}
use event_bus_cpp.EventClient.Lifecycle.{Endpoints}

pub record EventBus : Type 0 where
  pub xpub_socket : Socket
  pub xsub_socket : Socket
  pub self_thread : Option ThreadObject
  pub this_id : Option ℕ

-- EventBus::begin, when the system starts the thread `id`: the id is asked for after detach(). The test
-- for NULL is left out, since new does not return it.
unfoldable pub begin : ℕ → EventBus → EventBus
begin id bus =
    let object = detach (start id) in
    record bus { self_thread = some object; this_id = get_id object }

module _ (z : Zmq) (ends : Endpoints) where
  open z use {World}
  open ends use {xsub_addr_port, xpub_addr_port}

  -- A socket of the kind, bound to the address; `none` where an assertion fails.
  unfoldable pub bind_socket : SocketKind → Bytes → World → Option (Socket × World)
  bind_socket kind addr w =
      let r = z.socket kind w in
      elim r.0 [
        | none ↦ none
        | some s ↦ let b = z.bind s addr r.1 in if is_zero b.0 then some (s, b.1) else none
      ]

  -- EventBus::EventBus
  unfoldable pub construct : World → Option (EventBus × World)
  construct w = elim (bind_socket xpub xpub_addr_port w) [
    | none ↦ none
    | some (p, w') ↦ elim (bind_socket xsub xsub_addr_port w') [
      | none ↦ none
      | some (s, w'') ↦
          some
            (record { xpub_socket = p; xsub_socket = s; self_thread = none; this_id = none }, w'')
    ]
  ]

-- `proxy` is zmq_proxy, which returns when the context is closed, and `ctx_destroy` zmq_ctx_destroy.
module _ (z : Zmq) (ends : Endpoints) (proxy : Socket → Socket → z.World → z.World)
    (ctx_destroy : z.World → z.World) where
  open z use {World}
  open ends use {xsub_addr_port, xpub_addr_port}

  -- EventBus::run; `none` is a null argument.
  unfoldable pub run : Option EventBus → World → World
  run none w = w
  run (some bus) w = proxy bus.xsub_socket bus.xpub_socket w

  -- EventBus::~EventBus
  unfoldable pub destruct : EventBus → World → World
  destruct bus w =
      let w1 = (z.disconnect bus.xpub_socket xpub_addr_port w).1 in
      let w2 = (z.close bus.xpub_socket w1).1 in
      let w3 = (z.disconnect bus.xsub_socket xsub_addr_port w2).1 in
      ctx_destroy (z.close bus.xsub_socket w3).1
