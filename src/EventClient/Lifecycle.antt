-- ===== src/EventClient/Lifecycle.antt =====
-- The constructor and the destructor of EventClient.
use event_bus_cpp.Prelude.{ℕ, false, Option, none, some, if◌then◌else◌}
use event_bus_cpp.Multimap.{empty}
use event_bus_cpp.Zmq.{Zmq, Socket, SocketKind, sub_kind, pub_kind, Bytes}
use event_bus_cpp.EventClient.Defs.{Client, is_zero}
use event_bus_cpp.ClientCenter.{Pool, register_client}

-- EventBus::XSUB_ADDR_PORT and XPUB_ADDR_PORT; the addresses are used as names only.
pub record Endpoints : Type 0 where
  pub xsub_addr_port : Bytes
  pub xpub_addr_port : Bytes

module _ (z : Zmq) (ends : Endpoints) where
  open z use {World}
  open ends use {xsub_addr_port, xpub_addr_port}

  -- A socket of the kind, connected to the address; `none` where an assertion fails.
  unfoldable pub open_socket : SocketKind → Bytes → World → Option (Socket × World)
  open_socket kind addr w =
      let r = z.socket kind w in
      elim r.0 [
        | none ↦ none
        | some s ↦ let c = z.connect s addr r.1 in if is_zero c.0 then some (s, c.1) else none
      ]

  abbrev client : Socket → Socket → Client
  client sub pub_ = record {
    event_object_map = empty;
    sub_socket = sub;
    pub_socket = pub_;
    pollin = false;
  }

  -- EventClient::EventClient in the thread `id`, at the address `this`. A refusal by the client center
  -- is logged only.
  unfoldable pub construct : ℕ → ℕ → Pool → World → Option (Client × Pool × World)
  unfolding open_socket
  construct id this pool w = elim (open_socket sub_kind xpub_addr_port w) [
    | none ↦ none
    | some (sub, w') ↦ elim (open_socket pub_kind xsub_addr_port w') [
      | none ↦ none
      | some (pub_, w'') ↦ some (client sub pub_, (register_client id this pool).1, w'')
    ]
  ]

  -- EventClient::~EventClient. Both disconnects name the address of the XPUB socket.
  unfoldable pub destruct : Client → World → World
  destruct c w =
      let w1 = (z.disconnect c.pub_socket xpub_addr_port w).1 in
      let w2 = (z.close c.pub_socket w1).1 in
      let w3 = (z.disconnect c.sub_socket xpub_addr_port w2).1 in (z.close c.sub_socket w3).1
