-- ===== src/EventTarget.antt =====
-- EventTarget.h and EventTarget.cpp: the objects that events are delivered to.
pub mod Attached
pub mod Constructed
use event_bus_cpp.Prelude.{ℕ, Bool, true, false, Option, none, some, ◌==◌, if◌then◌else◌, ◌-◌, ◌^◌}
use event_bus_cpp.Prelude.Int.{ℤ, to_int}
use event_bus_cpp.Keys.{EventType, EventContent}
use event_bus_cpp.Zmq.{Zmq, update}
use event_bus_cpp.EventClient.Defs.{
  Client, Local, Outcome, done, fault, out_of_fuel, register_observer, unregister_observer,
  publish_event as client_publish_event, publish_loc_event as client_publish_loc_event,
}
use event_bus_cpp.ClientCenter.{Pool, find_client}

-- The pointer `_client`, NULL or the address of a client.
pub record EventTarget : Type 0 where
  pub client : Option ℕ

-- All event clients by address, with the library and the application.
pub record Store (z : Zmq) (App : Type 0) : Type 0 where
  pub clients : ℕ → Option Client
  pub world : z.World
  pub app : App

-- NONE_HANDLE: 0xA5A5A5EF as an int, which is negative.
unfoldable pub none_handle : ℤ
unfolding to_int
none_handle = to_int 0xA5A5A5EF

-- EventTarget::event_handle, for a class that does not override it.
unfoldable pub event_handle : EventType → EventContent → ℤ
unfolding none_handle
event_handle type content = none_handle

-- EventTarget::EventTarget in the thread `id`.
unfoldable pub new_target : ℕ → Pool → EventTarget
new_target id pool = record { client = find_client id pool }

-- EventTarget::~EventTarget, which leaves the clients as they are: the target stays registered at its own.
unfoldable pub destruct : {z : Zmq} {App : Type 0} → EventTarget → Store z App → Store z App
destruct t st = st

unfoldable pub set_client : ℕ → EventTarget → EventTarget
set_client a t = record { client = some a }

-- operator==, by the addresses.
unfoldable pub same_target : ℕ → ℕ → Bool
same_target this object = this == object

module _ (z : Zmq) (App : Type 0) where
  abbrev pub local_of : Client → Store z App → Local z App
  local_of c st = record { client = c; world = st.world; app = st.app }

  abbrev pub put_back : ℕ → Local z App → Store z App → Store z App
  put_back a l st = record {
    clients = update st.clients a (some l.client);
    world = l.world;
    app = l.app;
  }

  abbrev pub put_outcome : ℕ → Outcome (Local z App) → Store z App → Outcome (Store z App)
  put_outcome a (done l) st = done (put_back a l st)
  put_outcome a fault st = fault
  put_outcome a out_of_fuel st = out_of_fuel

  -- A method call through `_client`; at an address with no client it has no defined behaviour.
  unfoldable pub ask_client :
      ℕ → (Local z App → Bool × Local z App) → Store z App → Outcome (Bool × Store z App)
  ask_client a call st = elim (st.clients a) [
    | none ↦ fault
    | some c ↦ let r = call (local_of c st) in done (r.0, put_back a r.1 st)
  ]

  unfoldable pub tell_client :
      ℕ → (Local z App → Outcome (Local z App)) → Store z App → Outcome (Store z App)
  tell_client a call st = elim (st.clients a) [
    | none ↦ fault
    | some c ↦ put_outcome a (call (local_of c st)) st
  ]

  unfoldable pub subscribe :
      EventTarget → EventType → ℕ → Store z App → Outcome (Bool × Store z App)
  subscribe t type object st = elim t.client [
    | none ↦ done (false, st)
    | some a ↦ ask_client a (register_observer z App type object) st
  ]

  unfoldable pub unsubscribe :
      EventTarget → EventType → ℕ → Store z App → Outcome (Bool × Store z App)
  unsubscribe t type object st = elim t.client [
    | none ↦ done (false, st)
    | some a ↦ ask_client a (unregister_observer z App type object) st
  ]

  -- A call as the last statement of a function that is declared `int` and has no return statement: to
  -- flow off its end is undefined behaviour, also once the call has returned.
  abbrev pub flows_off : Outcome (Store z App) → Outcome (Store z App)
  flows_off (done st) = fault
  flows_off fault = fault
  flows_off out_of_fuel = out_of_fuel

  -- The publishing methods do not test the pointer, and return no value.
  unfoldable pub publish_event :
      EventTarget → EventType → EventContent → Store z App → Outcome (Store z App)
  publish_event t type content st = elim t.client [
    | none ↦ fault
    | some a ↦ flows_off (tell_client a (λ l. done (client_publish_event z App type content l)) st)
  ]

  unfoldable pub publish_loc_event :
      (ℕ → EventType → EventContent → Local z App → ℤ × Local z App)
      → ℕ
      → EventTarget
      → EventType
      → EventContent
      → Store z App
      → Outcome (Store z App)
  publish_loc_event callbacks fuel t type content st = elim t.client [
    | none ↦ fault
    | some a ↦
        flows_off (tell_client a (client_publish_loc_event z App callbacks fuel type content) st)
  ]
