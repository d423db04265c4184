-- ===== src/Tests/Growth.antt =====
-- A registration during a delivery, at a client where "go" alone is observed.
use event_bus_cpp.Prelude.{ℕ, false, List, [], ◌∷◌, ◌++◌, ◌≡◌, refl, arith}
use event_bus_cpp.Prelude.Int.{ℤ, pos}
use event_bus_cpp.Keys.{EventType, EventContent, type_order, compare_types}
use event_bus_cpp.Multimap.{Multimap, IsWellFormed, observers, upper_rest}
use event_bus_cpp.EventClient.Defs.{Local, done, register_observer, dispatch}
use event_bus_cpp.EventClient.Walk.{deliver_all}
use event_bus_cpp.EventClient.Growth.{dispatch-Registers}
use event_bus_cpp.Tests.Transport.{transport, idle}

abbrev go : EventType
go = 103 ∷ 111 ∷ []

abbrev gp : EventType
gp = 103 ∷ 112 ∷ []

abbrev two : Multimap EventType
two = record {
  nodes = record { id = 0; key = go; target = 10 } ∷ record { id = 1; key = go; target = 11 } ∷ [];
  next_id = 2;
}

abbrev App : Type 0
App = List (ℕ × EventType)

abbrev local : Local (transport false) App
local = record {
  client = record { event_object_map = two; sub_socket = 1; pub_socket = 2; pollin = false };
  world = idle;
  app = [];
}

-- Each target logs what it is called with, and has 12 observe "gp", which comes behind "go".
abbrev joins :
    ℕ → EventType → EventContent → Local (transport false) App → ℤ × Local (transport false) App
joins t type content l = (
  pos 0,
  record (register_observer (transport false) App gp 12 l).1 { app = l.app ++ (t, type) ∷ [] },
)

two-IsWellFormed : IsWellFormed two
unfolding compare_types
two-IsWellFormed = record {
  sorted = ((λ e. cc, tt), (tt, tt));
  distinct = omega arith;
  older = omega arith;
}

dispatch-Registers_example :
    dispatch (transport false) App joins 4 go [] local
    ≡ done (deliver_all (transport false) App joins (10 ∷ 11 ∷ 12 ∷ []) go [] local)
unfolding observers upper_rest compare_types
dispatch-Registers_example =
    dispatch-Registers (transport false) App joins gp 12 (λ t type content l. refl) 3 go [] local
      two-IsWellFormed (λ e. cc) refl refl (omega arith)
