-- ===== src/UnitTest/Main.antt =====
-- TestMain of UnitTest/main.cpp: its constructor makes the bus, a client and two thread objects, and
-- publishes what is typed until the input is something else. The two threads run by themselves.
use event_bus_cpp.Prelude.{ℕ, Option, none, some, List, [], ◌∷◌, if◌then◌else◌}
use event_bus_cpp.Prelude.Int.{ℤ}
use event_bus_cpp.Prelude.Text.{codes}
use event_bus_cpp.Keys.{EventType, EventContent, compare_types, is_eq}
use event_bus_cpp.Zmq.{Zmq, update}
use event_bus_cpp.ClientCenter.{Pool}
use event_bus_cpp.EventBus.{EventBus, construct}
use event_bus_cpp.EventClient.Defs.{Local, Outcome, done, handle_event}
use event_bus_cpp.EventClient.Lifecycle.{Endpoints, construct as construct_client}
use event_bus_cpp.EventTarget.{
  EventTarget, Store, new_target, set_client, publish_event, tell_client,
}
use event_bus_cpp.MThread.{MThread}
use event_bus_cpp.UnitTest.{test_event_handle, Fields, and_also, new_demo}
use event_bus_cpp.UnitTest.EventTypes.{
  event_system_startup, event_system_time_1, event_test_target_1, event_test_target_2,
  event_test_thread_1, event_test_thread_2,
}

-- The type for what was typed; `none` ends the loop.
unfoldable pub type_of_input : List ℕ → Option EventType
type_of_input input =
    if is_eq (compare_types input (codes "start"))
    then some event_system_startup
    else if is_eq (compare_types input (codes "time"))
    then some event_system_time_1
    else if is_eq (compare_types input (codes "target1"))
    then some event_test_target_1
    else if is_eq (compare_types input (codes "target2"))
    then some event_test_target_2
    else if is_eq (compare_types input (codes "thread1"))
    then some event_test_thread_1
    else if is_eq (compare_types input (codes "thread2"))
    then some event_test_thread_2
    else none

-- TestMain::event_handle
unfoldable pub main_event_handle : EventType → EventContent → List ℕ × ℤ
unfolding test_event_handle
main_event_handle = test_event_handle (codes "TestMain message_handle msg id: ")

-- What the constructor has made before its loop: the bus, the target that the object is, the client pool
-- and the two thread objects.
pub record Main : Type 0 where
  pub bus : EventBus
  pub target : EventTarget
  pub pool : Pool
  pub test_thread1 : MThread × Fields
  pub test_thread2 : MThread × Fields

module _ (z : Zmq) (ends : Endpoints) (App : Type 0) where
  -- The first part of the constructor, in the thread `id`; the client is made at the address `a`, and the
  -- system starts the threads `one` and `two`. `none` where an assertion fails.
  unfoldable pub prepare : (id one two a : ℕ) → Pool → Store z App → Option (Main × Store z App)
  prepare id one two a pool st = elim (construct z ends st.world) [
    | none ↦ none
    | some (bus, w) ↦ elim (construct_client z ends id a pool w) [
      | none ↦ none
      | some (c, pool', w') ↦ some (
        record {
          bus = bus;
          target = set_client a (new_target id pool);
          pool = pool';
          test_thread1 = new_demo id one pool';
          test_thread2 = new_demo id two pool';
        },
        record st { clients = update st.clients a (some c); world = w' },
      )
    ]
  ]

module _ (z : Zmq) (App : Type 0)
    (event_handle : ℕ → EventType → EventContent → Local z App → ℤ × Local z App) (fuel : ℕ)
    (t : EventTarget) (a : ℕ) where
  -- One turn of the loop once the type is known: it is published, and one event is handled.
  unfoldable pub main_turn : EventType → Store z App → Outcome (Store z App)
  main_turn type st =
      and_also (publish_event z App t type [] st)
        (λ st'. tell_client z App a (handle_event z App event_handle fuel) st')

  -- The loop, over what is typed; at the end of the input the text that is read is empty, which is no
  -- type either.
  unfoldable pub main_loop : List (List ℕ) → Store z App → Outcome (Store z App)
  main_loop [] st = done st
  main_loop (input ∷ inputs) st = elim (type_of_input input) [
    | none ↦ done st
    | some type ↦ and_also (main_turn type st) (main_loop inputs)
  ]
