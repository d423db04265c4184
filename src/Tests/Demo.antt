-- ===== src/Tests/Demo.antt =====
-- The demonstration at concrete addresses.
use event_bus_cpp.Prelude.{false, some, none, [], ◌∷◌, ◌≡◌, refl, ◌==◌, if◌then◌else◌, arith}
use event_bus_cpp.Keys.{type_order, compare_types}
use event_bus_cpp.Multimap.{empty, observers, empty-IsWellFormed}
use event_bus_cpp.ClientCenter.{find_client}
use event_bus_cpp.EventClient.Defs.{Client}
use event_bus_cpp.EventTarget.{Store}
use event_bus_cpp.MThread.{MThread}
use event_bus_cpp.UnitTest.{Fields, demo_1, setup_thread, end_thread, and_also}
use event_bus_cpp.UnitTest.Main.{type_of_input}
use event_bus_cpp.Prelude.Text.{codes}
use event_bus_cpp.UnitTest.EventTypes.{event_system_time_1}
use event_bus_cpp.UnitTest.Wiring.{joined, Wired}
use event_bus_cpp.UnitTest.Ended.{end_thread-setup_thread}
use event_bus_cpp.Tests.Transport.{transport, idle}

-- "time" is the timer's event.
typed : type_of_input (codes "time") ≡ some event_system_time_1
unfolding type_of_input compare_types
typed = refl

abbrev client : Client
client = record { event_object_map = empty; sub_socket = 1; pub_socket = 2; pollin = false }

abbrev store : Store (transport false) Fields
store = record {
  clients = λ a. if a == 60 then some client else none;
  world = idle;
  app = record { test_setup_thread_flag = false; object_test = none; printed = [] };
}

abbrev mthread : MThread
mthread = record {
  target = record { client = some 60 };
  this_id = none;
  thread_client = some 60;
  is_run = false;
  is_exit = false;
  self_thread = none;
}

-- The target 10 and the thread object 11 both observe the timer, in this order.
timer_row :
    joined demo_1.thread_types 11 event_system_time_1 (
      joined demo_1.target.types 10 event_system_time_1 (observers event_system_time_1 empty.nodes))
    ≡ 10 ∷ 11 ∷ []
unfolding demo_1 compare_types observers empty
timer_row = refl

end_thread-setup_thread_example :
    Wired
      (transport false)
      60
      (λ k. joined demo_1.target.types 10 k (observers k empty.nodes))
      store
      (and_also
        (setup_thread (transport false) demo_1 6 11 10 ((6, 60) ∷ []) mthread store)
        (end_thread (transport false) demo_1 mthread 11))
unfolding find_client observers empty
end_thread-setup_thread_example =
    end_thread-setup_thread (transport false) demo_1 6 11 10 ((6, 60) ∷ []) mthread 60 client store
      refl refl refl empty-IsWellFormed (omega arith) (λ k. refl)
