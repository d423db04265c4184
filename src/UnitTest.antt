-- ===== src/UnitTest.antt =====
-- UnitTest: the demonstration program. Here its classes of targets and threads; Main has the main
-- thread, and Trace what it does on a signal.
pub mod EventTypes
pub mod Main
pub mod Trace
pub mod Frames
pub mod Signals
pub mod Wiring
pub mod Started
pub mod Ended
pub mod Team
pub mod Runs
pub mod Lives
use event_bus_cpp.Prelude.{
  ℕ, Bool, true, false, Option, none, some, List, [], ◌∷◌, ◌++◌, ◌==◌, if◌then◌else◌,
}
use event_bus_cpp.Prelude.Text.{codes}
use event_bus_cpp.Prelude.Int.{ℤ, pos}
use event_bus_cpp.Keys.{EventType, EventContent}
use event_bus_cpp.Zmq.{Zmq}
use event_bus_cpp.ClientCenter.{Pool}
use event_bus_cpp.EventClient.Defs.{Outcome, done, fault, out_of_fuel}
use event_bus_cpp.EventTarget.{
  EventTarget, Store, new_target, destruct, subscribe, unsubscribe, publish_event,
}
use event_bus_cpp.MThread.{MThread, new_mthread, init}
use EventTypes.{
  event_system_startup, event_system_time_1, event_test_target_1, event_test_target_2,
  event_test_thread_1, event_test_thread_2,
}

-- A class of targets: the types that its constructor subscribes to and its destructor takes back, the one
-- that object_test publishes, and what event_handle prints before a type.
pub record TestTarget : Type 0 where
  pub types : List EventType
  pub published : EventType
  pub says : List ℕ

-- TestEventTarget1
unfoldable pub test_event_target_1 : TestTarget
test_event_target_1 = record {
  types = event_test_target_2 ∷ event_system_time_1 ∷ [];
  published = event_test_target_1;
  says = codes "TestEventTarget1 event_handle event type:";
}

-- TestEventTarget2
unfoldable pub test_event_target_2 : TestTarget
test_event_target_2 = record {
  types = event_test_target_1 ∷ event_system_startup ∷ [];
  published = event_test_target_2;
  says = codes "TestEventTarget2 event_handle event type:";
}

-- A class of threads: its target's class, the types that setup_thread subscribes the thread to and the
-- destructor takes back, and what event_handle prints before a type.
pub record Demo : Type 0 where
  pub target : TestTarget
  pub thread_types : List EventType
  pub says : List ℕ

-- TestMthread1
unfoldable pub demo_1 : Demo
unfolding test_event_target_1
demo_1 = record {
  target = test_event_target_1;
  thread_types = event_test_thread_2 ∷ event_system_time_1 ∷ event_system_startup ∷ [];
  says = codes "TestMthread1 event_handle event type:";
}

-- TestMthread2
unfoldable pub demo_2 : Demo
unfolding test_event_target_2
demo_2 = record {
  target = test_event_target_2;
  thread_types = event_test_thread_1 ∷ event_system_time_1 ∷ event_system_startup ∷ [];
  says = codes "TestMthread2 event_handle event type:";
}

-- What event_handle of the demonstration's classes prints, each with the words of its own, and its answer,
-- 0 in all of them; `%s` prints a type up to a zero byte.
abbrev pub until_zero : List ℕ → List ℕ
until_zero [] = []
until_zero (c ∷ cs) = if c == 0 then [] else c ∷ until_zero cs

unfoldable pub test_event_handle : List ℕ → EventType → EventContent → List ℕ × ℤ
test_event_handle says type content = (says ++ (until_zero type ++ codes "\n"), pos 0)

-- The members that the thread classes add: _test_setup_thread_flag, and _object_test1 or _object_test2;
-- and what the event_handle of the object and of its target have printed.
pub record Fields : Type 0 where
  pub test_setup_thread_flag : Bool
  pub object_test : Option EventTarget
  pub printed : List ℕ

-- The constructors TestMthread1 and TestMthread2 in the thread `id`, when the system starts the thread
-- `started`: the object and its members.
unfoldable pub new_demo : ℕ → ℕ → Pool → MThread × Fields
new_demo id started pool = (
  init started (new_mthread id pool),
  record { test_setup_thread_flag = false; object_test = none; printed = [] },
)

-- A statement `subscribe(type, *this);`, whose answer is dropped, and what follows it.
abbrev pub and_then : {A B : Type 0} → Outcome (Bool × A) → (A → Outcome B) → Outcome B
and_then (done r) rest = rest r.1
and_then fault rest = fault
and_then out_of_fuel rest = out_of_fuel

abbrev pub and_also : {A B : Type 0} → Outcome A → (A → Outcome B) → Outcome B
and_also (done st) rest = rest st
and_also fault rest = fault
and_also out_of_fuel rest = out_of_fuel

module _ (z : Zmq) where
  -- The calls of subscribe that a constructor or setup_thread makes one after the other for `object`,
  -- and those of unsubscribe that a destructor makes.
  unfoldable pub subscribe_all :
      {App : Type 0} → EventTarget → List EventType → ℕ → Store z App → Outcome (Store z App)
  subscribe_all t [] object st = done st
  subscribe_all {App} t (type ∷ types) object st =
      and_then (subscribe z App t type object st) (λ st'. subscribe_all t types object st')

  unfoldable pub unsubscribe_all :
      {App : Type 0} → EventTarget → List EventType → ℕ → Store z App → Outcome (Store z App)
  unsubscribe_all t [] object st = done st
  unsubscribe_all {App} t (type ∷ types) object st =
      and_then (unsubscribe z App t type object st) (λ st'. unsubscribe_all t types object st')

  -- setup_thread in the thread `id`: `this` and `object` are the addresses of the two objects.
  unfoldable pub setup_thread :
      Demo → ℕ → ℕ → ℕ → Pool → MThread → Store z Fields → Outcome (Store z Fields)
  setup_thread demo id this object pool t st =
      let o = new_target id pool in
      and_also (subscribe_all o demo.target.types object st) (λ st'.
        subscribe_all t.target demo.thread_types this (record st' {
          app = record st'.app { test_setup_thread_flag = true; object_test = some o };
        }))

  -- The destructors ~TestEventTarget1 and ~TestEventTarget2.
  unfoldable pub end_target :
      TestTarget → EventTarget → ℕ → Store z Fields → Outcome (Store z Fields)
  end_target c o object st =
      and_also (unsubscribe_all o c.types object st) (λ st'. done (destruct o st'))

  -- The bodies of ~TestMthread1 and ~TestMthread2. ~MThread follows them; it is destroy_thread of
  -- Process/Destroyed.
  unfoldable pub end_thread : Demo → MThread → ℕ → Store z Fields → Outcome (Store z Fields)
  end_thread demo t this st = unsubscribe_all t.target demo.thread_types this st

  -- object_test
  unfoldable pub object_test : TestTarget → EventTarget → Store z Fields → Outcome (Store z Fields)
  object_test c o st = publish_event z Fields o c.published [] st

  -- thread_run; the pointer to the target is NULL before setup_thread.
  unfoldable pub thread_run : Demo → MThread → Store z Fields → Outcome (Store z Fields)
  unfolding object_test
  thread_run demo t st = elim st.app.object_test [
    | none ↦ fault
    | some o ↦ object_test demo.target o st
  ]
