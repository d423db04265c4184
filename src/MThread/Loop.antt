-- ===== src/MThread/Loop.antt =====
-- MThread::_thread_run, one step of the thread at a time, among the calls of task_begin, task_stop and
-- task_exit of its object, whoever makes them.
use event_bus_cpp.Prelude.{ℕ, none, some, List, [], ◌∷◌, if◌then◌else◌}
use event_bus_cpp.Prelude.Int.{ℤ}
use event_bus_cpp.Keys.{EventType, EventContent}
use event_bus_cpp.Zmq.{Zmq, update}
use event_bus_cpp.ClientCenter.{Pool}
use event_bus_cpp.EventClient.Defs.{Local, Outcome, done, fault, out_of_fuel, handle_event}
use event_bus_cpp.EventClient.Lifecycle.{Endpoints, construct}
use event_bus_cpp.EventTarget.{Store, set_client, tell_client}
use event_bus_cpp.MThread.{MThread, task_begin, task_stop, task_exit}

-- What the thread does next. `crashed` and `exhausted` are a call that has no defined result, and one
-- that has run out of fuel.
pub data Place : Type 0 where
  entry : Place  -- before new EventClient()
  exit_test : Place  -- before the test of _is_exit
  handling : Place  -- before client->handle_event()
  run_test : Place  -- before the test of _is_run
  sleeping : Place  -- in sleep_for
  running : Place  -- before thread_run()
  ended : Place  -- after return NULL
  crashed : Place
  exhausted : Place

pub record Thread (z : Zmq) (App : Type 0) : Type 0 where
  pub self : MThread
  pub place : Place
  pub store : Store z App
  pub pool : Pool

-- A step of the thread itself, or a call of task_begin, task_stop or task_exit of its object: by
-- another thread, or from within the thread's own step by the code that it runs there, as setup_thread,
-- thread_run and the callbacks may. Such a call counts as made right after that step, which is no
-- difference: _thread_run reads the flags only in the steps at exit_test and run_test, which run no
-- such code, and nobody else can read them. The other methods of the object work on the client without a lock: called by another
-- thread while this one runs, they race with it.
pub data Action : Type 0 where
  own begins stops exits : Action

-- Where a call leaves the thread.
module _ (z : Zmq) (App : Type 0) where
  abbrev pub arrive : Place → Outcome (Store z App) → Thread z App → Thread z App
  arrive p (done st) s = record s { store = st; place = p }
  arrive p fault s = record s { place = crashed }
  arrive p out_of_fuel s = record s { place = exhausted }

-- `id` is the thread, `fresh` the address of the client that it makes; setup_thread, which finds the
-- pool as it is then, and thread_run are what the derived class overrides.
module _ (z : Zmq) (ends : Endpoints) (App : Type 0)
    (event_handle : ℕ → EventType → EventContent → Local z App → ℤ × Local z App)
    (fuel id fresh : ℕ) (setup_thread : Pool → MThread → Store z App → Outcome (Store z App))
    (thread_run : MThread → Store z App → Outcome (Store z App)) where
  -- Up to the loop: the client is made, and handed to the object and to the target that it is.
  unfoldable pub enter : Thread z App → Thread z App
  enter s = elim (construct z ends id fresh s.pool s.store.world) [
    | none ↦ record s { place = crashed }
    | some (c, pool, w) ↦
        let self = record s.self {
          thread_client = some fresh;
          target = set_client fresh s.self.target;
        } in
        let st : Store z App = record s.store {
          clients = update s.store.clients fresh (some c);
          world = w;
        } in
        arrive z App exit_test (setup_thread pool self st) (record s { self = self; pool = pool })
  ]

  unfoldable pub advance : Thread z App → Thread z App
  advance s = elim s.place [
    | entry ↦ enter s
    | exit_test ↦ record s { place = if s.self.is_exit then ended else handling }
    | handling ↦
        arrive z App run_test
          (tell_client z App fresh (handle_event z App event_handle fuel) s.store) s
    | run_test ↦ record s { place = if s.self.is_run then running else sleeping }
    | sleeping ↦ record s { place = exit_test }
    | running ↦ arrive z App exit_test (thread_run s.self s.store) s
    | ended ↦ s
    | crashed ↦ s
    | exhausted ↦ s
  ]

  unfoldable pub act : Action → Thread z App → Thread z App
  act own s = advance s
  act begins s = record s { self = task_begin s.self }
  act stops s = record s { self = task_stop s.self }
  act exits s = record s { self = task_exit s.self }

  unfoldable pub play : List Action → Thread z App → Thread z App
  play [] s = s
  play (a ∷ acts) s = play acts (act a s)
