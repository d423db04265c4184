-- ===== src/MThread.antt =====
-- MThread.h and MThread.cpp: a target with a thread of its own. Here the operations that are called
-- from outside the thread; Loop has the thread itself.
pub mod Loop
pub mod Exit
pub mod Begins
pub mod Turns
pub mod Ends
pub mod Messages
use event_bus_cpp.Prelude.{ℕ, Bool, true, false, Option, none, some}
use event_bus_cpp.Prelude.Int.{ℤ}
use event_bus_cpp.Keys.{EventType, EventContent}
use event_bus_cpp.Zmq.{Zmq}
use event_bus_cpp.StdThread.{ThreadObject, start, detach, get_id}
use event_bus_cpp.ClientCenter.{Pool, Clients, delete_client}
use event_bus_cpp.EventClient.Defs.{Local, Outcome, done, handle_event}
use event_bus_cpp.EventTarget.{EventTarget, Store, new_target, tell_client}

pub record MThread : Type 0 where
  pub target : EventTarget
  pub this_id : Option ℕ
  pub thread_client : Option ℕ
  pub is_run : Bool
  pub is_exit : Bool
  pub self_thread : Option ThreadObject

-- MThread::MThread in the thread `id`.
unfoldable pub new_mthread : ℕ → Pool → MThread
new_mthread id pool = record {
  target = new_target id pool;
  this_id = none;
  thread_client = none;
  is_run = false;
  is_exit = false;
  self_thread = none;
}

unfoldable pub task_begin : MThread → MThread
task_begin t = record t { is_run = true }

unfoldable pub task_stop : MThread → MThread
task_stop t = record t { is_run = false }

unfoldable pub task_exit : MThread → MThread
task_exit t = record t { is_exit = true }

-- MThread::init, when the system starts the thread `id`: the id is asked for after detach(). The test
-- for NULL is left out, since new does not return it.
unfoldable pub init : ℕ → MThread → MThread
init id t =
    let object = detach (start id) in
    record t { self_thread = some object; this_id = get_id object }

-- MThread::~MThread; deleting NULL does nothing.
unfoldable pub destruct : MThread → Clients → Option Clients
destruct t live = elim t.thread_client [ none ↦ some live | some c ↦ delete_client c live ]

module _ (z : Zmq) (App : Type 0)
    (event_handle : ℕ → EventType → EventContent → Local z App → ℤ × Local z App) (fuel : ℕ) where
  -- MThread::handle_message
  unfoldable pub handle_message : MThread → Store z App → Outcome (Store z App)
  handle_message t st = elim t.thread_client [
    | none ↦ done st
    | some a ↦ tell_client z App a (handle_event z App event_handle fuel) st
  ]
