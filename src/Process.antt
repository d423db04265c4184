-- ===== src/Process.antt =====
-- The threads of a process together: each runs _thread_run for an object of its own, and they share the
-- clients, the client pool and ZeroMQ. One step is a step of one thread of MThread/Loop, or of
-- something else in the process.
pub mod Confined
pub mod Uses
pub mod Rows
pub mod Ready
pub mod Turn
pub mod Untouched
pub mod Sound
pub mod Alone
pub mod Handed
pub mod Leaving
pub mod Destroyed
use event_bus_cpp.Prelude.{ℕ, Option, ◌≢◌}
use event_bus_cpp.Prelude.Int.{ℤ}
use event_bus_cpp.Keys.{EventType, EventContent}
use event_bus_cpp.Zmq.{Zmq, update}
use event_bus_cpp.ClientCenter.{Pool, register_client}
use event_bus_cpp.EventClient.Defs.{Client, Local, Outcome}
use event_bus_cpp.EventClient.Lifecycle.{Endpoints}
use event_bus_cpp.EventTarget.{Store}
use event_bus_cpp.MThread.{MThread}
use event_bus_cpp.MThread.Loop.{Place, Thread, Action, act}

-- A thread's object, where the thread stands, and the state of its own objects.
pub record Seat (App : Type 0) : Type 0 where
  pub self : MThread
  pub place : Place
  pub app : App

pub record Process (z : Zmq) (App : Type 0) : Type 0 where
  pub seats : ℕ → Seat App
  pub clients : ℕ → Option Client
  pub world : z.World
  pub pool : Pool

-- What differs from thread to thread: its id, the address of the client that it makes, the callbacks of its
-- targets, and what its class overrides. Where that code calls task_begin, task_stop or task_exit of
-- its own object, the call is a step of its own, right after it (see `Action`).
pub record Program (z : Zmq) (App : Type 0) : Type 0 where
  pub ident : ℕ → ℕ
  pub fresh : ℕ → ℕ
  pub fuel : ℕ → ℕ
  pub event_handle : ℕ → ℕ → EventType → EventContent → Local z App → ℤ × Local z App
  pub setup_thread : ℕ → Pool → MThread → Store z App → Outcome (Store z App)
  pub thread_run : ℕ → MThread → Store z App → Outcome (Store z App)

module _ (z : Zmq) (App : Type 0) where
  abbrev pub with_seat : Seat App → Process z App → Thread z App
  with_seat seat p = record {
    self = seat.self;
    place = seat.place;
    store = record { clients = p.clients; world = p.world; app = seat.app };
    pool = p.pool;
  }

  -- The process as the thread `i` finds it, and as it leaves it.
  abbrev pub thread_of : ℕ → Process z App → Thread z App
  thread_of i p = with_seat (p.seats i) p

  abbrev pub seat_of : Thread z App → Seat App
  seat_of s = record { self = s.self; place = s.place; app = s.store.app }

  abbrev pub put_thread : ℕ → Thread z App → Process z App → Process z App
  put_thread i s p = record {
    seats = update p.seats i (seat_of s);
    clients = s.store.clients;
    world = s.store.world;
    pool = s.pool;
  }

module _ (z : Zmq) (ends : Endpoints) (App : Type 0) (g : Program z App) where
  abbrev pub act_of : ℕ → Action → Thread z App → Thread z App
  act_of i =
      act z ends App (g.event_handle i) (g.fuel i) (g.ident i) (g.fresh i) (g.setup_thread i)
        (g.thread_run i)

  -- A step of the thread `i`, or a call of a task method of its object.
  unfoldable pub move : ℕ → Action → Process z App → Process z App
  move i a p = put_thread z App i (act_of i a (thread_of z App i p)) p

  -- What else happens meanwhile: ZeroMQ's own threads and the proxy work on the sockets, and a thread that
  -- is none of these, as the main thread, makes and uses clients of its own.
  pub data Step (p : Process z App) : Process z App → Type 0 where
    thread : (i : ℕ) (a : Action) → Step p (move i a p)
    library : (w : z.World) → Step p (record p { world = w })
    elsewhere :
        (a : ℕ) (c : Option Client)
        → ((i : ℕ) → g.fresh i ≢ a)
        → Step p (record p { clients = update p.clients a c })
    registers :
        (id a : ℕ)
        → ((i : ℕ) → g.ident i ≢ id)
        → Step p (record p { pool = (register_client id a p.pool).1 })

  pub data Steps (p : Process z App) : Process z App → Type 0 where
    stay : Steps p p
    after : {q r : Process z App} → Steps p q → Step q r → Steps p r
