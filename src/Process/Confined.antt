-- ===== src/Process/Confined.antt =====
-- What the threads of a process rely on: the code of each thread uses its own client and no other.
use event_bus_cpp.Prelude.{ℕ, some, ◌≡◌, ◌≢◌}
use event_bus_cpp.Keys.{EventType, EventContent, type_order}
use event_bus_cpp.Multimap.{Multimap, empty, IsWellFormed}
use event_bus_cpp.Zmq.{Zmq}
use event_bus_cpp.ClientCenter.{Pool, find_client}
use event_bus_cpp.EventClient.Defs.{Client, Local}
use event_bus_cpp.EventClient.Kept.{IfDone}
use event_bus_cpp.EventTarget.{Store}
use event_bus_cpp.MThread.{MThread}
use event_bus_cpp.Process.{Program}

module _ {z : Zmq} {App : Type 0} where
  -- At the address `a` stands a client with a well-formed map, and the map and the application are as they
  -- should be.
  pub record Attended (a : ℕ) (fits : Multimap EventType → App → Type 0) (st : Store z App)
      : Type 0 where
    pub client : Client
    pub here : st.clients a ≡ some client
    pub valid : IsWellFormed client.event_object_map
    pub fitting : fits client.event_object_map st.app

  -- A call has used the client at `a` and no other.
  abbrev pub Uses : ℕ → (Multimap EventType → App → Type 0) → Store z App → Store z App → Type 0
  Uses a fits st st' = Attended a fits st' × ((b : ℕ) → b ≢ a → st'.clients b ≡ st.clients b)

module _ {z : Zmq} {App : Type 0} (g : Program z App) where
  -- `fits` is what a thread keeps of its observers and its own objects from setup_thread on.
  pub record IsConfined (fits : ℕ → Multimap EventType → App → Type 0) : Type 0 where
    pub ids_differ : (i j : ℕ) → i ≢ j → g.ident i ≢ g.ident j
    pub clients_differ : (i j : ℕ) → i ≢ j → g.fresh i ≢ g.fresh j
    pub handles :
        (i t : ℕ) (type : EventType) (content : EventContent) (l : Local z App)
        → IsWellFormed l.client.event_object_map × fits i l.client.event_object_map l.app
        → let l' = (g.event_handle i t type content l).1 in
          IsWellFormed l'.client.event_object_map × fits i l'.client.event_object_map l'.app
    pub sets_up :
        (i : ℕ) (pool : Pool) (t : MThread) (st : Store z App)
        → find_client (g.ident i) pool ≡ some (g.fresh i)
        → t.target.client ≡ some (g.fresh i)
        → Attended (g.fresh i) (λ m app. m ≡ empty) st
        → IfDone (Uses (g.fresh i) (fits i) st) (g.setup_thread i pool t st)
    pub runs :
        (i : ℕ) (t : MThread) (st : Store z App)
        → t.target.client ≡ some (g.fresh i)
        → Attended (g.fresh i) (fits i) st
        → IfDone (Uses (g.fresh i) (fits i) st) (g.thread_run i t st)
