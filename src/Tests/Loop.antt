-- ===== src/Tests/Loop.antt =====
-- The results on the thread loop, at a thread with one client.
use event_bus_cpp.Prelude.{ℕ, suc, false, some, none, [], ◌∷◌, ◌≡◌, refl, ◌==◌, if◌then◌else◌}
use event_bus_cpp.Prelude.Int.{ℤ, pos}
use event_bus_cpp.Keys.{EventType, EventContent}
use event_bus_cpp.Multimap.{empty}
use event_bus_cpp.ClientCenter.{Pool}
use event_bus_cpp.EventClient.Defs.{Client, Local, Outcome, done}
use event_bus_cpp.EventClient.Lifecycle.{Endpoints}
use event_bus_cpp.EventTarget.{Store}
use event_bus_cpp.MThread.{MThread, new_mthread}
use event_bus_cpp.MThread.Loop.{Thread, own, stops, entry, play}
use event_bus_cpp.MThread.Begins.{play-never_begins}
use event_bus_cpp.MThread.Exit.{in_thread_run}
use event_bus_cpp.Tests.Transport.{transport, idle}

abbrev ends : Endpoints
ends = record { xsub_addr_port = 1 ∷ []; xpub_addr_port = 2 ∷ [] }

abbrev quiet :
    ℕ → EventType → EventContent → Local (transport false) ℕ → ℤ × Local (transport false) ℕ
quiet t type content l = (pos 0, l)

abbrev no_setup : Pool → MThread → Store (transport false) ℕ → Outcome (Store (transport false) ℕ)
no_setup pool t st = done st

-- The application counts the runs of thread_run.
abbrev counts : MThread → Store (transport false) ℕ → Outcome (Store (transport false) ℕ)
counts t st = done (record st { app = suc st.app })

abbrev client : Client
client = record { event_object_map = empty; sub_socket = 1; pub_socket = 1; pollin = false }

abbrev store : ℕ → Store (transport false) ℕ
store n = record { clients = λ a. if a == 60 then some client else none; world = idle; app = n }

abbrev fresh_thread : Thread (transport false) ℕ
fresh_thread = record { self = new_mthread 6 []; place = entry; store = store 0; pool = [] }

play-never_begins_example :
    in_thread_run
      (play
        (transport false)
        ends
        ℕ
        quiet
        1
        6
        60
        no_setup
        counts
        (own ∷ stops ∷ own ∷ own ∷ [])
        fresh_thread).place
    ≡ false
unfolding new_mthread
play-never_begins_example =
    play-never_begins (transport false) ends ℕ quiet 1 6 60 no_setup counts
      (own ∷ stops ∷ own ∷ own ∷ []) fresh_thread refl refl refl
