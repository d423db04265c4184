-- ===== src/Tests/Process.antt =====
-- The results on a process of many threads, at thread objects of the demonstration.
use event_bus_cpp.EventClient.Defs.{poll, Client, fault, handle_event}
use event_bus_cpp.MZmq.Recv.{recv_event_entity}
use event_bus_cpp.Process.Handed.{returned, Handles, Steps-handle_event}
use event_bus_cpp.UnitTest.Team.{prints, texts, Member, team, Fits, rows_of, team-IsConfined}
use event_bus_cpp.Prelude.{
  ◌⊎◌, ◌<◌, length, ℕ, true, false, none, some, [], ◌∷◌, ◌+◌, ◌==◌, if◌then◌else◌, ◌≡◌, ◌≢◌, refl,
  arith,
}
use event_bus_cpp.Keys.{type_order}
use event_bus_cpp.Multimap.{observers}
use event_bus_cpp.EventClient.Lifecycle.{Endpoints, construct, open_socket}
use event_bus_cpp.EventTarget.{tell_client, new_target, subscribe, ask_client, set_client}
use event_bus_cpp.ClientCenter.{find_client, register_client}
use event_bus_cpp.MThread.{new_mthread, task_exit}
use event_bus_cpp.MThread.Exit.{over, entered}
use event_bus_cpp.MThread.Loop.{running, crashed, own, entry, advance, act, enter}
use event_bus_cpp.Process.{thread_of, Process, Program, move, Steps, stay, after, thread, library}
use event_bus_cpp.Process.Ready.{Settled}
use event_bus_cpp.Process.Sound.{IsSound, Steps-IsSound}
use event_bus_cpp.Process.Untouched.{Untouched}
use event_bus_cpp.Process.Destroyed.{destroy_thread, destroy_center, destroy_thread-destroy_center}
use event_bus_cpp.Process.Leaving.{Steps-over}
use event_bus_cpp.UnitTest.{setup_thread, subscribe_all, Fields, demo_1, demo_2}
use event_bus_cpp.UnitTest.EventTypes.{event_system_time_1}
use event_bus_cpp.UnitTest.Runs.{Steps-joined}
use event_bus_cpp.UnitTest.Lives.{Steps-entered}
use event_bus_cpp.Tests.Transport.{transport, idle}

abbrev pub ends : Endpoints
ends = record { xsub_addr_port = 1 ∷ []; xpub_addr_port = 2 ∷ [] }

-- Thread 0 is a TestMthread1, and all others are a TestMthread2.
abbrev pub member : ℕ → Member
member i = record {
  demo = if i == 0 then demo_1 else demo_2;
  this = 200 + i;
  object = 400 + i;
  id = 6 + i;
  fresh = 60 + i;
}

pub ids : (i j : ℕ) → i ≢ j → (member i).id ≢ (member j).id
ids i j ne e = ne (omega arith)

pub clients : (i j : ℕ) → i ≢ j → (member i).fresh ≢ (member j).fresh
clients i j ne e = ne (omega arith)

abbrev pub program : Program (transport false) Fields
program = team (transport false) member 9

abbrev pub State : Type 0
State = Process (transport false) Fields

abbrev pub begun : State
begun = record {
  seats = λ i. record {
    self = new_mthread 3 [];
    place = entry;
    app = record { test_setup_thread_flag = false; object_test = none; printed = [] };
  };
  clients = λ a. none;
  world = idle;
  pool = [];
}

abbrev pub goes : ℕ → State → State
goes i = move (transport false) ends Fields program i own

-- Thread 0 has come to handle_event.
abbrev pub waiting : State
waiting = goes 0 (goes 0 begun)

abbrev pub Runs : State → State → Type 0
Runs = Steps (transport false) ends Fields program

pub comes : Runs begun waiting
comes = after (after stay (thread 0 own)) (thread 0 own)

-- ZeroMQ brings an event of the timer to the socket of thread 0, and thread 1 takes a step.
abbrev bringing : (transport false).World
bringing = record waiting.world {
  inbox = λ s. if s == 1 then (event_system_time_1, true) ∷ ([], false) ∷ [] else [];
}

abbrev brought : State
brought = goes 1 (record waiting { world = bringing })

joins : Runs waiting brought
joins = after (after stay (library bringing)) (thread 1 own)

Steps-IsSound_example : IsSound (transport false) ends Fields program (λ i. Fits (member i)) waiting
Steps-IsSound_example =
    Steps-IsSound (transport false) ends Fields program (λ i. Fits (member i))
      (team-IsConfined (transport false) member 9 ids clients) begun waiting refl (λ i. refl) comes

sound : IsSound (transport false) ends Fields program (λ i. Fits (member i)) waiting
sound =
    Steps-IsSound (transport false) ends Fields program (λ i. Fits (member i))
      (team-IsConfined (transport false) member 9 ids clients) begun waiting refl (λ i. refl) comes

-- What thread 0 has then.
settled :
    Settled {App = Fields} 6 60 (Fits (member 0)) (thread_of (transport false) Fields 0 waiting)
unfolding team move act advance enter construct setup_thread subscribe_all subscribe new_target
    find_client register_client ask_client set_client new_mthread demo_1
settled = (sound.ready 0).settled refl

abbrev client : Client
client = settled.attends.client

few : length client.event_object_map.nodes < 9
unfolding demo_1
few = omega (arith, settled.attends.fitting.few)

Steps-handle_event_example :
    Handles
      (transport false)
      ends
      Fields
      program
      0
      (λ k. observers k client.event_object_map.nodes)
      client
      (waiting.seats 0).app
      brought
unfolding joins team move act advance enter construct setup_thread subscribe_all subscribe
    new_target find_client register_client ask_client set_client new_mthread demo_1
Steps-handle_event_example =
    Steps-handle_event (transport false) ends Fields program (λ i. Fits (member i))
      (team-IsConfined (transport false) member 9 ids clients) 0 waiting brought joins client
      (λ t type content l. refl) sound refl refl settled.attends.here few

Steps-joined_example :
    (c : Client) × (brought.clients 60 ≡ some c)
    × (let l' =
          poll
            (transport false)
            Fields
            (record { client = c; world = brought.world; app = (brought.seats 0).app }) in
        let r = recv_event_entity (transport false) l'.client.sub_socket l'.world in
        ((l'.client.pollin ≡ false)
          × (goes 0 brought ≡ returned (transport false) ends Fields program 0 l' brought))
        ⊎ ((l'.client.pollin ≡ true)
            × (goes 0 brought
                ≡ returned
                    (transport false)
                    ends
                    Fields
                    program
                    0
                    (prints
                      (texts (member 0) r.0.title (rows_of (member 0) r.0.title))
                      (record l' { world = r.1 }))
                    brought)))
unfolding demo_1 move act advance enter construct team setup_thread subscribe_all subscribe
    new_target find_client register_client ask_client set_client new_mthread
Steps-joined_example =
    Steps-joined (transport false) ends member 9 ids clients 0 begun brought refl (λ i. refl)
      (after (after comes (library bringing)) (thread 1 own)) (omega arith) refl

none-ne-some : {A : Type 0} {x : A} → some x ≡ none → ⊥
none-ne-some e = cc

first_made : construct (transport false) ends 6 60 [] idle ≢ none
unfolding construct open_socket
first_made e = none-ne-some e

Steps-entered_example :
    (((begun.seats 0).place ≡ running) × (((goes 0 begun).seats 0).place ≡ crashed))
    ⊎ (((begun.seats 0).place ≢ running) × (entered ((goes 0 begun).seats 0).place ≡ true))
unfolding demo_1
Steps-entered_example =
    Steps-entered (transport false) ends member 9 ids clients 0 begun begun refl (λ i. refl) stay
      (omega arith) refl (λ e. first_made)

destroy_thread-destroy_center_example :
    (q' : State) × (destroy_thread (transport false) ends Fields 0 waiting ≡ some q')
    × ((j : ℕ) → 0 ≢ j → Untouched program j waiting q')
    × (destroy_center (transport false) ends Fields q'.pool q' ≡ none)
    × (tell_client
          (transport false)
          Fields
          (program.fresh 0)
          (handle_event (transport false) Fields (program.event_handle 0) (program.fuel 0))
          (thread_of (transport false) Fields 0 q').store
        ≡ fault)
unfolding demo_1 move act advance enter construct team setup_thread subscribe_all subscribe
    new_target find_client register_client ask_client set_client new_mthread
destroy_thread-destroy_center_example =
    destroy_thread-destroy_center (transport false) ends Fields program (λ i. Fits (member i))
      (team-IsConfined (transport false) member 9 ids clients) 0 waiting sound refl

-- Thread 0 is asked to exit when it has begun.
abbrev asked : State
asked = record begun { seats = λ i. record (begun.seats i) { self = task_exit (new_mthread 3 []) } }

abbrev gone : State
gone = goes 0 (goes 0 (goes 1 (goes 0 (goes 0 asked))))

Steps-over_example : over (gone.seats 0).place ≡ true
unfolding task_exit
Steps-over_example =
    Steps-over (transport false) ends Fields program 0 asked gone
      (after
        (after (after (after (after stay (thread 0 own)) (thread 0 own)) (thread 1 own))
          (thread 0 own))
        (thread 0 own))
      refl (omega arith)
