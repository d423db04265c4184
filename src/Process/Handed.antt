-- ===== src/Process/Handed.antt =====
-- Which targets an event reaches in a process of many threads.
use event_bus_cpp.Prelude.{
  List, ℕ, some, true, false, ◌≡◌, ◌⊎◌, ◌<◌, refl, sym, ap, ◌∙◌, subst, inl, inr, length,
}
use event_bus_cpp.Keys.{EventType, type_order}
use event_bus_cpp.Multimap.{Multimap, observers, IsWellFormed}
use event_bus_cpp.Zmq.{Zmq}
use event_bus_cpp.MZmq.Recv.{recv_event_entity}
use event_bus_cpp.EventClient.Defs.{Client, Local, done, poll, handle_event}
use event_bus_cpp.EventClient.Walk.{deliver_all}
use event_bus_cpp.EventClient.Delivery.{KeepsMap, handle_event-observers}
use event_bus_cpp.EventClient.Lifecycle.{Endpoints}
use event_bus_cpp.EventTarget.{put_back, tell_client}
use event_bus_cpp.MThread.Exit.{entered}
use event_bus_cpp.MThread.Loop.{own, handling, run_test, arrive, act}
use event_bus_cpp.MThread.Messages.{handling_lem}
use event_bus_cpp.Process.{Process, Program, thread_of, put_thread, move, Steps}
use event_bus_cpp.Process.Confined.{IsConfined}
use event_bus_cpp.Process.Sound.{IsSound}
use event_bus_cpp.Process.Alone.{owns_of, Steps-Undisturbed}

module _ (z : Zmq) (ends : Endpoints) (App : Type 0) (g : Program z App) (i : ℕ) where
  -- handle_event has returned to the loop of the thread with its client, world and objects as given.
  abbrev pub returned : Local z App → Process z App → Process z App
  returned l q =
      let s = thread_of z App i q in
      put_thread z App i
        (record s { store = put_back z App (g.fresh i) l s.store; place = run_test }) q

  -- The step of the thread that handles an event: with none in the socket it only polls, and otherwise it
  -- gives the event to the targets in the row of its title.
  abbrev pub Handles : (EventType → List ℕ) → Client → App → Process z App → Type 0
  Handles rows c app q =
      let l' = poll z App (record { client = c; world = q.world; app = app }) in
      let r = recv_event_entity z l'.client.sub_socket l'.world in
      ((l'.client.pollin ≡ false) × (move z ends App g i own q ≡ returned l' q))
      ⊎ ((l'.client.pollin ≡ true)
          × (move z ends App g i own q
              ≡ returned
                  (deliver_all z App (g.event_handle i) (rows r.0.title) r.0.title r.0.content
                    (record l' { world = r.1 }))
                  q))

  returns_lem :
      (c : Client) (l : Local z App) (q : Process z App)
      → (q.seats i).place ≡ handling
      → q.clients (g.fresh i) ≡ some c
      → handle_event z App
          (g.event_handle i)
          (g.fuel i)
          (record { client = c; world = q.world; app = (q.seats i).app })
        ≡ done l
      → move z ends App g i own q ≡ returned l q
  unfolding move act tell_client
  returns_lem c l q place here run =
      let s = thread_of z App i q in
      let told : tell_client z App (g.fresh i) (handle_event z App (g.event_handle i) (g.fuel i))
            s.store
          ≡ done (put_back z App (g.fresh i) l s.store) =
        rw (here, run, tell_client) refl in
      let arrived =
        handling_lem z ends App (g.event_handle i) (g.fuel i) (g.ident i) (g.fresh i)
          (g.setup_thread i) (g.thread_run i) s place
        ∙ ap (λ o. arrive z App run_test o s) told in
      ap (λ s'. put_thread z App i s' q) arrived

  pub Handles_lem :
      (rows : EventType → List ℕ) (c : Client) (q : Process z App)
      → KeepsMap z App (g.event_handle i)
      → (q.seats i).place ≡ handling
      → q.clients (g.fresh i) ≡ some c
      → IsWellFormed c.event_object_map
      → length c.event_object_map.nodes < g.fuel i
      → ((k : EventType) → observers k c.event_object_map.nodes ≡ rows k)
      → Handles rows c (q.seats i).app q
  unfolding poll
  Handles_lem rows c q keeps place here v h row =
      let l' = poll z App (record { client = c; world = q.world; app = (q.seats i).app }) in
      let r = recv_event_entity z l'.client.sub_socket l'.world in
      elim (handle_event-observers z App (g.event_handle i) keeps (g.fuel i)
        (record { client = c; world = q.world; app = (q.seats i).app }) v h).2 [
          | inl (off, run) ↦ inl (off, returns_lem c _ q place here run)
          | inr (on, run) ↦ inr (
            on,
            returns_lem c _ q place here run
                ∙ ap
                    (λ (ts : List ℕ).
                      returned
                        (deliver_all z App (g.event_handle i) ts r.0.title r.0.content
                          (record l' { world = r.1 }))
                        q)
                    (row r.0.title),
          )
        ]

module _ (z : Zmq) (ends : Endpoints) (App : Type 0) (g : Program z App)
    (fits : ℕ → Multimap EventType → App → Type 0) (k : IsConfined g fits) where
  some_lem : {c c' : Client} → some c ≡ some c' → c ≡ c'
  some_lem e = cc

  -- When a thread of a sound process has come to the call of handle_event, and other threads, ZeroMQ and
  -- the rest of the process then do whatever they do before it takes that step: the call returns, with
  -- no event in the socket after the poll it calls nobody, and otherwise it calls exactly the
  -- observers that its client had of the event's title when it came there, in the order of their
  -- registration, with the title and the content that were read, from its own objects as they were
  -- then. The thread's callbacks leave the map alone, there is more fuel than the map has nodes, and
  -- the code of each thread uses its own client and no other.
  pub Steps-handle_event :
      (i : ℕ) (p q : Process z App) (run : Steps z ends App g p q) (c : Client)
      → KeepsMap z App (g.event_handle i)
      → IsSound z ends App g fits p
      → owns_of i run ≡ 0
      → (p.seats i).place ≡ handling
      → p.clients (g.fresh i) ≡ some c
      → length c.event_object_map.nodes < g.fuel i
      → Handles z ends App g i (λ k. observers k c.event_object_map.nodes) c (p.seats i).app q
  Steps-handle_event i p q run c keeps h alone place here fuel =
      let own_ = (h.ready i).settled (ap entered place) in
      let eq : own_.attends.client ≡ c = some_lem (sym own_.attends.here ∙ here) in
      let same = Steps-Undisturbed z ends App g fits k i p q run alone h in
      subst (λ app. Handles z ends App g i (λ k. observers k c.event_object_map.nodes) c app q)
        same.app
        (Handles_lem z ends App g i (λ k. observers k c.event_object_map.nodes) c q keeps
          (same.place ∙ place) (same.client ∙ here)
          (subst (λ (c : Client). IsWellFormed c.event_object_map) eq own_.attends.valid) fuel
          (λ k. refl))
