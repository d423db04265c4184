-- ===== src/UnitTest/Started.antt =====
-- The start of a thread of the demonstration, from its entry to its loop.
use event_bus_cpp.Prelude.{
  ℕ, some, none, List, [], ◌==◌, if◌then◌else◌, ◌≡◌, refl, sym, ◌∙◌, ap, subst, arith,
}
use event_bus_cpp.Prelude.Int.{ℤ}
use event_bus_cpp.Keys.{EventType, EventContent, type_order}
use event_bus_cpp.Zmq.{Zmq, update}
use event_bus_cpp.Multimap.{Multimap, observers, IsWellFormed, empty, empty-IsWellFormed}
use event_bus_cpp.ClientCenter.{Pool, find_client}
use event_bus_cpp.ClientCenter.Laws.{IsSorted, or_else}
use event_bus_cpp.EventClient.Defs.{Client, Local, Outcome}
use event_bus_cpp.EventClient.Lifecycle.{Endpoints, construct}
use event_bus_cpp.EventTarget.{Store, set_client, new_target}
use event_bus_cpp.EventTarget.Constructed.{new_target-construct}
use event_bus_cpp.MThread.{MThread}
use event_bus_cpp.MThread.Loop.{Thread, exit_test, enter}
use event_bus_cpp.UnitTest.{Demo, Fields, setup_thread}
use event_bus_cpp.UnitTest.Wiring.{joined, setup_thread-Wired}

observers-empty : (k : EventType) → observers k (empty {K = EventType}).nodes ≡ []
unfolding observers empty
observers-empty k = refl

own_entry :
    (id fresh : ℕ) (pool : Pool)
    → find_client id pool ≡ none
    → (if id == id then or_else (find_client id pool) fresh else find_client id pool) ≡ some fresh
own_entry id fresh pool n = rw n (ground arith)

module _ (z : Zmq) where
  -- The thread `s` is about to enter its loop, with the new client at `fresh` in the rows `rows`.
  pub record Started (fresh : ℕ) (rows : EventType → List ℕ) (s : Thread z Fields) : Type 0 where
    pub at_loop : s.place ≡ exit_test
    pub client : Client
    pub here : s.store.clients fresh ≡ some client
    pub valid : IsWellFormed client.event_object_map
    pub rows_after : (k : EventType) → observers k client.event_object_map.nodes ≡ rows k

module _ (z : Zmq) (ends : Endpoints)
    (event_handle : ℕ → EventType → EventContent → Local z Fields → ℤ × Local z Fields) (fuel : ℕ)
    (thread_run : MThread → Store z Fields → Outcome (Store z Fields)) where
  -- With a sorted pool, when the client of a thread that had none is made, the thread comes to
  -- its loop; there its target observes its types and after it the thread object its own, and
  -- nobody observes anything else.
  pub enter-Started :
      (demo : Demo) (id this object fresh : ℕ) (s : Thread z Fields) (c : Client) (pool : Pool)
      (w : z.World)
      → IsSorted s.pool
      → find_client id s.pool ≡ none
      → construct z ends id fresh s.pool s.store.world ≡ some (c, pool, w)
      → Started z fresh
          (λ k. joined demo.thread_types this k (joined demo.target.types object k []))
          (enter z ends Fields event_handle fuel id fresh
            (setup_thread z demo id this object)
            thread_run
            s)
  unfolding enter set_client new_target
  enter-Started demo id this object fresh s c pool w h n e =
      let self : MThread = record s.self {
        thread_client = some fresh;
        target = set_client fresh s.self.target;
      } in
      let st : Store z Fields = record s.store {
        clients = update s.store.clients fresh (some c);
        world = w;
      } in
      let (attached, nothing, sorted) =
        new_target-construct z ends id fresh id s.pool pool c s.store.world w h e in
      let mine : find_client id pool ≡ some fresh = attached ∙ own_entry id fresh s.pool n in
      let valid : IsWellFormed c.event_object_map =
        subst IsWellFormed (sym nothing) empty-IsWellFormed in
      let wired =
        setup_thread-Wired z demo id this object pool self fresh c st mine refl (ground arith)
          valid in
      let bare = λ (k : EventType).
        ap (λ (m : Multimap EventType). observers k m.nodes) nothing ∙ observers-empty k in
      let same : Thread z Fields = record s { self = self; store = st; pool = pool } in
      rw (e, enter, wired.runs)
        (record {
          at_loop = refl;
          client = wired.client;
          here = wired.here;
          valid = wired.valid;
          rows_after = λ k.
              wired.rows_after k
              ∙ ap (λ row. joined demo.thread_types this k (joined demo.target.types object k row))
                  (bare k);
        })
