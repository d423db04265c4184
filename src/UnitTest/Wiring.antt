-- ===== src/UnitTest/Wiring.antt =====
-- Who observes what after setup_thread.
use event_bus_cpp.Prelude.{ℕ, true, some, List, [], ◌∷◌, if◌then◌else◌, ◌≡◌, ◌≢◌, refl, ◌∙◌, ap}
use event_bus_cpp.Keys.{EventType, type_order, compare_types, is_eq}
use event_bus_cpp.Zmq.{Zmq}
use event_bus_cpp.Multimap.{observers, IsWellFormed}
use event_bus_cpp.ClientCenter.{Pool, find_client}
use event_bus_cpp.EventClient.Defs.{Client, Outcome, done}
use event_bus_cpp.EventClient.Registry.{add}
use event_bus_cpp.EventTarget.{EventTarget, Store, new_target}
use event_bus_cpp.EventTarget.Attached.{subscribe-Answered}
use event_bus_cpp.MThread.{MThread}
use event_bus_cpp.UnitTest.{Demo, Fields, subscribe_all, setup_thread}

-- The row of the type `k` after an object has subscribed to some types in turn.
abbrev pub joined : List EventType → ℕ → EventType → List ℕ → List ℕ
joined [] object k row = row
joined (type ∷ types) object k row =
    joined types object k (if is_eq (compare_types type k) then add object row else row)

module _ (z : Zmq) {App : Type 0} where
  -- The run ends, with a well-formed map of the rows `rows` at the client `a`, and all other clients as
  -- they were.
  pub record Wired (a : ℕ) (rows : EventType → List ℕ) (st : Store z App)
      (run : Outcome (Store z App)) : Type 0 where
    pub after : Store z App
    pub client : Client
    pub runs : run ≡ done after
    pub here : after.clients a ≡ some client
    pub valid : IsWellFormed client.event_object_map
    pub rows_after : (k : EventType) → observers k client.event_object_map.nodes ≡ rows k
    pub others : (b : ℕ) → b ≢ a → after.clients b ≡ st.clients b

  pub subscribe_all-Wired :
      (t : EventTarget) (a : ℕ) (c : Client) (types : List EventType) (object : ℕ)
      (st : Store z App)
      → t.client ≡ some a
      → st.clients a ≡ some c
      → IsWellFormed c.event_object_map
      → Wired a
          (λ k. joined types object k (observers k c.event_object_map.nodes))
          st
          (subscribe_all z t types object st)
  unfolding subscribe_all
  subscribe_all-Wired t a c [] object st e e' v = record {
    after = st;
    client = c;
    runs = refl;
    here = e';
    valid = v;
    rows_after = λ k. refl;
    others = λ b ne. refl;
  }
  subscribe_all-Wired t a c (type ∷ types) object st e e' v =
      let one = subscribe-Answered z App t a c type object st e e' v in
      let more = subscribe_all-Wired t a one.client types object one.after e one.here one.valid in
      record {
        after = more.after;
        client = more.client;
        runs = rw (one.runs, subscribe_all) more.runs;
        here = more.here;
        valid = more.valid;
        rows_after = λ k. more.rows_after k ∙ ap (joined types object k) (one.rows_after k);
        others = λ b ne. more.others b ne ∙ one.others b ne;
      }

module _ (z : Zmq) where
  -- setup_thread in a thread with a client of a well-formed map, to which the thread object is
  -- attached: it ends; then the target observes its types and after it the thread object its
  -- own, the map is well formed, and the clients of other threads are as they were.
  pub setup_thread-Wired :
      (demo : Demo) (id this object : ℕ) (pool : Pool) (t : MThread) (a : ℕ) (c : Client)
      (st : Store z Fields)
      → find_client id pool ≡ some a
      → t.target.client ≡ some a
      → st.clients a ≡ some c
      → IsWellFormed c.event_object_map
      → Wired z a
          (λ k.
            joined demo.thread_types this k
              (joined demo.target.types object k (observers k c.event_object_map.nodes)))
          st
          (setup_thread z demo id this object pool t st)
  unfolding setup_thread new_target
  setup_thread-Wired demo id this object pool t a c st f e e' v =
      let first =
        subscribe_all-Wired z (new_target id pool) a c demo.target.types object st f e' v in
      let made : Store z Fields = record first.after {
        app = record first.after.app {
          test_setup_thread_flag = true;
          object_test = some (new_target id pool);
        };
      } in
      let more =
        subscribe_all-Wired z t.target a first.client demo.thread_types this made e first.here
          first.valid in
      record {
        after = more.after;
        client = more.client;
        runs = rw (first.runs, setup_thread) more.runs;
        here = more.here;
        valid = more.valid;
        rows_after =
            λ k. more.rows_after k ∙ ap (joined demo.thread_types this k) (first.rows_after k);
        others = λ b ne. more.others b ne ∙ first.others b ne;
      }
