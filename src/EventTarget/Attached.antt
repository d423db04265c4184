-- ===== src/EventTarget/Attached.antt =====
-- What a target does through the client that it is attached to, and without one.
use event_bus_cpp.Prelude.{
  Option-cases, inl, inr, refl, ℕ, Bool, false, none, some, if◌then◌else◌, ◌==◌, ◌≡◌, ◌≢◌, arith,
  List,
}
use event_bus_cpp.EventTarget.{
  tell_client, EventTarget, Store, put_back, ask_client, subscribe, unsubscribe, publish_event,
  publish_loc_event, new_target,
}
use event_bus_cpp.Prelude.Int.{ℤ}
use event_bus_cpp.Keys.{EventType, EventContent, type_order, compare_types, is_eq}
use event_bus_cpp.Zmq.{Zmq}
use event_bus_cpp.Multimap.{observers, IsWellFormed}
use event_bus_cpp.EventClient.Defs.{
  Client, Local, Outcome, done, fault, register_observer, unregister_observer,
}
use event_bus_cpp.EventClient.Pairs.{removed}
use event_bus_cpp.EventClient.Registry.{
  add, register_observer-observers, register_observer-IsWellFormed, unregister_observer-observers,
}
use event_bus_cpp.ClientCenter.{Pool, register_client, find_client}
use event_bus_cpp.ClientCenter.Laws.{
  IsSorted, register_client-IsSorted, find_client-register_client,
}

module _ (z : Zmq) (App : Type 0) where
  -- The call answered and left the client at `a` with a well-formed map whose rows are `rows`; the
  -- other clients are untouched.
  pub record Answered (a : ℕ) (rows : EventType → List ℕ) (st : Store z App)
      (run : Outcome (Bool × Store z App)) : Type 0 where
    pub answer : Bool
    pub after : Store z App
    pub client : Client
    pub runs : run ≡ done (answer, after)
    pub here : after.clients a ≡ some client
    pub valid : IsWellFormed client.event_object_map
    pub rows_after : (k : EventType) → observers k client.event_object_map.nodes ≡ rows k
    pub others : (b : ℕ) → b ≢ a → after.clients b ≡ st.clients b

  asks :
      (a : ℕ) (c : Client) (call : Local z App → Bool × Local z App) (rows : EventType → List ℕ)
      (st : Store z App)
      → st.clients a ≡ some c
      → (let l = (call (record { client = c; world = st.world; app = st.app })).1 in
          IsWellFormed l.client.event_object_map
          × ((k : EventType) → observers k l.client.event_object_map.nodes ≡ rows k))
      → Answered a rows st (ask_client z App a call st)
  unfolding ask_client
  asks a c call rows st e h =
      let r = call (record { client = c; world = st.world; app = st.app }) in
      record {
        answer = r.0;
        after = put_back z App a r.1 st;
        client = r.1.client;
        runs = rw (ask_client, e);
        here = ground arith;
        valid = h.0;
        rows_after = h.1;
        others = λ b ne. ground arith;
      }

  -- A target that is attached to a client with a well-formed map subscribes an object there: the
  -- object joins the row of the type, once and at its end, the map stays well formed, and the
  -- rows of other types and all other clients are as they were.
  pub subscribe-Answered :
      (t : EventTarget) (a : ℕ) (c : Client) (type : EventType) (object : ℕ) (st : Store z App)
      → t.client ≡ some a
      → st.clients a ≡ some c
      → IsWellFormed c.event_object_map
      → Answered a
          (λ k.
            if is_eq (compare_types type k)
            then add object (observers k c.event_object_map.nodes)
            else observers k c.event_object_map.nodes)
          st
          (subscribe z App t type object st)
  unfolding subscribe
  subscribe-Answered t a c type object st e e' v =
      let l : Local z App = record { client = c; world = st.world; app = st.app } in
      rw (subscribe, e)
        (asks a c (register_observer z App type object) _ st e' (
          register_observer-IsWellFormed z App type object l v,
          λ k. register_observer-observers z App type k object l v,
        ))

  -- A target that is attached to a client with a well-formed map unsubscribes an object there:
  -- the object leaves the row of the type, the map stays well formed, and the other rows and all
  -- other clients are as they were.
  pub unsubscribe-Answered :
      (t : EventTarget) (a : ℕ) (c : Client) (type : EventType) (object : ℕ) (st : Store z App)
      → t.client ≡ some a
      → st.clients a ≡ some c
      → IsWellFormed c.event_object_map
      → Answered a
          (λ k. removed type k object c.event_object_map.nodes)
          st
          (unsubscribe z App t type object st)
  unfolding unsubscribe
  unsubscribe-Answered t a c type object st e e' v =
      let l : Local z App = record { client = c; world = st.world; app = st.app } in
      rw (unsubscribe, e)
        (asks a c (unregister_observer z App type object) _ st e' (
          (unregister_observer-observers z App type type object l v).1,
          λ k. (unregister_observer-observers z App type k object l v).0,
        ))

  -- A target without a client: subscribing and unsubscribing answer false and change nothing, and both
  -- ways to publish go through the null pointer.
  pub detached_lem :
      (callbacks : ℕ → EventType → EventContent → Local z App → ℤ × Local z App) (fuel : ℕ)
      (t : EventTarget) (type : EventType) (object : ℕ) (content : EventContent) (st : Store z App)
      → t.client ≡ none
      → (subscribe z App t type object st ≡ done (false, st))
        × (unsubscribe z App t type object st ≡ done (false, st))
        × (publish_event z App t type content st ≡ fault)
        × (publish_loc_event z App callbacks fuel t type content st ≡ fault)
  unfolding subscribe unsubscribe publish_event publish_loc_event
  detached_lem callbacks fuel t type object content st e =
      (rw (subscribe, e), rw (unsubscribe, e), rw (publish_event, e), rw (publish_loc_event, e))

  -- No call of EventTarget::publish_event has a defined result: without a client it follows the null
  -- pointer, at an address with no client a dangling one, and else it flows off its end.
  pub publish_event_faults :
      (t : EventTarget) (type : EventType) (content : EventContent) (st : Store z App)
      → publish_event z App t type content st ≡ fault
  unfolding publish_event tell_client
  publish_event_faults t type content st = elim (Option-cases t.client) [
    | inl e ↦ rw (publish_event, e)
    | inr (a, e) ↦ elim (Option-cases (st.clients a)) [
      | inl gone ↦ rw (publish_event, e, tell_client, gone) refl
      | inr (c, here) ↦ rw (publish_event, e, tell_client, here) refl
    ]
  ]

-- Once the first client of a thread has been registered in a sorted pool, every target that is
-- constructed in that thread is attached to it, though another client has been registered later
-- there; targets of other threads are attached as before.
pub new_target-register_client :
    (id client later k : ℕ) (pool : Pool)
    → IsSorted pool
    → find_client id pool ≡ none
    → let p = (register_client id client pool).1 in
      (new_target k (register_client id later p).1).client
      ≡ (if id == k then some client else (new_target k pool).client)
unfolding new_target
new_target-register_client id client later k pool h e =
    let p : Pool = (register_client id client pool).1 in
    let hp = register_client-IsSorted id client pool h in
    ground (
      arith,
      find_client-register_client id client id pool h,
      find_client-register_client id client k pool h,
      find_client-register_client id later id p hp,
      find_client-register_client id later k p hp,
    )
