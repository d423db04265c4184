-- ===== src/Process/Rows.antt =====
-- What a subscription adds to the rows of a thread's own client.
use event_bus_cpp.Prelude.{
  List, length, suc, ◌≤◌, if◌then◌else◌, ap, List-cases, ℕ, Bool, inl, inr, subst, sym, some, ◌≡◌,
  refl, ◌∙◌, arith,
}
use event_bus_cpp.Keys.{EventType, type_order, compare_types, is_eq}
use event_bus_cpp.Multimap.{length-insert, Multimap, find_rest, observers}
use event_bus_cpp.Zmq.{Zmq}
use event_bus_cpp.EventClient.Defs.{register_observer, register_next, register_first, Local}
use event_bus_cpp.EventClient.Registry.{
  add, register_observer-observers, register_observer-IsWellFormed,
}
use event_bus_cpp.EventClient.Kept.{IfDone}
use event_bus_cpp.EventTarget.{EventTarget, subscribe, Store}
use event_bus_cpp.Process.Uses.{ask_client-Uses}
use event_bus_cpp.Process.Confined.{Attended, Uses}

module _ {App : Type 0} where
  -- The rows of a map, a bound on its size, and what is known of the application.
  pub record Rows (rows : EventType → List ℕ) (most : ℕ) (P : App → Type 0) (m : Multimap EventType)
      (app : App) : Type 0 where
    pub row : (k : EventType) → observers k m.nodes ≡ rows k
    pub few : length m.nodes ≤ most
    pub known : P app

module _ {z : Zmq} {App : Type 0} where
  pub register_observer-app :
      (type : EventType) (object : ℕ) (l : Local z App)
      → (register_observer z App type object l).1.app ≡ l.app
  unfolding register_observer register_next register_first
  register_observer-app type object l =
      elim (List-cases (find_rest type l.client.event_object_map.nodes)) [
        | inl e ↦ rw (e, register_observer) refl
        | inr (n, (ns, e)) ↦ rw (e, register_observer) (ground arith)
      ]

  register_observer-length :
      (type : EventType) (object : ℕ) (l : Local z App)
      → length (register_observer z App type object l).1.client.event_object_map.nodes
        ≤ suc (length l.client.event_object_map.nodes)
  unfolding register_observer register_next register_first
  register_observer-length type object l =
      elim (List-cases (find_rest type l.client.event_object_map.nodes)) [
        | inl e ↦
            rw (e, register_observer)
              (omega (arith, length-insert type object l.client.event_object_map))
        | inr (n, (ns, e)) ↦
            rw (e, register_observer)
              (ground (arith, length-insert type object l.client.event_object_map))
      ]

  -- A target that is attached to the client subscribes an object.
  pub subscribe-Rows :
      (a : ℕ) (rows : EventType → List ℕ) (most : ℕ) (P : App → Type 0) (t : EventTarget)
      (type : EventType) (object : ℕ) (st : Store z App)
      → t.client ≡ some a
      → Attended a (Rows rows most P) st
      → IfDone
          (λ (r : Bool × Store z App).
            Uses a
              (Rows
                (λ k. if is_eq (compare_types type k) then add object (rows k) else rows k)
                (suc most)
                P)
              st
              r.1)
          (subscribe z App t type object st)
  unfolding subscribe
  subscribe-Rows a rows most P t type object st e h =
      rw (e, subscribe)
        (ask_client-Uses a (Rows rows most P) _ (register_observer z App type object) st
          (λ l good. (
            register_observer-IsWellFormed z App type object l good.0,
            record {
              row = λ k.
                  register_observer-observers z App type k object l good.0
                  ∙ ap (λ row. if is_eq (compare_types type k) then add object row else row)
                      (good.1.row k);
              few = omega (arith, register_observer-length type object l, good.1.few);
              known = subst P (sym (register_observer-app type object l)) good.1.known;
            },
          ))
          h)
