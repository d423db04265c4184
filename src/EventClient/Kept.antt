-- ===== src/EventClient/Kept.antt =====
-- What handle_event keeps of a client's map and of the application, when each callback keeps it.
use event_bus_cpp.Prelude.{
  ℕ, zero, suc, inl, inr, subst, sym, if-true, if-false, if◌then◌else◌, Bool-cases, Option-cases,
}
use event_bus_cpp.Prelude.Int.{ℤ}
use event_bus_cpp.Keys.{EventType, EventContent, type_order}
use event_bus_cpp.Multimap.{Multimap, Iter, same_iter, deref, next, upper_bound, lower_bound}
use event_bus_cpp.Zmq.{Zmq}
use event_bus_cpp.MZmq.Recv.{recv_event_entity}
use event_bus_cpp.EventClient.Defs.{
  Local, Outcome, done, fault, out_of_fuel, deliver, dispatch, poll, handle_event,
}

-- A statement about where a call ends, if it does.
abbrev pub IfDone {ℓ} : {A : Type 0} → (A → Type ℓ) → Outcome A → Type ℓ
IfDone P (done x) = P x
IfDone P fault = Unit
IfDone P out_of_fuel = Unit

module _ (z : Zmq) (App : Type 0)
    (event_handle : ℕ → EventType → EventContent → Local z App → ℤ × Local z App)
    (Good : Multimap EventType → App → Type 0) where
  abbrev pub GoodAt : Local z App → Type 0
  GoodAt l = Good l.client.event_object_map l.app

  module _
      (keeps : (t : ℕ) (type : EventType) (content : EventContent) (l : Local z App)
        → GoodAt l
        → GoodAt (event_handle t type content l).1) where
    deliver-Good :
        (fuel : ℕ) (stop it : Iter) (type : EventType) (content : EventContent) (l : Local z App)
        → GoodAt l
        → IfDone GoodAt (deliver z App event_handle fuel stop it type content l)
    unfolding deliver
    deliver-Good zero stop it type content l h = tt
    deliver-Good (suc fuel) stop it type content l h = elim (Bool-cases (same_iter it stop)) [
      | inl ends ↦ rw (ends, deliver) h
      | inr on ↦ elim (Option-cases (deref it l.client.event_object_map)) [
        | inl gone ↦ rw (on, gone, deliver) tt
        | inr (n, here) ↦
            let l' : Local z App = (event_handle n.target type content l).1 in
            let h' : GoodAt l' = keeps n.target type content l h in
            elim (Option-cases (next it l'.client.event_object_map)) [
              | inl gone ↦ rw (on, here, gone, deliver) tt
              | inr (it', there) ↦
                  rw (on, here, there, deliver) (deliver-Good fuel stop it' type content l' h')
            ]
      ]
    ]

    after_poll-Good :
        (fuel : ℕ) (l : Local z App)
        → GoodAt l
        → let r = recv_event_entity z l.client.sub_socket l.world in
          IfDone GoodAt (
            if l.client.pollin
            then dispatch z App event_handle fuel r.0.title r.0.content (record l { world = r.1 })
            else done l)
    unfolding dispatch
    after_poll-Good fuel l h =
        let r = recv_event_entity z l.client.sub_socket l.world in
        let m = l.client.event_object_map in
        let run =
          deliver-Good fuel (upper_bound r.0.title m) (lower_bound r.0.title m) r.0.title
            r.0.content (record l { world = r.1 }) h in
        elim (Bool-cases l.client.pollin) [
          | inl on ↦ subst (IfDone GoodAt) (sym (if-true l.client.pollin _ _ on)) run
          | inr off ↦ subst (IfDone GoodAt) (sym (if-false l.client.pollin _ _ off)) h
        ]

    -- What each callback keeps of the map and the application, handle_event keeps, if it returns.
    pub handle_event-Good :
        (fuel : ℕ) (l : Local z App)
        → GoodAt l
        → IfDone GoodAt (handle_event z App event_handle fuel l)
    unfolding handle_event poll
    handle_event-Good fuel l h = after_poll-Good fuel (poll z App l) h
