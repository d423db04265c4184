-- ===== src/EventClient/Locally.antt =====
-- Which targets publish_loc_event reaches: its loop runs to the end of the map.
use event_bus_cpp.Prelude.{
  ℕ, List, [], ◌∷◌, ◌++◌, length, ◌≡◌, ◌⊎◌, inl, inr, ◌<◌, ◌≢◌, sym, ap, subst, ◌∙◌, arith,
  length-append,
}
use mathlib.Core.List.{append-nil}
use event_bus_cpp.Prelude.Int.{ℤ}
use event_bus_cpp.Keys.{EventType, EventContent, type_order}
use event_bus_cpp.Multimap.{
  Node, past_end, iter_of, targets, IsDistinct, IsWellFormed, observers, find, find_rest-cases,
  matches, below, upper_rest, targets-matches, targets-append,
}
use event_bus_cpp.Zmq.{Zmq}
use event_bus_cpp.EventClient.Walk.{deliver_all}
use event_bus_cpp.EventClient.Defs.{Local, done, deliver, publish_loc_event}
use event_bus_cpp.EventClient.Delivery.{KeepsMap, deliver-kept, split_nodes}

module _ (z : Zmq) (App : Type 0)
    (event_handle : ℕ → EventType → EventContent → Local z App → ℤ × Local z App)
    (keeps : KeepsMap z App event_handle) where
  -- The loop to the end of the map, from any node.
  deliver-rest :
      (fuel : ℕ) (pre rest : List (Node EventType)) (type : EventType) (content : EventContent)
      (l : Local z App)
      → length rest < fuel
      → l.client.event_object_map.nodes ≡ pre ++ rest
      → IsDistinct (pre ++ rest)
      → deliver z App event_handle fuel past_end (iter_of rest) type content l
        ≡ done (deliver_all z App event_handle (targets rest) type content l)
  unfolding iter_of
  deliver-rest fuel pre rest type content l h e d =
      subst
        (λ (r : List (Node EventType)).
          deliver z App event_handle fuel past_end (iter_of r) type content l
          ≡ done (deliver_all z App event_handle (targets rest) type content l))
        (append-nil rest)
        (deliver-kept z App event_handle keeps fuel pre rest [] type content l h
          (e ∙ ap (◌++◌ pre) (sym (append-nil rest)))
          (subst IsDistinct (ap (◌++◌ pre) (sym (append-nil rest))) d))

  -- With a well-formed map, callbacks that leave it alone and more fuel than it has nodes:
  -- publish_loc_event runs from the first observer of the type to the end of the whole map.
  -- With no observer of the type it calls nobody; otherwise it calls the observers of the
  -- type, in the order of their registration, and then every observer of every greater type.
  pub publish_loc_event_reaches :
      (fuel : ℕ) (type : EventType) (content : EventContent) (l : Local z App)
      → IsWellFormed l.client.event_object_map
      → length l.client.event_object_map.nodes < fuel
      → let ns = l.client.event_object_map.nodes in
        let run = publish_loc_event z App event_handle fuel type content l in
        ((observers type ns ≡ []) × (run ≡ done l))
        ⊎ ((observers type ns ≢ [])
            × (run
                ≡ done (
                    deliver_all z App event_handle
                      (observers type ns ++ targets (upper_rest type ns))
                      type
                      content
                      l)))
  unfolding publish_loc_event find deliver_all
  publish_loc_event_reaches fuel type content l v h = elim (find_rest-cases type ns v.sorted) [
    | inl (unmatched, nowhere) ↦ inl (
      seen unmatched,
      rw nowhere (
          deliver-rest fuel ns [] type content l (omega arith) whole
            (subst IsDistinct whole v.distinct)),
    )
    | inr (n, rest, first, there) ↦ inr (
      λ e. some_target (sym (ap targets first) ∙ targets-matches type ns ∙ e),
      rw (← targets-matches type ns, ← targets-append (matches type ns) (upper_rest type ns), there)
          (deliver-rest fuel (below type ns) (matches type ns ++ upper_rest type ns) type content l
            (omega (
              arith,
              ap length parts,
              length-append (below type ns) (matches type ns ++ upper_rest type ns),
            ))
            parts (subst IsDistinct parts v.distinct)),
    )
  ]
    where
      ns : List (Node EventType)
      ns = l.client.event_object_map.nodes

      whole : ns ≡ ns ++ []
      whole = sym (append-nil ns)

      seen : matches type ns ≡ [] → observers type ns ≡ []
      seen e = sym (targets-matches type ns) ∙ ap targets e

      some_target : {t : ℕ} {ts : List ℕ} → t ∷ ts ≡ [] → ⊥
      some_target e = cc

      parts : ns ≡ below type ns ++ (matches type ns ++ upper_rest type ns)
      parts = split_nodes z App event_handle keeps type ns v.sorted
