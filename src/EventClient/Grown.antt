-- ===== src/EventClient/Grown.antt =====
-- A map after one more registration.
use event_bus_cpp.Prelude.{
  ℕ, true, List, ◌∷◌, ◌++◌, ◌≡◌, refl, sym, ap, ◌∙◌, if◌then◌else◌, if-true, if-false,
}
use mathlib.Core.List.{append_assoc, append_cancel_right}
use event_bus_cpp.Keys.{EventType, type_order, compare_types_refl, is_eq}
use event_bus_cpp.Multimap.{
  Multimap, Node, insert, upto, upto-upper_rest, insert_node-upto, IsWellFormed,
  insert-IsWellFormed, matches, below, upper_rest, lower_rest-matches, below-lower_rest, observers,
  observers-insert_node,
}
use event_bus_cpp.Zmq.{Zmq}
use event_bus_cpp.EventClient.Defs.{Local, register_observer, register_first}
use event_bus_cpp.EventClient.Pairs.{member, member-append}
use event_bus_cpp.EventClient.Registry.{
  map_of, observers_of, Registering, again, more, first, register_observer-cases,
}

module _ (other : EventType) (object : ℕ) (m : Multimap EventType) (v : IsWellFormed m) where
  abbrev grown : Multimap EventType
  grown = insert other object m

  pub grown_row : member object (observers other grown.nodes) ≡ true
  unfolding insert
  grown_row =
      ap (member object) (
        observers-insert_node other _ m.nodes v.sorted
        ∙ if-true _ _ _ (ap is_eq (compare_types_refl other)))
      ∙ member-append object (observers other m.nodes)

  pub grown-IsWellFormed : IsWellFormed grown
  grown-IsWellFormed = insert-IsWellFormed other object v

  -- Where the new node stands, when nobody observes a type in between.
  pub grown-nodes :
      (type : EventType)
      → upper_rest other m.nodes ≡ upper_rest type m.nodes
      → (x : Node EventType) × (x.target ≡ object)
        × (grown.nodes
            ≡ (below type m.nodes ++ matches type m.nodes) ++ x ∷ upper_rest type m.nodes)
  unfolding insert
  grown-nodes type between =
      let ns = m.nodes in
      let x : Node EventType = record { id = m.next_id; key = other; target = object } in
      let parts : (below type ns ++ matches type ns) ++ upper_rest type ns ≡ ns =
        append_assoc (below type ns) (matches type ns) (upper_rest type ns)
        ∙ ap (◌++◌ (below type ns)) (sym (lower_rest-matches type ns v.sorted))
        ∙ below-lower_rest type ns in
      let before : upto other ns ≡ below type ns ++ matches type ns =
        append_cancel_right (upto other ns) (below type ns ++ matches type ns) (upper_rest type ns)
          (ap (◌++◌ (upto other ns)) (sym between) ∙ upto-upper_rest other ns ∙ sym parts) in
      (
        x,
        refl,
        insert_node-upto x ns
            ∙ ap (λ (p : List (Node EventType)). p ++ x ∷ upper_rest other ns) before
            ∙ ap (λ (q : List (Node EventType)). (below type ns ++ matches type ns) ++ x ∷ q)
                between,
      )

module _ (z : Zmq) (App : Type 0) where
  -- What registering does to the map.
  Registering-map :
      (type : EventType) (object : ℕ) (l : Local z App) {r : _}
      → Registering z App type object l r
      → map_of z App r.1 ≡ (
          if member object (observers_of z App type l)
          then map_of z App l
          else insert type object (map_of z App l))
  unfolding register_first
  Registering-map type object l (again old) = sym (if-true _ _ _ old)
  Registering-map type object l (more new ne) = sym (if-false _ _ _ new)
  Registering-map type object l (first e) = sym (if-false _ _ _ (ap (member object) e))

  pub register_observer-map :
      (type : EventType) (object : ℕ) (l : Local z App)
      → IsWellFormed (map_of z App l)
      → map_of z App (register_observer z App type object l).1 ≡ (
          if member object (observers_of z App type l)
          then map_of z App l
          else insert type object (map_of z App l))
  register_observer-map type object l v =
      Registering-map type object l (register_observer-cases z App type object l v)
