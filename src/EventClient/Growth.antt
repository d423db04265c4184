-- ===== src/EventClient/Growth.antt =====
-- Callbacks that register a target while an event is being delivered.
use event_bus_cpp.Prelude.{
  ℕ, suc, false, List, [], ◌∷◌, ◌++◌, ◌≡◌, ◌≢◌, ◌<◌, refl, sym, ap, subst, ◌∙◌, arith, length,
  length-append, if-true, if-false,
}
use mathlib.Core.List.{append_assoc}
use event_bus_cpp.Prelude.Int.{ℤ}
use event_bus_cpp.Keys.{EventType, EventContent, type_order}
use event_bus_cpp.Multimap.{
  Multimap, Node, iter_of, at, deref, next, insert, IsDistinct, IsWellFormed, insert-IsWellFormed,
  matches, below, upper_rest, upper_bound, lower_bound, lower_rest-matches, below-lower_rest,
  same_iter-append, IsDistinct-suffix, targets-matches, targets-append, targets, lower_rest,
  observers, length-matches-le,
}
use event_bus_cpp.Zmq.{Zmq}
use event_bus_cpp.EventClient.Defs.{Local, done, deliver, dispatch, register_observer}
use event_bus_cpp.EventClient.Pairs.{member}
use event_bus_cpp.EventClient.Grown.{
  grown_row, grown-IsWellFormed, grown-nodes, register_observer-map,
}
use event_bus_cpp.EventClient.Walk.{deliver_all, deliver-segment, deref-here, next-here, regroup}
use event_bus_cpp.EventClient.Registry.{map_of, observers_of}

module _ (z : Zmq) (App : Type 0) where
  module _ (event_handle : ℕ → EventType → EventContent → Local z App → ℤ × Local z App) where
    -- Each callback registers the target `object` for the type `other`.
    abbrev pub Registers : EventType → ℕ → Type 0
    Registers other object =
        (t : ℕ) (type : EventType) (content : EventContent) (l : Local z App)
        → map_of z App (event_handle t type content l).1
          ≡ map_of z App (register_observer z App other object l).1

    module _ (other : EventType) (object : ℕ) (registers : Registers other object)
        (m : Multimap EventType) (v : IsWellFormed m)
        (new : member object (observers other m.nodes) ≡ false) where
      grows :
          (t : ℕ) (type : EventType) (content : EventContent) (l : Local z App)
          → map_of z App l ≡ m
          → map_of z App (event_handle t type content l).1 ≡ insert other object m
      grows t type content l same =
          registers t type content l
          ∙ register_observer-map z App other object l (subst IsWellFormed (sym same) v)
          ∙ if-false _ _ _
              (ap (λ (x : Multimap EventType). member object (observers other x.nodes)) same ∙ new)
          ∙ ap (insert other object) same

      -- From then on the callbacks find the target registered.
      stays :
          (t : ℕ) (type : EventType) (content : EventContent) (l : Local z App)
          → map_of z App l ≡ insert other object m
          → map_of z App (event_handle t type content l).1 ≡ insert other object m
      stays t type content l same =
          registers t type content l
          ∙ register_observer-map z App other object l
              (subst IsWellFormed (sym same) (insert-IsWellFormed other object v))
          ∙ if-true _ _ _ (
              ap (λ (x : Multimap EventType). member object (observers other x.nodes)) same
              ∙ grown_row other object m v)
          ∙ same

      -- The loop from the first observer on.
      first_grows :
          (fuel : ℕ) (type : EventType) (content : EventContent) (l : Local z App)
          (n : Node EventType) (rest : List (Node EventType))
          → map_of z App l ≡ m
          → upper_rest other m.nodes ≡ upper_rest type m.nodes
          → matches type m.nodes ≡ n ∷ rest
          → suc (length rest) < fuel
          → deliver z App event_handle
              (suc fuel)
              (iter_of (upper_rest type m.nodes))
              (iter_of (n ∷ (rest ++ upper_rest type m.nodes)))
              type
              content
              l
            ≡ done (
                deliver_all z App event_handle
                  (n.target ∷ (targets rest ++ object ∷ []))
                  type
                  content
                  l)
      unfolding deliver iter_of deliver_all
      first_grows fuel type content l n rest same between e h =
          let ns = m.nodes in
          let above = upper_rest type ns in
          let (x, is_object, nodes) = grown-nodes other object m v type between in
          let mid : List (Node EventType) = rest ++ x ∷ [] in
          let whole : ns ≡ below type ns ++ n ∷ (rest ++ above) =
            sym (below-lower_rest type ns)
            ∙ ap (◌++◌ (below type ns)) (
                lower_rest-matches type ns v.sorted
                ∙ ap (λ (q : List (Node EventType)). q ++ above) e) in
          let grown_whole : (insert other object m).nodes ≡ below type ns ++ n ∷ (mid ++ above) =
            nodes
            ∙ append_assoc (below type ns) (matches type ns) (x ∷ above)
            ∙ ap (λ (q : List (Node EventType)). below type ns ++ (q ++ x ∷ above)) e
            ∙ ap (λ (q : List (Node EventType)). below type ns ++ n ∷ q)
                (sym (append_assoc rest (x ∷ []) above)) in
          let d = subst IsDistinct whole v.distinct in
          let d' = subst IsDistinct grown_whole (grown-IsWellFormed other object m v).distinct in
          let l' : Local z App = (event_handle n.target type content l).1 in
          let same' : map_of z App l' ≡ insert other object m =
            grows n.target type content l same in
          rw
            (
              deliver,
              same_iter-append rest above n (IsDistinct-suffix (below type ns) _ d),
              ap (deref (at n.id)) same ∙ deref-here (below type ns) (rest ++ above) n m whole d,
              ap (next (at n.id)) same'
                  ∙ next-here (below type ns) (mid ++ above) n (insert other object m) grown_whole
                      d',
            )
            (deliver-segment z App event_handle type content (insert other object m)
                (λ t l0 e0. stays t type content l0 e0) fuel (below type ns ++ n ∷ []) mid above l'
                (omega (arith, length-append rest (x ∷ []))) same'
                (grown_whole ∙ regroup (below type ns) (mid ++ above) n)
                (subst IsDistinct (regroup (below type ns) (mid ++ above) n) d')
              ∙ ap (λ (ts : List ℕ). done (deliver_all z App event_handle ts type content l'))
                  (targets-append rest (x ∷ []) ∙ ap (λ (t : ℕ). targets rest ++ t ∷ []) is_object))

    -- Let each callback register the same target for the same type at its client, where it is not yet
    -- registered for that. Let somebody observe the type of an event, let the map be well formed,
    -- and let nobody observe a type that is greater than the event's and not greater than the
    -- target's. With more fuel than the map has nodes and one more, dispatch calls the observers of
    -- the event's type, in order, and after them the new target, with the event's type, whether the
    -- target has been registered for that or for a greater one.
    pub dispatch-Registers :
        (other : EventType) (object : ℕ)
        → Registers other object
        → (fuel : ℕ) (type : EventType) (content : EventContent) (l : Local z App)
        → IsWellFormed (map_of z App l)
        → observers_of z App type l ≢ []
        → member object (observers_of z App other l) ≡ false
        → upper_rest other (map_of z App l).nodes ≡ upper_rest type (map_of z App l).nodes
        → length (map_of z App l).nodes < fuel
        → dispatch z App event_handle (suc fuel) type content l
          ≡ done (
              deliver_all z App event_handle
                (observers_of z App type l ++ object ∷ [])
                type
                content
                l)
    unfolding dispatch lower_bound upper_bound
    dispatch-Registers other object registers fuel type content l v some_observer new between h =
        go (matches type ns) refl
      where
        ns : List (Node EventType)
        ns = (map_of z App l).nodes

        above : List (Node EventType)
        above = upper_rest type ns

        row : targets (matches type ns) ≡ observers_of z App type l
        row = targets-matches type ns

        go :
            (ms : List (Node EventType))
            → matches type ns ≡ ms
            → deliver z App event_handle
                (suc fuel)
                (iter_of above)
                (iter_of (lower_rest type ns))
                type
                content
                l
              ≡ done (
                  deliver_all z App event_handle
                    (observers_of z App type l ++ object ∷ [])
                    type
                    content
                    l)
        go [] e = absurd (some_observer (sym row ∙ ap targets e))
        go (n ∷ rest) e =
            rw
              (
                lower_rest-matches type ns v.sorted
                    ∙ ap (λ (q : List (Node EventType)). q ++ above) e,
                sym row ∙ ap targets e,
              )
              (first_grows other object registers (map_of z App l) v new fuel type content l n rest
                refl between e (omega (arith, length-matches-le type ns, ap length e)))
