-- ===== src/EventClient/Reentry.antt =====
-- Callbacks that unregister while an event is being delivered.
use event_bus_cpp.Prelude.{
  ℕ, suc, some, none, List, [], ◌∷◌, ◌++◌, ◌≡◌, ◌≢◌, refl, sym, ap, subst, ◌∙◌, arith, All,
}
use event_bus_cpp.Prelude.Int.{ℤ}
use event_bus_cpp.Keys.{EventType, EventContent, type_order}
use event_bus_cpp.Multimap.{
  Multimap, Node, iter_of, at, deref, next, next_node, erase_node, erase, IsDistinct, Differs,
  IsWellFormed, matches, below, upper_rest, upper_bound, lower_bound, lower_rest-matches,
  below-lower_rest, same_iter-append, IsDistinct-suffix, targets-matches, targets, lower_rest,
  deref_node-append, IsDistinct-prefix,
}
use event_bus_cpp.Zmq.{Zmq}
use event_bus_cpp.EventClient.Defs.{
  Local, fault, deliver, dispatch, find_pair, unregister_observer, with_map,
}
use event_bus_cpp.EventClient.Registry.{map_of, observers_of, release_filter-map}

-- No node with the identity, so nothing behind it.
next_node-Differs :
    (i : ℕ) (ns : List (Node EventType)) → All (Differs i) ns → next_node i ns ≡ none
unfolding next_node
next_node-Differs i [] h = refl
next_node-Differs i (n ∷ ns) h = ground (arith, next_node-Differs i ns h.1)

-- An erased node has no successor.
next_node-erase_node :
    (i : ℕ) (ns : List (Node EventType)) → IsDistinct ns → next_node i (erase_node i ns) ≡ none
unfolding next_node erase_node
next_node-erase_node i [] d = refl
next_node-erase_node i (n ∷ ns) d =
    ground (arith, next_node-erase_node i ns d.1, next_node-Differs n.id ns d.0)

next-erase : (i : ℕ) (m : Multimap EventType) → IsDistinct m.nodes → next (at i) (erase i m) ≡ none
unfolding next erase
next-erase i m d = next_node-erase_node i m.nodes d

deref-middle :
    (n : Node EventType) (pre suf : List (Node EventType)) (m : Multimap EventType)
    → m.nodes ≡ pre ++ n ∷ suf
    → IsDistinct (pre ++ n ∷ suf)
    → deref (at n.id) m ≡ some n
unfolding deref
deref-middle n pre suf m e d = rw e (deref_node-append n pre suf (IsDistinct-prefix n pre suf d))

-- unregister_observer finds the first node of the type, if that is the target's.
find_pair-first :
    (type : EventType) (n : Node EventType) (ns rest : List (Node EventType))
    → matches type ns ≡ n ∷ rest
    → find_pair type n.target ns ≡ some n.id
unfolding matches find_pair
find_pair-first type n [] rest e = cc
find_pair-first type n (m ∷ ns) rest e = ground (arith, find_pair-first type n ns rest)

module _ (z : Zmq) (App : Type 0) where
  unregister_observer-map :
      (type : EventType) (object i : ℕ) (l : Local z App)
      → find_pair type object (map_of z App l).nodes ≡ some i
      → map_of z App (unregister_observer z App type object l).1 ≡ erase i (map_of z App l)
  unfolding unregister_observer
  unregister_observer-map type object i l found =
      rw (unregister_observer, found)
        (release_filter-map z App type (with_map z App (erase i (map_of z App l)) l))

  module _ (event_handle : ℕ → EventType → EventContent → Local z App → ℤ × Local z App) where
    -- Each callback takes its own registration back, as a target does that wants one event only.
    abbrev pub Unregisters : Type 0
    Unregisters =
        (t : ℕ) (type : EventType) (content : EventContent) (l : Local z App)
        → (event_handle t type content l).1 ≡ (unregister_observer z App type t l).1

    -- When every callback does to the client what unregister_observer does for the target that
    -- is called, the first delivery of dispatch follows an iterator to an erased node,
    -- whatever the event and the fuel, as long as the map is well formed and somebody observes
    -- the type.
    pub dispatch-Unregisters :
        Unregisters
        → (fuel : ℕ) (type : EventType) (content : EventContent) (l : Local z App)
        → IsWellFormed (map_of z App l)
        → observers_of z App type l ≢ []
        → dispatch z App event_handle (suc fuel) type content l ≡ fault
    unfolding dispatch lower_bound upper_bound deliver iter_of
    dispatch-Unregisters once fuel type content l v some_observer = go (matches type ns) refl
      where
        ns : List (Node EventType)
        ns = (map_of z App l).nodes

        above : List (Node EventType)
        above = upper_rest type ns

        lower : lower_rest type ns ≡ matches type ns ++ above
        lower = lower_rest-matches type ns v.sorted

        parts : ns ≡ below type ns ++ lower_rest type ns
        parts = sym (below-lower_rest type ns)

        first_faults :
            (n : Node EventType) (rest : List (Node EventType))
            → matches type ns ≡ n ∷ rest
            → deliver z App event_handle
                (suc fuel)
                (iter_of above)
                (iter_of (n ∷ (rest ++ above)))
                type
                content
                l
              ≡ fault
        first_faults n rest e =
            let whole : ns ≡ below type ns ++ n ∷ (rest ++ above) =
              parts
              ∙ ap (◌++◌ (below type ns))
                  (lower ∙ ap (λ (x : List (Node EventType)). x ++ above) e) in
            let d = subst IsDistinct whole v.distinct in
            let l' : Local z App = (event_handle n.target type content l).1 in
            let gone : map_of z App l' ≡ erase n.id (map_of z App l) =
              ap (map_of z App) (once n.target type content l)
              ∙ unregister_observer-map type n.target n.id l (find_pair-first type n ns rest e) in
            rw (
              deliver,
              same_iter-append rest above n
                  (IsDistinct-suffix (below type ns) (n ∷ (rest ++ above)) d),
              deref-middle n (below type ns) (rest ++ above) (map_of z App l) whole d,
              ap (next (at n.id)) gone ∙ next-erase n.id (map_of z App l) v.distinct,
            )

        go :
            (ms : List (Node EventType))
            → matches type ns ≡ ms
            → deliver z App event_handle
                (suc fuel)
                (iter_of above)
                (iter_of (lower_rest type ns))
                type
                content
                l
              ≡ fault
        go [] e = absurd (some_observer (sym (targets-matches type ns) ∙ ap targets e))
        go (n ∷ rest) e =
            rw (lower ∙ ap (λ (x : List (Node EventType)). x ++ above) e) (first_faults n rest e)
