-- ===== src/Multimap/Observers.antt =====
-- The targets under a key, after an insertion or an erasure.
use event_bus_cpp.Prelude.{◌≡◌, refl, List, [], ◌∷◌, ◌++◌, Ordering, arith, All, if◌then◌else◌}
use event_bus_cpp.Keys.{Order, is_eq}
use event_bus_cpp.Multimap.Defs.{Node, observers, insert_node}
use event_bus_cpp.Multimap.Sorted.{IsSorted, IsBelow}

module _ {ℓ} {K : Type ℓ} ⦃o : Order K⦄ where
  observers-above :
      (k a : K) (ns : List (Node K))
      → o.cmp k a ≡ Ordering.lt
      → All (IsBelow a) ns
      → observers k ns ≡ []
  unfolding observers
  observers-above k a [] g h = refl
  observers-above k a (n ∷ ns) g h =
      ground (arith, observers-above k a ns g h.1, o.eq_of_cmp n.key k, o.cmp_flip k a)

  -- A new target comes last under its key, and no other key sees it.
  pub observers-insert_node :
      (k : K) (x : Node K) (ns : List (Node K))
      → IsSorted ns
      → observers k (insert_node x ns)
        ≡ (if is_eq (o.cmp x.key k) then observers k ns ++ x.target ∷ [] else observers k ns)
  unfolding observers insert_node
  observers-insert_node k x [] h = ground arith
  observers-insert_node k x (n ∷ ns) h = ground (
    arith,
    observers-insert_node k x ns h.1,
    observers-above k n.key ns,
    o.eq_of_cmp x.key k,
    o.eq_of_cmp n.key k,
    o.cmp_flip k n.key,
  )
