-- ===== src/Multimap/Inserted.antt =====
-- Where a new node goes: behind the nodes that are not greater, before those that are.
use event_bus_cpp.Prelude.{ℕ, suc, length, ◌≡◌, refl, List, [], ◌∷◌, ◌++◌, Ordering, arith}
use event_bus_cpp.Keys.{Order}
use event_bus_cpp.Multimap.Defs.{Multimap, insert, Node, upper_rest, insert_node}

module _ {ℓ} {K : Type ℓ} ⦃o : Order K⦄ where
  pub upto : K → List (Node K) → List (Node K)
  upto k [] = []
  upto k (n ∷ ns) = elim (o.cmp n.key k) [ Ordering.gt ↦ [] | _ ↦ n ∷ upto k ns ]

  pub upto-upper_rest : (k : K) (ns : List (Node K)) → upto k ns ++ upper_rest k ns ≡ ns
  unfolding upto upper_rest
  upto-upper_rest k [] = refl
  upto-upper_rest k (n ∷ ns) = ground (arith, upto-upper_rest k ns)

  pub insert_node-upto :
      (x : Node K) (ns : List (Node K))
      → insert_node x ns ≡ upto x.key ns ++ x ∷ upper_rest x.key ns
  unfolding upto upper_rest insert_node
  insert_node-upto x [] = refl
  insert_node-upto x (n ∷ ns) = ground (
    arith,
    insert_node-upto x ns,
    o.cmp_flip x.key n.key,
    o.cmp_flip n.key x.key,
    o.cmp_unflip n.key x.key,
    o.cmp_unflip x.key n.key,
  )

  length-insert_node :
      (x : Node K) (ns : List (Node K)) → length (insert_node x ns) ≡ suc (length ns)
  unfolding insert_node
  length-insert_node x [] = refl
  length-insert_node x (n ∷ ns) = ground (arith, length-insert_node x ns)

  pub length-insert :
      (k : K) (t : ℕ) (m : Multimap K) → length (insert k t m).nodes ≡ suc (length m.nodes)
  unfolding insert
  length-insert k t m = length-insert_node (record { id = m.next_id; key = k; target = t }) m.nodes
