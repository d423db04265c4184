-- ===== src/Multimap/Sorted.antt =====
-- The order of the nodes is kept by insertion and erasure.
use event_bus_cpp.Prelude.{ℕ, ◌≢◌, List, [], ◌∷◌, Ordering, arith, All}
use event_bus_cpp.Keys.{Order}
use event_bus_cpp.Multimap.Defs.{Node, insert_node, erase_node}

module _ {ℓ} {K : Type ℓ} where
  pub erase_node-All :
      (P : Node K → Type 0) (i : ℕ) (ns : List (Node K)) → All P ns → All P (erase_node i ns)
  unfolding erase_node
  erase_node-All P i [] h = tt
  erase_node-All P i (n ∷ ns) h = ground (arith, erase_node-All P i ns h.1)

module _ {ℓ} {K : Type ℓ} ⦃o : Order K⦄ where
  -- No node behind has a smaller key.
  abbrev pub IsBelow : K → Node K → Type 0
  IsBelow k n = o.cmp k n.key ≢ Ordering.gt

  abbrev pub IsSorted : List (Node K) → Type 0
  IsSorted [] = Unit
  IsSorted (n ∷ ns) = All (IsBelow n.key) ns × IsSorted ns

  cmp_le_trans :
      (a b c : K) → o.cmp a b ≢ Ordering.gt → o.cmp b c ≢ Ordering.gt → o.cmp a c ≢ Ordering.gt
  cmp_le_trans a b c h k = ground (arith, o.eq_of_cmp a b, o.eq_of_cmp b c, o.cmp_trans a b c)

  All-IsBelow_trans :
      (a b : K) (ns : List (Node K))
      → o.cmp a b ≢ Ordering.gt
      → All (IsBelow b) ns
      → All (IsBelow a) ns
  All-IsBelow_trans a b [] h k = tt
  All-IsBelow_trans a b (n ∷ ns) h k =
      (cmp_le_trans a b n.key h k.0, All-IsBelow_trans a b ns h k.1)

  pub insert_node-All :
      (P : Node K → Type 0) (x : Node K) (ns : List (Node K))
      → P x
      → All P ns
      → All P (insert_node x ns)
  unfolding insert_node
  insert_node-All P x [] p h = (p, tt)
  insert_node-All P x (n ∷ ns) p h = ground (arith, insert_node-All P x ns p h.1)

  pub insert_node-IsSorted :
      (x : Node K) (ns : List (Node K)) → IsSorted ns → IsSorted (insert_node x ns)
  unfolding insert_node
  insert_node-IsSorted x [] h = (tt, tt)
  insert_node-IsSorted x (n ∷ ns) h = ground (
    arith,
    insert_node-IsSorted x ns h.1,
    insert_node-All (IsBelow n.key) x ns,
    All-IsBelow_trans x.key n.key ns,
    o.cmp_unflip x.key n.key,
    o.cmp_unflip n.key x.key,
    o.cmp_flip n.key x.key,
    o.cmp_flip x.key n.key,
  )

  pub erase_node-IsSorted : (i : ℕ) (ns : List (Node K)) → IsSorted ns → IsSorted (erase_node i ns)
  unfolding erase_node
  erase_node-IsSorted i [] h = tt
  erase_node-IsSorted i (n ∷ ns) h =
      ground (arith, erase_node-IsSorted i ns h.1, erase_node-All (IsBelow n.key) i ns h.0)
