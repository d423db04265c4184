-- ===== src/Multimap/Segments.antt =====
-- A sorted sequence is the nodes below a key, those at it and those above; the bounds point there.
use event_bus_cpp.Prelude.{
  ◌≡◌, refl, List, [], ◌∷◌, ◌++◌, Ordering, arith, All, ◌⊎◌, inl, inr, length, ◌≤◌, if◌then◌else◌,
  ap, ◌∙◌,
}
use event_bus_cpp.Keys.{Order, is_eq}
use event_bus_cpp.Multimap.Defs.{
  Node, observers, lower_rest, upper_rest, find_rest, found_rest, targets,
}
use event_bus_cpp.Multimap.Sorted.{IsSorted, IsBelow}

pub targets-append {ℓ} :
    {K : Type ℓ} (ms ns : List (Node K)) → targets (ms ++ ns) ≡ targets ms ++ targets ns
targets-append [] ns = refl
targets-append (m ∷ ms) ns = ap (◌∷◌ m.target) (targets-append ms ns)

module _ {ℓ} {K : Type ℓ} ⦃o : Order K⦄ where
  unfoldable pub matches : K → List (Node K) → List (Node K)
  matches k [] = []
  matches k (n ∷ ns) = let rest = matches k ns in if is_eq (o.cmp n.key k) then n ∷ rest else rest

  unfoldable pub below : K → List (Node K) → List (Node K)
  below k [] = []
  below k (n ∷ ns) = elim (o.cmp n.key k) [ Ordering.lt ↦ n ∷ below k ns | _ ↦ [] ]

  pub targets-matches : (k : K) (ns : List (Node K)) → targets (matches k ns) ≡ observers k ns
  unfolding matches observers
  targets-matches k [] = refl
  targets-matches k (n ∷ ns) = ground (arith, targets-matches k ns)

  pub length-matches-le : (k : K) (ns : List (Node K)) → length (matches k ns) ≤ length ns
  unfolding matches
  length-matches-le k [] = omega arith
  length-matches-le k (n ∷ ns) = ground (arith, length-matches-le k ns)

  pub below-lower_rest : (k : K) (ns : List (Node K)) → below k ns ++ lower_rest k ns ≡ ns
  unfolding below lower_rest
  below-lower_rest k [] = refl
  below-lower_rest k (n ∷ ns) = ground (arith, below-lower_rest k ns)

  lower_rest-All : (k : K) (ns : List (Node K)) → All (IsBelow k) ns → lower_rest k ns ≡ ns
  unfolding lower_rest
  lower_rest-All k [] h = refl
  lower_rest-All k (n ∷ ns) h = ground (arith, o.cmp_flip n.key k)

  matches-above :
      (k a : K) (ns : List (Node K))
      → o.cmp a k ≡ Ordering.gt
      → All (IsBelow a) ns
      → matches k ns ≡ []
  unfolding matches
  matches-above k a [] g h = refl
  matches-above k a (n ∷ ns) g h =
      ground (arith, matches-above k a ns g h.1, o.eq_of_cmp n.key k, o.cmp_flip a k)

  -- The range of equal_range holds the nodes with the key, and no other.
  pub lower_rest-matches :
      (k : K) (ns : List (Node K)) → IsSorted ns → lower_rest k ns ≡ matches k ns ++ upper_rest k ns
  unfolding lower_rest matches upper_rest
  lower_rest-matches k [] h = refl
  lower_rest-matches k (n ∷ ns) h = ground (
    arith,
    lower_rest-matches k ns h.1,
    matches-above k n.key ns,
    lower_rest-All k ns,
    o.eq_of_cmp n.key k,
  )

  found_rest-here :
      (k : K) (n : Node K) (rest more : List (Node K))
      → o.cmp n.key k ≡ Ordering.eq
      → found_rest k (n ∷ rest ++ more) ≡ n ∷ rest ++ more
  unfolding found_rest
  found_rest-here k n rest more e = rw e

  pub matches-key :
      (k : K) (n : Node K) (ns rest : List (Node K))
      → matches k ns ≡ n ∷ rest
      → o.cmp n.key k ≡ Ordering.eq
  unfolding matches
  matches-key k n [] rest e = cc
  matches-key k n (m ∷ ns) rest e = ground (arith, matches-key k n ns rest)

  found_rest-upper_rest : (k : K) (ns : List (Node K)) → found_rest k (upper_rest k ns) ≡ []
  unfolding found_rest upper_rest
  found_rest-upper_rest k [] = refl
  found_rest-upper_rest k (n ∷ ns) = ground (arith, found_rest-upper_rest k ns)

  -- `find` answers end() when no node has the key, and otherwise the first one that has it, with all
  -- the nodes of greater keys behind that key's own.
  pub find_rest-cases :
      (k : K) (ns : List (Node K))
      → IsSorted ns
      → ((matches k ns ≡ []) × (find_rest k ns ≡ []))
        ⊎ ((n : Node K) × (rest : List (Node K)) × (matches k ns ≡ n ∷ rest)
            × (find_rest k ns ≡ matches k ns ++ upper_rest k ns))
  unfolding find_rest
  find_rest-cases k ns h = go (matches k ns) refl
    where
      find_is : find_rest k ns ≡ found_rest k (matches k ns ++ upper_rest k ns)
      find_is = ap (found_rest k) (lower_rest-matches k ns h)

      go :
          (ms : List (Node K))
          → matches k ns ≡ ms
          → ((ms ≡ []) × (find_rest k ns ≡ []))
            ⊎ ((n : Node K) × (rest : List (Node K)) × (ms ≡ n ∷ rest)
                × (find_rest k ns ≡ ms ++ upper_rest k ns))
      go [] e = inl (
        refl,
        find_is
            ∙ ap (λ (x : List (Node K)). found_rest k (x ++ upper_rest k ns)) e
            ∙ found_rest-upper_rest k ns,
      )
      go (n ∷ rest) e = inr (
        n,
        rest,
        refl,
        find_is
            ∙ ap (λ (x : List (Node K)). found_rest k (x ++ upper_rest k ns)) e
            ∙ found_rest-here k n rest (upper_rest k ns) (matches-key k n ns rest e),
      )

  pub upper_rest-greater :
      (k : K) (ns : List (Node K))
      → IsSorted ns
      → All (λ n. o.cmp n.key k ≡ Ordering.gt) (upper_rest k ns)
  unfolding upper_rest
  upper_rest-greater k [] h = tt
  upper_rest-greater k (n ∷ ns) h = ground (arith, upper_rest-greater k ns h.1, greater k n.key ns)
    where
      greater :
          (a b : K) (ms : List (Node K))
          → o.cmp b a ≡ Ordering.gt
          → All (IsBelow b) ms
          → All (λ m. o.cmp m.key a ≡ Ordering.gt) ms
      greater a b [] g k' = tt
      greater a b (m ∷ ms) g k' = (
        ground (
          arith,
          k'.0,
          o.cmp_unflip b a,
          o.cmp_unflip b m.key,
          o.cmp_flip a m.key,
          o.eq_of_cmp b m.key,
          o.cmp_trans a b m.key,
        ),
        greater a b ms g k'.1,
      )
