-- ===== src/Multimap/Nodes.antt =====
-- Node identities: fresh ones on insertion, and iterators that walk along the sequence.
use event_bus_cpp.Prelude.{
  ℕ, suc, ◌≡◌, refl, ◌≢◌, ◌<◌, List, [], ◌∷◌, ◌++◌, some, arith, All, true, false, All-middle, sym,
}
use event_bus_cpp.Keys.{Order}
use event_bus_cpp.Multimap.Defs.{
  Node, Iter, at, past_end, Multimap, empty, iter_of, deref_node, next_node, insert_node,
  erase_node, insert, erase, same_iter,
}
use event_bus_cpp.Multimap.Sorted.{
  IsSorted, insert_node-All, erase_node-All, insert_node-IsSorted, erase_node-IsSorted,
}

pub same_iter_refl : (it : Iter) → same_iter it it ≡ true
unfolding same_iter
same_iter_refl (at i) = ground arith
same_iter_refl past_end = refl

module _ {ℓ} {K : Type ℓ} where
  abbrev pub Differs : ℕ → Node K → Type 0
  Differs i n = n.id ≢ i

  abbrev pub Older : ℕ → Node K → Type 0
  Older i n = n.id < i

  -- No two nodes share their identity.
  abbrev pub IsDistinct : List (Node K) → Type 0
  IsDistinct [] = Unit
  IsDistinct (n ∷ ns) = All (Differs n.id) ns × IsDistinct ns

  pub deref_node-append :
      (n : Node K) (pre suf : List (Node K))
      → All (Differs n.id) pre
      → deref_node n.id (pre ++ n ∷ suf) ≡ some n
  unfolding deref_node
  deref_node-append n [] suf h = ground arith
  deref_node-append n (m ∷ pre) suf h = ground (arith, deref_node-append n pre suf h.1)

  pub next_node-append :
      (n : Node K) (pre suf : List (Node K))
      → All (Differs n.id) pre
      → next_node n.id (pre ++ n ∷ suf) ≡ some (iter_of suf)
  unfolding next_node
  next_node-append n [] suf h = ground arith
  next_node-append n (m ∷ pre) suf h = ground (arith, next_node-append n pre suf h.1)

  pub IsDistinct-prefix :
      (n : Node K) (pre suf : List (Node K)) → IsDistinct (pre ++ n ∷ suf) → All (Differs n.id) pre
  IsDistinct-prefix n [] suf h = tt
  IsDistinct-prefix n (m ∷ pre) suf h =
      (λ e. All-middle (Differs m.id) n pre suf h.0 (sym e), IsDistinct-prefix n pre suf h.1)

  pub IsDistinct-suffix : (pre suf : List (Node K)) → IsDistinct (pre ++ suf) → IsDistinct suf
  IsDistinct-suffix [] suf h = h
  IsDistinct-suffix (m ∷ pre) suf h = IsDistinct-suffix pre suf h.1

  -- A rest of the sequence does not begin at a node that stands before it.
  pub same_iter-append :
      (mid suf : List (Node K)) (n : Node K)
      → IsDistinct (n ∷ mid ++ suf)
      → same_iter (at n.id) (iter_of suf) ≡ false
  unfolding same_iter iter_of
  same_iter-append mid [] n h = refl
  same_iter-append mid (s ∷ suf) n h = ground (arith, All-middle (Differs n.id) s mid suf h.0)

  pub erase_node-IsDistinct :
      (i : ℕ) (ns : List (Node K)) → IsDistinct ns → IsDistinct (erase_node i ns)
  unfolding erase_node
  erase_node-IsDistinct i [] h = tt
  erase_node-IsDistinct i (n ∷ ns) h =
      ground (arith, erase_node-IsDistinct i ns h.1, erase_node-All (Differs n.id) i ns h.0)

  Older-Differs : (i : ℕ) (ns : List (Node K)) → All (Older i) ns → All (Differs i) ns
  Older-Differs i [] h = tt
  Older-Differs i (n ∷ ns) h = (omega (arith, h.0), Older-Differs i ns h.1)

  pub Older-suc : (i : ℕ) (ns : List (Node K)) → All (Older i) ns → All (Older (suc i)) ns
  Older-suc i [] h = tt
  Older-suc i (n ∷ ns) h = (omega (arith, h.0), Older-suc i ns h.1)

module _ {ℓ} {K : Type ℓ} ⦃o : Order K⦄ where
  insert_node-IsDistinct :
      (x : Node K) (ns : List (Node K))
      → All (Differs x.id) ns
      → IsDistinct ns
      → IsDistinct (insert_node x ns)
  unfolding insert_node
  insert_node-IsDistinct x [] d h = (tt, tt)
  insert_node-IsDistinct x (n ∷ ns) d h = ground (
    arith,
    insert_node-IsDistinct x ns d.1 h.1,
    insert_node-All (Differs n.id) x ns (λ e. d.0 (sym e)) h.0,
  )

  -- What every multimap that the operations build satisfies.
  pub record IsWellFormed (m : Multimap K) : Type 0 where
    pub sorted : IsSorted m.nodes
    pub distinct : IsDistinct m.nodes
    pub older : All (Older m.next_id) m.nodes

  pub empty-IsWellFormed : IsWellFormed empty
  unfolding empty
  empty-IsWellFormed = record { sorted = tt; distinct = tt; older = tt }

  pub insert-IsWellFormed :
      (k : K) (t : ℕ) {m : Multimap K} → IsWellFormed m → IsWellFormed (insert k t m)
  unfolding insert
  insert-IsWellFormed k t {m} h = record {
    sorted = insert_node-IsSorted _ m.nodes h.sorted;
    distinct =
        insert_node-IsDistinct _ m.nodes (Older-Differs m.next_id m.nodes h.older) h.distinct;
    older =
        insert_node-All (Older (suc m.next_id)) _ m.nodes (omega arith)
          (Older-suc m.next_id m.nodes h.older);
  }

  pub erase-IsWellFormed : (i : ℕ) {m : Multimap K} → IsWellFormed m → IsWellFormed (erase i m)
  unfolding erase
  erase-IsWellFormed i {m} h = record {
    sorted = erase_node-IsSorted i m.nodes h.sorted;
    distinct = erase_node-IsDistinct i m.nodes h.distinct;
    older = erase_node-All (Older m.next_id) i m.nodes h.older;
  }
