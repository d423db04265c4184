-- ===== src/Multimap/Defs.antt =====
-- The operations of std::multimap that EventClient.cpp calls, over any ordered keys.
use event_bus_cpp.Prelude.{
  ℕ, suc, Bool, true, false, Option, none, some, List, [], ◌∷◌, Ordering, ◌==◌, if◌then◌else◌,
}
use event_bus_cpp.Keys.{Order, is_eq}

-- A node of the tree; `id` stands for its address, which an insertion elsewhere does not change.
pub record Node {ℓ} (K : Type ℓ) : Type ℓ where
  pub id : ℕ
  pub key : K
  pub target : ℕ

-- `past_end` is what end() returns.
pub data Iter : Type 0 where
  at : ℕ → Iter
  past_end : Iter

unfoldable pub same_iter : Iter → Iter → Bool
same_iter (at a) (at b) = a == b
same_iter (at a) past_end = false
same_iter past_end (at b) = false
same_iter past_end past_end = true

pub record Multimap {ℓ} (K : Type ℓ) : Type ℓ where
  pub nodes : List (Node K)
  pub next_id : ℕ

module _ {ℓ} {K : Type ℓ} where
  -- The iterator at the head of a rest of the sequence.
  unfoldable pub iter_of : List (Node K) → Iter
  iter_of [] = past_end
  iter_of (n ∷ ns) = at n.id

  -- `*it`; `none` where the node is gone, or there is none.
  unfoldable pub deref_node : ℕ → List (Node K) → Option (Node K)
  deref_node i [] = none
  deref_node i (n ∷ ns) = if n.id == i then some n else deref_node i ns

  unfoldable pub deref : Iter → Multimap K → Option (Node K)
  unfolding deref_node
  deref (at i) m = deref_node i m.nodes
  deref past_end m = none

  -- `++it`; `none` where the node is gone, or there is none.
  unfoldable pub next_node : ℕ → List (Node K) → Option Iter
  unfolding iter_of
  next_node i [] = none
  next_node i (n ∷ ns) = if n.id == i then some (iter_of ns) else next_node i ns

  unfoldable pub next : Iter → Multimap K → Option Iter
  unfolding next_node
  next (at i) m = next_node i m.nodes
  next past_end m = none

  unfoldable pub erase_node : ℕ → List (Node K) → List (Node K)
  erase_node i [] = []
  erase_node i (n ∷ ns) = if n.id == i then ns else n ∷ erase_node i ns

  unfoldable pub erase : ℕ → Multimap K → Multimap K
  unfolding erase_node
  erase i m = record m { nodes = erase_node i m.nodes }

  unfoldable pub empty : Multimap K
  empty = record { nodes = []; next_id = 0 }

module _ {ℓ} {K : Type ℓ} ⦃o : Order K⦄ where
  -- The rest from the first node whose key is not less than `k`.
  unfoldable pub lower_rest : K → List (Node K) → List (Node K)
  lower_rest k [] = []
  lower_rest k (n ∷ ns) = elim (o.cmp n.key k) [ Ordering.lt ↦ lower_rest k ns | _ ↦ n ∷ ns ]

  -- The rest from the first node whose key is greater than `k`.
  unfoldable pub upper_rest : K → List (Node K) → List (Node K)
  upper_rest k [] = []
  upper_rest k (n ∷ ns) = elim (o.cmp n.key k) [ Ordering.gt ↦ n ∷ ns | _ ↦ upper_rest k ns ]

  -- `find` answers the first of the nodes with the key, as libstdc++ does.
  unfoldable pub found_rest : K → List (Node K) → List (Node K)
  found_rest k [] = []
  found_rest k (n ∷ ns) = if is_eq (o.cmp n.key k) then n ∷ ns else []

  unfoldable pub find_rest : K → List (Node K) → List (Node K)
  unfolding lower_rest found_rest
  find_rest k ns = found_rest k (lower_rest k ns)

  unfoldable pub lower_bound : K → Multimap K → Iter
  unfolding lower_rest iter_of
  lower_bound k m = iter_of (lower_rest k m.nodes)

  unfoldable pub upper_bound : K → Multimap K → Iter
  unfolding upper_rest iter_of
  upper_bound k m = iter_of (upper_rest k m.nodes)

  unfoldable pub find : K → Multimap K → Iter
  unfolding find_rest iter_of
  find k m = iter_of (find_rest k m.nodes)

  -- A new node goes behind all nodes whose key is not greater.
  unfoldable pub insert_node : Node K → List (Node K) → List (Node K)
  insert_node x [] = x ∷ []
  insert_node x (n ∷ ns) = elim (o.cmp x.key n.key) [
    | Ordering.lt ↦ x ∷ n ∷ ns
    | _ ↦ n ∷ insert_node x ns
  ]

  unfoldable pub insert : K → ℕ → Multimap K → Multimap K
  unfolding insert_node
  insert k t m = record {
    nodes = insert_node (record { id = m.next_id; key = k; target = t }) m.nodes;
    next_id = suc m.next_id;
  }

  -- The targets registered under a key, the oldest first.
  unfoldable pub observers : K → List (Node K) → List ℕ
  observers k [] = []
  observers k (n ∷ ns) =
      let rest = observers k ns in if is_eq (o.cmp n.key k) then n.target ∷ rest else rest

abbrev pub targets {ℓ} : {K : Type ℓ} → List (Node K) → List ℕ
targets [] = []
targets (n ∷ ns) = n.target ∷ targets ns
