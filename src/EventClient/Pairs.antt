-- ===== src/EventClient/Pairs.antt =====
-- The searches of register_observer and unregister_observer, against the observers of a type.
use event_bus_cpp.Prelude.{
  ℕ, Bool, true, false, some, none, List, [], ◌∷◌, ◌++◌, ◌≡◌, inl, inr, ◌≢◌, refl, sym, ap, subst,
  ◌∙◌, arith, All, ◌==◌, if◌then◌else◌, Ordering, Bool-cases,
}
use event_bus_cpp.Keys.{EventType, type_order, compare_types, eq_of_compare_types, is_eq}
use event_bus_cpp.Multimap.{Node, observers, IsDistinct, Differs, erase_node, matches}
use event_bus_cpp.EventClient.Defs.{is_registered, find_pair}

abbrev pub member : ℕ → List ℕ → Bool
member t [] = false
member t (u ∷ us) = if u == t then true else member t us

-- One occurrence less, the first.
abbrev pub remove : ℕ → List ℕ → List ℕ
remove t [] = []
remove t (u ∷ us) = if u == t then us else u ∷ remove t us

-- The loop of register_observer, over a rest of the map.
pub is_registered-matches :
    (type : EventType) (object : ℕ) (ns more : List (Node EventType))
    → All (λ n. compare_types n.key type ≡ Ordering.gt) more
    → is_registered type object (matches type ns ++ more) ≡ member object (observers type ns)
unfolding is_registered matches observers
is_registered-matches type object [] [] h = refl
is_registered-matches type object [] (n ∷ more) h =
    ground (arith, is_registered-matches type object [] more h.1)
is_registered-matches type object (n ∷ ns) more h =
    ground (arith, is_registered-matches type object ns more h)

find_pair-Differs :
    (type : EventType) (object i j : ℕ) (ns : List (Node EventType))
    → find_pair type object ns ≡ some i
    → All (Differs j) ns
    → i ≢ j
unfolding find_pair
find_pair-Differs type object i j [] e h = cc
find_pair-Differs type object i j (n ∷ ns) e h =
    ground (arith, find_pair-Differs type object i j ns)

-- Erasing the node that unregister_observer finds takes the target away from its type.
pub observers-erase_node :
    (type : EventType) (object i : ℕ) (ns : List (Node EventType))
    → IsDistinct ns
    → find_pair type object ns ≡ some i
    → observers type (erase_node i ns) ≡ remove object (observers type ns)
unfolding find_pair observers erase_node
observers-erase_node type object i [] d e = cc
observers-erase_node type object i (n ∷ ns) d e =
    ground
      (arith, observers-erase_node type object i ns d.1, find_pair-Differs type object i n.id ns)

pub observers-erase_other :
    (type k : EventType) (object i : ℕ) (ns : List (Node EventType))
    → IsDistinct ns
    → find_pair type object ns ≡ some i
    → compare_types type k ≢ Ordering.eq
    → observers k (erase_node i ns) ≡ observers k ns
unfolding find_pair observers erase_node
observers-erase_other type k object i [] d e ne = cc
observers-erase_other type k object i (n ∷ ns) d e ne = ground (
  arith,
  observers-erase_other type k object i ns d.1,
  find_pair-Differs type object i n.id ns,
  eq_of_compare_types n.key type,
)

pub member-append : (t : ℕ) (row : List ℕ) → member t (row ++ t ∷ []) ≡ true
member-append t [] = ground arith
member-append t (u ∷ row) = ground (arith, member-append t row)

-- No node is found exactly when the target does not observe the type.
pub find_pair-member :
    (type : EventType) (object : ℕ) (ns : List (Node EventType))
    → find_pair type object ns ≡ none
    → member object (observers type ns) ≡ false
unfolding find_pair observers
find_pair-member type object [] e = refl
find_pair-member type object (n ∷ ns) e = ground (arith, find_pair-member type object ns)

-- A target that is found leaves the row of its type not empty.
pub find_pair-nonempty :
    (type : EventType) (object i : ℕ) (ns : List (Node EventType))
    → find_pair type object ns ≡ some i
    → observers type ns ≢ []
unfolding find_pair observers
find_pair-nonempty type object i [] e = cc
find_pair-nonempty type object i (n ∷ ns) e = ground (arith, find_pair-nonempty type object i ns)

pub remove_absent : (t : ℕ) (ts : List ℕ) → member t ts ≡ false → remove t ts ≡ ts
remove_absent t [] h = refl
remove_absent t (u ∷ us) h = ground (arith, remove_absent t us)

pub same_type : (type k : EventType) → is_eq (compare_types type k) ≡ true → type ≡ k
same_type type k same = ground (arith, eq_of_compare_types type k)

module _ (type k : EventType) (object : ℕ) (ns : List (Node EventType)) where
  -- The row of `k` once the target has been taken out of the row of `type`.
  abbrev pub removed : List ℕ
  removed = if is_eq (compare_types type k) then remove object (observers k ns) else observers k ns

  pub removed-found :
      (i : ℕ)
      → IsDistinct ns
      → find_pair type object ns ≡ some i
      → observers k (erase_node i ns) ≡ removed
  removed-found i d found = elim (Bool-cases (is_eq (compare_types type k))) [
    | inl same ↦ rw same (
        subst (λ x. observers x (erase_node i ns) ≡ remove object (observers x ns))
          (same_type type k same) (observers-erase_node type object i ns d found))
    | inr other ↦ rw other (
        observers-erase_other type k object i ns d found
          (λ e. true≢false (sym (ap is_eq e) ∙ other)))
  ]
    where
      true≢false : true ≡ false → ⊥
      true≢false e = cc

  pub removed-absent : find_pair type object ns ≡ none → observers k ns ≡ removed
  removed-absent absent = elim (Bool-cases (is_eq (compare_types type k))) [
    | inl same ↦ rw same (
        subst (λ x. observers x ns ≡ remove object (observers x ns)) (same_type type k same)
          (sym (remove_absent object _ (find_pair-member type object ns absent))))
    | inr other ↦ rw other
  ]
