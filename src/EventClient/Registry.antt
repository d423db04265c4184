-- ===== src/EventClient/Registry.antt =====
-- register_observer and unregister_observer: the observers of each type before and after.
use event_bus_cpp.Prelude.{
  ℕ, Bool, true, false, some, List, [], ◌∷◌, ◌++◌, ◌≡◌, inl, inr, ◌≢◌, sym, ap, subst, ◌∙◌, arith,
  if◌then◌else◌, Bool-cases, Option-cases,
}
use event_bus_cpp.Keys.{EventType, type_order, compare_types, eq_of_compare_types, is_eq}
use event_bus_cpp.Multimap.{
  Multimap, Node, observers, IsWellFormed, insert-IsWellFormed, erase-IsWellFormed, insert, erase,
  observers-insert_node, find_rest-cases, upper_rest, upper_rest-greater, targets-matches, targets,
}
use event_bus_cpp.Zmq.{Zmq}
use event_bus_cpp.EventClient.Defs.{
  Local, is_registered, find_pair, with_map, register_next, register_first, register_observer,
  release_filter, unregister_observer,
}
use event_bus_cpp.EventClient.Pairs.{
  member, is_registered-matches, removed, removed-found, removed-absent,
}

-- A target joins the end of the row, once.
abbrev pub add : ℕ → List ℕ → List ℕ
add t ts = if member t ts then ts else ts ++ t ∷ []

module _ (z : Zmq) (App : Type 0) where
  abbrev pub map_of : Local z App → Multimap EventType
  map_of l = l.client.event_object_map

  abbrev pub observers_of : EventType → Local z App → List ℕ
  observers_of type l = observers type (map_of l).nodes

  -- The three ways through register_observer.
  pub data Registering (type : EventType) (object : ℕ) (l : Local z App)
      : Bool × Local z App → Type 0 where
    again : member object (observers_of type l) ≡ true → Registering type object l (true, l)
    more :
        member object (observers_of type l) ≡ false
        → observers_of type l ≢ []
        → Registering type object l (true, with_map z App (insert type object (map_of l)) l)
    first :
        observers_of type l ≡ [] → Registering type object l (register_first z App type object l)

  registered_rest :
      (type : EventType) (object : ℕ) (l : Local z App) (n : Node EventType)
      (ns : List (Node EventType))
      → is_registered type object (n ∷ ns) ≡ member object (observers_of type l)
      → observers_of type l ≢ []
      → Registering type object l (register_next z App type object (n ∷ ns) l)
  unfolding register_next
  registered_rest type object l n ns e ne =
      elim (Bool-cases (member object (observers_of type l))) [
        | inl old ↦ rw (register_next, e, old) (again old)
        | inr new ↦ rw (register_next, e, new) (more new ne)
      ]

  pub register_observer-cases :
      (type : EventType) (object : ℕ) (l : Local z App)
      → IsWellFormed (map_of l)
      → Registering type object l (register_observer z App type object l)
  unfolding register_observer
  register_observer-cases type object l v = elim (find_rest-cases type (map_of l).nodes v.sorted) [
    | inl (unmatched, nowhere) ↦
        rw (register_observer, nowhere)
          (first (sym (targets-matches type (map_of l).nodes) ∙ ap targets unmatched))
    | inr (n, rest, e, there) ↦
        rw (register_observer, there ∙ ap (λ (x : List (Node EventType)). x ++ above) e)
          (registered_rest type object l n (rest ++ above)
            (subst
              (λ (x : List (Node EventType)).
                is_registered type object (x ++ above) ≡ member object (observers_of type l))
              e
              (is_registered-matches type object (map_of l).nodes above
                (upper_rest-greater type (map_of l).nodes v.sorted)))
            (λ h. some_target (sym (ap targets e) ∙ targets-matches type (map_of l).nodes ∙ h)))
  ]
    where
      above : List (Node EventType)
      above = upper_rest type (map_of l).nodes

      some_target : {t : ℕ} {ts : List ℕ} → t ∷ ts ≡ [] → ⊥
      some_target h = cc

  observers-insert :
      (type k : EventType) (object : ℕ) (l : Local z App)
      → IsWellFormed (map_of l)
      → member object (observers_of type l) ≡ false
      → observers k (insert type object (map_of l)).nodes
        ≡ (if is_eq (compare_types type k) then add object (observers_of k l) else observers_of k l)
  unfolding insert
  observers-insert type k object l v new = elim (Bool-cases (is_eq (compare_types type k))) [
    | inl same ↦
        let e : type ≡ k = ground (arith, eq_of_compare_types type k) in
        rw (observers-insert_node k (node type object l) (map_of l).nodes v.sorted, same)
          (rw (subst (λ x. member object (observers_of x l) ≡ false) e new))
    | inr other ↦ rw (observers-insert_node k (node type object l) (map_of l).nodes v.sorted, other)
  ]
    where
      node : EventType → ℕ → Local z App → Node EventType
      node ty t x = record { id = (map_of x).next_id; key = ty; target = t }

  pub Registering-observers :
      (type k : EventType) (object : ℕ) (l : Local z App) {r : Bool × Local z App}
      → IsWellFormed (map_of l)
      → Registering type object l r
      → observers_of k r.1
        ≡ (if is_eq (compare_types type k) then add object (observers_of k l) else observers_of k l)
  unfolding register_first
  Registering-observers type k object l v (again old) =
      elim (Bool-cases (is_eq (compare_types type k))) [
        | inl same ↦
            let e : type ≡ k = ground (arith, eq_of_compare_types type k) in
            rw same (rw (subst (λ x. member object (observers_of x l) ≡ true) e old))
        | inr other ↦ rw other
      ]
  Registering-observers type k object l v (more new ne) = observers-insert type k object l v new
  Registering-observers type k object l v (first e) =
      observers-insert type k object l v (ap (member object) e)

  -- With a well-formed map, after register_observer the target stands in the row of its type:
  -- where it stood, if it did, and at the end otherwise. The rows of the other types are as they
  -- were. This holds also when the answer is false.
  pub register_observer-observers :
      (type k : EventType) (object : ℕ) (l : Local z App)
      → IsWellFormed (map_of l)
      → observers_of k (register_observer z App type object l).1
        ≡ (if is_eq (compare_types type k) then add object (observers_of k l) else observers_of k l)
  register_observer-observers type k object l v =
      Registering-observers type k object l v (register_observer-cases type object l v)

  Registering-IsWellFormed :
      (type : EventType) (object : ℕ) (l : Local z App) {r : Bool × Local z App}
      → IsWellFormed (map_of l)
      → Registering type object l r
      → IsWellFormed (map_of r.1)
  unfolding register_first
  Registering-IsWellFormed type object l v (again old) = v
  Registering-IsWellFormed type object l v (more new ne) = insert-IsWellFormed type object v
  Registering-IsWellFormed type object l v (first e) = insert-IsWellFormed type object v

  -- register_observer keeps the map well formed: in the order of the types, with distinct nodes that
  -- are older than the next one.
  pub register_observer-IsWellFormed :
      (type : EventType) (object : ℕ) (l : Local z App)
      → IsWellFormed (map_of l)
      → IsWellFormed (map_of (register_observer z App type object l).1)
  register_observer-IsWellFormed type object l v =
      Registering-IsWellFormed type object l v (register_observer-cases type object l v)

  pub release_filter-map :
      (type : EventType) (l : Local z App) → map_of (release_filter z App type l).1 ≡ map_of l
  unfolding release_filter
  release_filter-map type l = ground arith

  -- With a well-formed map, unregister_observer takes the target out of the row of its type, if
  -- it stands there, and leaves the other rows alone; the map stays well formed.
  pub unregister_observer-observers :
      (type k : EventType) (object : ℕ) (l : Local z App)
      → IsWellFormed (map_of l)
      → let l' = (unregister_observer z App type object l).1 in
        (observers_of k l' ≡ removed type k object (map_of l).nodes) × IsWellFormed (map_of l')
  unfolding unregister_observer erase
  unregister_observer-observers type k object l v =
      elim (Option-cases (find_pair type object (map_of l).nodes)) [
        | inl absent ↦ rw (unregister_observer, absent) (removed-absent type k object _ absent, v)
        | inr (i, found) ↦
            rw (unregister_observer, found)
              (
                ap (λ (m : Multimap EventType). observers k m.nodes)
                      (release_filter-map type (erased i))
                    ∙ row i found,
                subst IsWellFormed (sym (release_filter-map type (erased i)))
                    (erase-IsWellFormed i v),
              )
      ]
    where
      erased : ℕ → Local z App
      erased i = with_map z App (erase i (map_of l)) l

      row :
          (i : ℕ)
          → find_pair type object (map_of l).nodes ≡ some i
          → observers k (erase i (map_of l)).nodes ≡ removed type k object (map_of l).nodes
      row i found = removed-found type k object (map_of l).nodes i v.distinct found
