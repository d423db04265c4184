-- ===== src/EventClient/Released.antt =====
-- The filters of the SUB socket when an observer leaves.
use event_bus_cpp.Prelude.{
  ℕ, Bool, true, false, some, List, [], ◌∷◌, ◌≡◌, inl, inr, refl, sym, ap, ◌∙◌, arith,
  if◌then◌else◌, Bool-cases, Option-cases, ◌-◌, ◌&&◌,
}
use event_bus_cpp.Keys.{
  EventType, type_order, compare_types, eq_of_compare_types, compare_types_refl, is_eq,
}
use event_bus_cpp.Multimap.{
  Multimap, observers, IsWellFormed, find, find_rest-cases, targets-matches, erase, same_iter,
  past_end, iter_of, erase-IsWellFormed,
}
use event_bus_cpp.Zmq.{Zmq, Documented, Bytes, remove_filter}
use event_bus_cpp.EventClient.Defs.{Local, find_pair, with_map, release_filter, unregister_observer}
use event_bus_cpp.EventClient.Pairs.{same_type, find_pair-nonempty, removed-found}
use event_bus_cpp.EventClient.Registry.{map_of, observers_of, release_filter-map}
use event_bus_cpp.EventClient.Filters.{count, is_nil, wanted, nonempty_wanted, set_filters, Mirrors}

count-remove_filter :
    (f k : EventType) (fs : List Bytes)
    → count k (remove_filter f fs)
      ≡ (if is_eq (compare_types f k) then count k fs - 1 else count k fs)
unfolding count remove_filter
count-remove_filter f k [] = ground arith
count-remove_filter f k (g ∷ fs) = ground (
  arith,
  count-remove_filter f k fs,
  eq_of_compare_types g f,
  eq_of_compare_types f k,
  compare_types_refl g,
  compare_types_refl f,
)

find-past_end :
    (k : EventType) (m : Multimap EventType)
    → IsWellFormed m
    → same_iter (find k m) past_end ≡ is_nil (observers k m.nodes)
unfolding find same_iter iter_of
find-past_end k m v = elim (find_rest-cases k m.nodes v.sorted) [
  | inl (unmatched, nowhere) ↦ rw (nowhere, ← targets-matches k m.nodes, unmatched)
  | inr (n, rest, e, there) ↦ rw (there, ← targets-matches k m.nodes, e)
]

module _ (z : Zmq) (d : Documented z) (App : Type 0) where
  open d use {view}

  release_filter-filters :
      (type k : EventType) (l : Local z App)
      → IsWellFormed (map_of z App l)
      → let r = release_filter z App type l in
        r.0 ≡ true
        → set_filters z d App k r.1 ≡ (
            if is_nil (observers_of z App type l) && is_eq (compare_types type k)
            then set_filters z d App k l - 1
            else set_filters z d App k l)
  unfolding release_filter
  release_filter-filters type k l v = ground (
    arith,
    find-past_end type (map_of z App l) v,
    d.unsubscribe_view l.client.sub_socket type l.world,
    count-remove_filter type k ((view l.world).filters l.client.sub_socket),
  )

  -- Erasing a node of `type` leaves every row as empty as the filters that remain.
  Mirrors-removed :
      (type k : EventType) (object i : ℕ) (l : Local z App)
      → IsWellFormed (map_of z App l)
      → Mirrors z d App l
      → find_pair type object (map_of z App l).nodes ≡ some i
      → let l' = with_map z App (erase i (map_of z App l)) l in
        (if is_nil (observers_of z App type l') && is_eq (compare_types type k)
          then set_filters z d App k l - 1
          else set_filters z d App k l)
        ≡ wanted (observers_of z App k l')
  unfolding erase
  Mirrors-removed type k object i l v m found = elim (Bool-cases (is_eq (compare_types type k))) [
    | inl same ↦
        rw
          (
            same,
            ← same_type type k same,
            m type,
            nonempty_wanted _ (find_pair-nonempty type object i _ found),
          )
          (emptied (observers_of z App type l'))
    | inr other ↦
        rw (other, m k)
          (untouched (is_nil (observers_of z App type l')) _ _
            (ap wanted (sym (removed-found type k object _ i v.distinct found ∙ rw other))))
  ]
    where
      l' : Local z App
      l' = with_map z App (erase i (map_of z App l)) l

      emptied : (ts : List ℕ) → (if is_nil ts && true then 1 - 1 else 1) ≡ wanted ts
      emptied [] = refl
      emptied (t ∷ ts) = refl

      untouched : (b : Bool) (x y : ℕ) → x ≡ y → (if b && false then x - 1 else x) ≡ y
      untouched true x y e = e
      untouched false x y e = e

  -- With a well-formed map, when unregister_observer answers true, the socket again has one
  -- filter for each type that is still observed and none for any other, if it was so before.
  pub unregister_observer-Mirrors :
      (type : EventType) (object : ℕ) (l : Local z App)
      → IsWellFormed (map_of z App l)
      → Mirrors z d App l
      → (unregister_observer z App type object l).0 ≡ true
      → Mirrors z d App (unregister_observer z App type object l).1
  unfolding unregister_observer
  unregister_observer-Mirrors type object l v m e k =
      elim (Option-cases (find_pair type object (map_of z App l).nodes)) [
        | inl absent ↦ rw (unregister_observer, absent) (m k)
        | inr (i, found) ↦
            rw (unregister_observer, found)
              (release_filter-filters type k (erased i) (erase-IsWellFormed i v) (answer i found)
                ∙ Mirrors-removed type k object i l v m found
                ∙ ap (λ (x : Multimap EventType). wanted (observers k x.nodes))
                    (sym (release_filter-map z App type (erased i))))
      ]
    where
      erased : ℕ → Local z App
      erased i = with_map z App (erase i (map_of z App l)) l

      answer :
          (i : ℕ)
          → find_pair type object (map_of z App l).nodes ≡ some i
          → (release_filter z App type (erased i)).0 ≡ true
      answer i found = rw (found, unregister_observer) at e
