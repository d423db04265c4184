-- ===== src/EventClient/Filters.antt =====
-- The filters of the SUB socket against the observers of the client, and what registering does to them.
use event_bus_cpp.Prelude.{
  ℕ, suc, Bool, true, false, List, [], ◌∷◌, ◌≡◌, ◌⊎◌, inl, inr, ◌≢◌, refl, sym, subst, ◌∙◌, arith,
  if◌then◌else◌, Bool-cases,
}
use event_bus_cpp.Keys.{
  EventType, type_order, compare_types, eq_of_compare_types, compare_types_refl, is_eq,
}
use event_bus_cpp.Multimap.{IsWellFormed}
use event_bus_cpp.Zmq.{Zmq, Documented, Bytes}
use event_bus_cpp.EventClient.Defs.{Local, register_first, register_observer}
use event_bus_cpp.EventClient.Registry.{
  add, map_of, observers_of, Registering, again, more, first, register_observer-cases,
  register_observer-IsWellFormed, Registering-observers,
}

-- How many times a filter is set.
unfoldable pub count : EventType → List Bytes → ℕ
count k [] = 0
count k (f ∷ fs) = if is_eq (compare_types f k) then suc (count k fs) else count k fs

abbrev pub is_nil : List ℕ → Bool
is_nil [] = true
is_nil (t ∷ ts) = false

-- One filter for a type with observers, none for any other.
abbrev pub wanted : List ℕ → ℕ
wanted [] = 0
wanted (t ∷ ts) = 1

pub wanted-add : (t : ℕ) (ts : List ℕ) → wanted (add t ts) ≡ 1
wanted-add t [] = refl
wanted-add t (u ∷ us) = ground arith

true≢false : true ≡ false → ⊥
true≢false h = cc

some_target : {t : ℕ} {ts : List ℕ} → t ∷ ts ≡ [] → ⊥
some_target h = cc

pub nonempty_wanted : (ts : List ℕ) → ts ≢ [] → wanted ts ≡ 1
nonempty_wanted [] h = absurd (h refl)
nonempty_wanted (t ∷ ts) h = refl

module _ (z : Zmq) (d : Documented z) (App : Type 0) where
  open d use {view}

  -- How often the SUB socket of the client has the filter `k`.
  abbrev pub set_filters : EventType → Local z App → ℕ
  set_filters k l = count k ((view l.world).filters l.client.sub_socket)

  -- The filters are those of the observed types, each set once.
  abbrev pub Mirrors : Local z App → Type 0
  Mirrors l = (k : EventType) → set_filters k l ≡ wanted (observers_of z App k l)

  register_first-filters :
      (type k : EventType) (object : ℕ) (l : Local z App)
      → let r = register_first z App type object l in
        ((r.0 ≡ true)
          × (set_filters k r.1
              ≡ (if is_eq (compare_types type k) then suc (set_filters k l) else set_filters k l)))
        ⊎ ((r.0 ≡ false) × (set_filters k r.1 ≡ set_filters k l))
  unfolding register_first count
  register_first-filters type k object l =
      elim (d.subscribe_view l.client.sub_socket type l.world) [
        | inl (rc, e) ↦ inl (ground arith, ground arith)
        | inr (n, err, rc, e) ↦ inr (ground arith, ground arith)
      ]

  Registering-Mirrors :
      (type k : EventType) (object : ℕ) (l : Local z App) {r : Bool × Local z App}
      → IsWellFormed (map_of z App l)
      → Mirrors l
      → Registering z App type object l r
      → r.0 ≡ true
      → set_filters k r.1 ≡ wanted (observers_of z App k r.1)
  Registering-Mirrors type k object l v m (again old) e = m k
  Registering-Mirrors type k object l v m (more new ne) e =
      m k
      ∙ (rw (Registering-observers z App type k object l v (more new ne))
          (elim (Bool-cases (is_eq (compare_types type k))) [
            | inl same ↦
                let here : type ≡ k = ground (arith, eq_of_compare_types type k) in
                rw (same, wanted-add object (observers_of z App k l))
                  (nonempty_wanted (observers_of z App k l)
                    (subst (λ x. observers_of z App x l ≢ []) here ne))
            | inr other ↦ rw other
          ]))
  Registering-Mirrors type k object l v m (first none_yet) e =
      elim (register_first-filters type k object l) [
        | inr (failed, _) ↦ absurd (true≢false (sym e ∙ failed))
        | inl (_, filters) ↦
            filters
            ∙ (rw (Registering-observers z App type k object l v (first none_yet))
                (elim (Bool-cases (is_eq (compare_types type k))) [
                  | inl same ↦
                      let here : type ≡ k = ground (arith, eq_of_compare_types type k) in
                      rw (
                        same,
                        wanted-add object (observers_of z App k l),
                        m k,
                        subst (λ x. observers_of z App x l ≡ []) here none_yet,
                      )
                  | inr other ↦ rw (other, m k)
                ]))
      ]

  -- With a well-formed map, when register_observer answers true, the socket has one filter for
  -- each observed type and none for any other, if it was so before.
  pub register_observer-Mirrors :
      (type : EventType) (object : ℕ) (l : Local z App)
      → IsWellFormed (map_of z App l)
      → Mirrors l
      → (register_observer z App type object l).0 ≡ true
      → Mirrors (register_observer z App type object l).1
  register_observer-Mirrors type object l v m e k =
      Registering-Mirrors type k object l v m (register_observer-cases z App type object l v) e

  refused_first :
      (type k : EventType) (object : ℕ) (l : Local z App) {r : Bool × Local z App}
      → Registering z App type object l r
      → r.0 ≡ false
      → (observers_of z App type l ≡ []) × (set_filters k r.1 ≡ set_filters k l)
  refused_first type k object l (again old) e = cc
  refused_first type k object l (more new ne) e = cc
  refused_first type k object l (first none_yet) e = (
    none_yet,
    elim (register_first-filters type k object l) [
      | inl (ok, _) ↦ absurd (true≢false (sym ok ∙ e))
      | inr (_, same) ↦ same
    ],
  )

  joins_silently :
      (type : EventType) (object : ℕ) (l : Local z App) {r : Bool × Local z App}
      → Registering z App type object l r
      → observers_of z App type l ≢ []
      → (r.0 ≡ true) × (r.1.world ≡ l.world)
  joins_silently type object l (again old) ne = (refl, refl)
  joins_silently type object l (more new _) ne = (refl, refl)
  joins_silently type object l (first none_yet) ne = absurd (ne none_yet)

  -- With a well-formed map, when register_observer answers false the target has become the only observer
  -- of its type all the same, and no filter has changed; and the next registration for that type, of
  -- whatever target, answers true and leaves ZeroMQ as it is, so that the filter is not asked for.
  pub register_observer_refused :
      (type k : EventType) (object other : ℕ) (l : Local z App)
      → IsWellFormed (map_of z App l)
      → (register_observer z App type object l).0 ≡ false
      → let l' = (register_observer z App type object l).1 in
        let r = register_observer z App type other l' in
        (observers_of z App type l' ≡ object ∷ [])
        × (set_filters k l' ≡ set_filters k l)
        × (r.0 ≡ true)
        × (r.1.world ≡ l'.world)
  register_observer_refused type k object other l v e =
      let l' : Local z App = (register_observer z App type object l).1 in
      let way = register_observer-cases z App type object l v in
      let (none_yet, same) = refused_first type k object l way e in
      let row : observers_of z App type l' ≡ object ∷ [] =
        Registering-observers z App type type object l v way
        ∙ (rw (compare_types_refl type, none_yet)) in
      let (ok, quiet) =
        joins_silently type other l'
          (register_observer-cases z App type other l'
            (register_observer-IsWellFormed z App type object l v))
          (λ h. some_target (sym row ∙ h)) in
      (row, same, ok, quiet)
