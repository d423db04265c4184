-- ===== src/EventClient/Refines.antt =====
-- Any sequence of registrations, against two specifications: the rows of the targets by type, and for
-- each target alone the last call that was about it.
use event_bus_cpp.Prelude.{
  ℕ, Bool, true, false, List, [], ◌∷◌, ◌++◌, ◌≡◌, ◌≢◌, subst, refl, sym, ap, ◌∙◌, arith, ◌+◌, ◌-◌,
  ◌==◌, ◌&&◌, if◌then◌else◌,
}
use event_bus_cpp.Keys.{EventType, type_order, compare_types, is_eq}
use event_bus_cpp.Zmq.{Zmq}
use event_bus_cpp.Multimap.{Multimap, observers, IsWellFormed, empty, empty-IsWellFormed}
use event_bus_cpp.EventClient.Defs.{Local, register_observer, unregister_observer}
use event_bus_cpp.EventClient.Pairs.{member, remove}
use event_bus_cpp.EventClient.Registry.{
  add, map_of, observers_of, register_observer-observers, register_observer-IsWellFormed,
  unregister_observer-observers,
}

-- The calls of a client.
pub data Op : Type 0 where
  observe : EventType → ℕ → Op
  forget : EventType → ℕ → Op

-- What the rows become. The answers of the calls play no part.
abbrev pub after : Op → EventType → List ℕ → List ℕ
after (observe type t) k row = if is_eq (compare_types type k) then add t row else row
after (forget type t) k row = if is_eq (compare_types type k) then remove t row else row

unfoldable pub replay : List Op → EventType → List ℕ → List ℕ
replay [] k row = row
replay (op ∷ ops) k row = replay ops k (after op k row)

-- Whether a target observes a type after the calls, when it did before: the last call about both tells.
abbrev pub decides : Op → EventType → ℕ → Bool → Bool
decides (observe type u) k t b = if is_eq (compare_types type k) && (u == t) then true else b
decides (forget type u) k t b = if is_eq (compare_types type k) && (u == t) then false else b

unfoldable pub observes : List Op → EventType → ℕ → Bool → Bool
observes [] k t b = b
observes (op ∷ ops) k t b = observes ops k t (decides op k t b)

abbrev pub occurrences : ℕ → List ℕ → ℕ
occurrences t [] = 0
occurrences t (u ∷ us) = (if u == t then 1 else 0) + occurrences t us

abbrev pub bit : Bool → ℕ
bit true = 1
bit false = 0

occurrences-append :
    (t : ℕ) (us vs : List ℕ) → occurrences t (us ++ vs) ≡ occurrences t us + occurrences t vs
occurrences-append t [] vs = omega arith
occurrences-append t (u ∷ us) vs = omega (arith, occurrences-append t us vs)

occurrences-member : (t : ℕ) (us : List ℕ) → member t us ≡ false → occurrences t us ≡ 0
occurrences-member t [] h = refl
occurrences-member t (u ∷ us) h = ground (arith, occurrences-member t us)

member-occurrences : (t : ℕ) (us : List ℕ) → member t us ≡ true → occurrences t us ≢ 0
member-occurrences t [] h = cc
member-occurrences t (u ∷ us) h = ground (arith, member-occurrences t us)

occurrences-remove :
    (t u : ℕ) (us : List ℕ)
    → occurrences t (remove u us) ≡ (if u == t then occurrences t us - 1 else occurrences t us)
occurrences-remove t u [] = ground arith
occurrences-remove t u (x ∷ us) = ground (arith, occurrences-remove t u us)

pub after-occurrences :
    (op : Op) (k : EventType) (t : ℕ) (row : List ℕ) (b : Bool)
    → occurrences t row ≡ bit b
    → occurrences t (after op k row) ≡ bit (decides op k t b)
after-occurrences (observe type u) k t row b h =
    ground
      (arith, occurrences-append t row (u ∷ []), occurrences-member u row, member-occurrences u row)
after-occurrences (forget type u) k t row b h = ground (arith, occurrences-remove t u row)

pub replay-occurrences :
    (ops : List Op) (k : EventType) (t : ℕ) (row : List ℕ) (b : Bool)
    → occurrences t row ≡ bit b
    → occurrences t (replay ops k row) ≡ bit (observes ops k t b)
unfolding replay observes
replay-occurrences [] k t row b h = h
replay-occurrences (op ∷ ops) k t row b h =
    replay-occurrences ops k t (after op k row) (decides op k t b)
      (after-occurrences op k t row b h)

module _ (z : Zmq) (App : Type 0) where
  abbrev pub call : Op → Local z App → Local z App
  call (observe type t) l = (register_observer z App type t l).1
  call (forget type t) l = (unregister_observer z App type t l).1

  unfoldable pub run : List Op → Local z App → Local z App
  run [] l = l
  run (op ∷ ops) l = run ops (call op l)

  pub call_refines :
      (op : Op) (l : Local z App)
      → IsWellFormed (map_of z App l)
      → IsWellFormed (map_of z App (call op l))
        × ((k : EventType) → observers_of z App k (call op l) ≡ after op k (observers_of z App k l))
  call_refines (observe type t) l v = (
    register_observer-IsWellFormed z App type t l v,
    λ k. register_observer-observers z App type k t l v,
  )
  call_refines (forget type t) l v = (
    (unregister_observer-observers z App type type t l v).1,
    λ k. (unregister_observer-observers z App type k t l v).0,
  )

  -- From a well-formed map, any sequence of calls of register_observer and unregister_observer leaves a
  -- well-formed map, whose rows are those that the calls make of the rows alone.
  pub run_refines :
      (ops : List Op) (l : Local z App)
      → IsWellFormed (map_of z App l)
      → IsWellFormed (map_of z App (run ops l))
        × ((k : EventType)
            → observers_of z App k (run ops l) ≡ replay ops k (observers_of z App k l))
  unfolding run replay
  run_refines [] l v = (v, λ k. refl)
  run_refines (op ∷ ops) l v =
      let (valid, rows) = call_refines op l v in
      let (valid', rows') = run_refines ops (call op l) valid in
      (valid', λ k. rows' k ∙ ap (replay ops k) (rows k))

  -- From an empty map, after any sequence of calls of register_observer and unregister_observer and
  -- whatever they answer, a target stands once in the row of a type if the last call about the two was
  -- register_observer, and not at all otherwise.
  pub run-empty_refines :
      (ops : List Op) (l : Local z App) (k : EventType) (t : ℕ)
      → l.client.event_object_map ≡ empty
      → occurrences t (observers_of z App k (run ops l)) ≡ bit (observes ops k t false)
  unfolding observers empty
  run-empty_refines ops l k t e =
      let v : IsWellFormed (map_of z App l) = subst IsWellFormed (sym e) empty-IsWellFormed in
      let bare : observers_of z App k l ≡ [] =
        ap (λ (m : Multimap EventType). observers k m.nodes) e in
      ap (occurrences t) ((run_refines ops l v).1 k)
      ∙ replay-occurrences ops k t _ false (ap (occurrences t) bare)
