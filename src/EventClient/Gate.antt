-- ===== src/EventClient/Gate.antt =====
-- What the filters of a client let through after any sequence of registrations: a filter is a prefix, so
-- the events of longer types come in too.
use event_bus_cpp.Prelude.{
  ℕ, Bool, true, false, List, [], ◌∷◌, ◌≡◌, subst, refl, sym, ap, ◌∙◌, arith, ◌||◌, ◌&&◌, ltb, ◌==◌,
}
use event_bus_cpp.Keys.{EventType, type_order, compare_types, is_eq}
use event_bus_cpp.Zmq.{Zmq, Documented, Bytes}
use event_bus_cpp.Multimap.{Multimap, observers, IsWellFormed, empty, empty-IsWellFormed}
use event_bus_cpp.EventClient.Defs.{Local, register_observer, unregister_observer}
use event_bus_cpp.EventClient.Registry.{map_of, observers_of}
use event_bus_cpp.EventClient.Released.{unregister_observer-Mirrors}
use event_bus_cpp.EventClient.Filters.{count, wanted, Mirrors, register_observer-Mirrors}
use event_bus_cpp.EventClient.Path.{begins_with, passes}
use event_bus_cpp.EventClient.Refines.{
  Op, observe, forget, call, run, replay, call_refines, run_refines,
}

-- Whether some prefix of a type, the type itself included, satisfies `P`.
unfoldable pub some_prefix : (EventType → Bool) → EventType → Bool
some_prefix P [] = P []
some_prefix P (x ∷ k) = P [] || some_prefix (λ p. P (x ∷ p)) k

some_prefix-cong :
    (P Q : EventType → Bool) (k : EventType)
    → ((p : EventType) → P p ≡ Q p)
    → some_prefix P k ≡ some_prefix Q k
unfolding some_prefix
some_prefix-cong P Q [] h = h []
some_prefix-cong P Q (x ∷ k) h =
    cc (h [], some_prefix-cong (λ p. P (x ∷ p)) (λ p. Q (x ∷ p)) k (λ p. h (x ∷ p)))

some_prefix-false : (k : EventType) → some_prefix (λ p. false) k ≡ false
unfolding some_prefix
some_prefix-false [] = refl
some_prefix-false (x ∷ k) = some_prefix-false k

some_prefix-or :
    (P Q : EventType → Bool) (k : EventType)
    → some_prefix (λ p. P p || Q p) k ≡ some_prefix P k || some_prefix Q k
unfolding some_prefix
some_prefix-or P Q [] = refl
some_prefix-or P Q (x ∷ k) = ground (arith, some_prefix-or (λ p. P (x ∷ p)) (λ p. Q (x ∷ p)) k)

some_prefix-and :
    (b : Bool) (P : EventType → Bool) (k : EventType)
    → some_prefix (λ p. b && P p) k ≡ b && some_prefix P k
some_prefix-and true P k = refl
some_prefix-and false P k = some_prefix-false k

same_byte :
    (y x : ℕ) (f p : EventType)
    → is_eq (compare_types (y ∷ f) (x ∷ p)) ≡ (x == y) && is_eq (compare_types f p)
unfolding compare_types
same_byte y x f p = ground arith

-- A filter lets through what has it as a prefix.
some_prefix-begins_with :
    (f k : EventType) → some_prefix (λ p. is_eq (compare_types f p)) k ≡ begins_with k f
unfolding some_prefix compare_types
some_prefix-begins_with [] [] = refl
some_prefix-begins_with [] (x ∷ k) = refl
some_prefix-begins_with (y ∷ f) [] = refl
some_prefix-begins_with (y ∷ f) (x ∷ k) =
    some_prefix-cong _ _ k (λ p. same_byte y x f p)
    ∙ some_prefix-and (x == y) (λ p. is_eq (compare_types f p)) k
    ∙ ap (λ (b : Bool). (x == y) && b) (some_prefix-begins_with f k)

counted :
    (f p : EventType) (fs : List Bytes)
    → ltb 0 (count p (f ∷ fs)) ≡ is_eq (compare_types f p) || ltb 0 (count p fs)
unfolding count
counted f p fs = ground arith

passes-count :
    (fs : List Bytes) (k : EventType) → passes fs k ≡ some_prefix (λ p. ltb 0 (count p fs)) k
unfolding count
passes-count [] k = sym (some_prefix-false k)
passes-count (f ∷ fs) k =
    ground (arith, passes-count fs k, some_prefix-begins_with f k)
    ∙ sym (some_prefix-or (λ p. is_eq (compare_types f p)) (λ p. ltb 0 (count p fs)) k)
    ∙ sym (some_prefix-cong _ _ k (λ p. counted f p fs))

-- Whether somebody stands in a row.
abbrev pub observed : List ℕ → Bool
observed [] = false
observed (t ∷ ts) = true

wanted-observed : (row : List ℕ) → ltb 0 (wanted row) ≡ observed row
wanted-observed [] = refl
wanted-observed (t ∷ ts) = refl

module _ (z : Zmq) (d : Documented z) (App : Type 0) where
  open d use {view}

  abbrev pub answer : Op → Local z App → Bool
  answer (observe type t) l = (register_observer z App type t l).0
  answer (forget type t) l = (unregister_observer z App type t l).0

  -- Whether every call answers true.
  unfoldable pub answered : List Op → Local z App → Bool
  answered [] l = true
  answered (op ∷ ops) l = answer op l && answered ops (call z App op l)

  call-Mirrors :
      (op : Op) (l : Local z App)
      → IsWellFormed (map_of z App l)
      → Mirrors z d App l
      → answer op l ≡ true
      → Mirrors z d App (call z App op l)
  call-Mirrors (observe type t) l v m ok = register_observer-Mirrors z d App type t l v m ok
  call-Mirrors (forget type t) l v m ok = unregister_observer-Mirrors z d App type t l v m ok

  -- From a well-formed map whose types are the filters, after any sequence of calls that all answer true
  -- the filters are again the observed types.
  pub run-Mirrors :
      (ops : List Op) (l : Local z App)
      → IsWellFormed (map_of z App l)
      → Mirrors z d App l
      → answered ops l ≡ true
      → Mirrors z d App (run z App ops l)
  unfolding run answered
  run-Mirrors [] l v m ok = m
  run-Mirrors (op ∷ ops) l v m ok =
      run-Mirrors ops (call z App op l) (call_refines z App op l v).0
        (call-Mirrors op l v m (ground arith)) (ground arith)

  -- From a client that observes nothing and whose socket has no filter, after any sequence of calls of
  -- register_observer and unregister_observer that all answer true, the socket's filters let an
  -- event through exactly if its type or a prefix of its type is observed, as the calls alone tell.
  pub passes-run :
      (ops : List Op) (l : Local z App) (k : EventType)
      → l.client.event_object_map ≡ empty
      → (view l.world).filters l.client.sub_socket ≡ []
      → answered ops l ≡ true
      → let l' = run z App ops l in
        passes ((view l'.world).filters l'.client.sub_socket) k
        ≡ some_prefix (λ p. observed (replay ops p [])) k
  unfolding observers empty count
  passes-run ops l k bare unset ok =
      let l' = run z App ops l in
      let v : IsWellFormed (map_of z App l) = subst IsWellFormed (sym bare) empty-IsWellFormed in
      let none : (p : EventType) → observers_of z App p l ≡ [] =
        λ p. ap (λ (m : Multimap EventType). observers p m.nodes) bare in
      let fresh : Mirrors z d App l = λ p. ap (count p) unset ∙ sym (ap wanted (none p)) in
      let mirrors = run-Mirrors ops l v fresh ok in
      let rows = (run_refines z App ops l v).1 in
      passes-count _ k
      ∙ some_prefix-cong _ _ k (λ p.
        ap (ltb 0) (mirrors p)
        ∙ wanted-observed (observers_of z App p l')
        ∙ ap observed (rows p ∙ ap (replay ops p) (none p)))
