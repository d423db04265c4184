-- ===== src/Singleton/Progress.antt =====
-- A call of instance() can always come to its end, wherever it and all the others stand.
use event_bus_cpp.Prelude.{
  ℕ, ◌≡◌, ◌≢◌, none, some, Option, true, refl, arith, subst, sym, ap, ◌∙◌, inl, inr, Option-cases,
}
use event_bus_cpp.Zmq.{update}
use event_bus_cpp.Singleton.{
  Shared, Pc, start, locking, locked, creating, unlocking, reading, returned, Move, sees_null,
  sees_object, lock, still_null, now_object, create, unlock, read, System, Step, pick, Reach, later,
}
use event_bus_cpp.Singleton.Safety.{in_section, Inv, Step-Inv, Reach-Inv, instance_one_object}

-- The steps that lead from one state to another.
pub data Steps : System → System → Type 0 where
  now : {s : System} → Steps s s
  next : {s t u : System} → Step s t → Steps t u → Steps s u

Reach-Steps : {s t : System} → Reach s → Steps s t → Reach t
Reach-Steps r now = r
Reach-Steps r (next st more) = Reach-Steps (later r st) more

-- Some steps lead to the return of the call in the thread `i`.
abbrev Returns : ℕ → System → Type 0
Returns i s = (t : System) × Steps s t × (o : Option ℕ) × (t.pc i ≡ returned o)

-- What one step of the thread `j` makes of the state.
abbrev moved : ℕ → Shared → Pc → System → System
moved j m p s = record { shared = m; pc = update s.pc j p }

pick_at :
    (j : ℕ) (s : System) {p p' : Pc} {m : Shared}
    → s.pc j ≡ p
    → Move j s.shared p m p'
    → Step s (moved j m p' s)
pick_at j s {p'} {m} e mv = pick j (subst (λ (x : Pc). Move j s.shared x m p') (sym e) mv)

step_lem :
    (i j : ℕ) (s : System) {p p' : Pc} {m : Shared}
    → s.pc j ≡ p
    → Move j s.shared p m p'
    → Returns i (moved j m p' s)
    → Returns i s
step_lem i j s e mv (t, more, o, ends) = (t, next (pick_at j s e mv) more, o, ends)

here_lem : (i : ℕ) (p : Pc) (s : System) → update s.pc i p i ≡ p
here_lem i p s = ground arith

there_lem : (i j : ℕ) (p : Pc) (s : System) → i ≢ j → update s.pc j p i ≡ s.pc i
there_lem i j p s ne = ground arith

-- From each place of a call to the next, back from the last.
from_reading : (i : ℕ) (s : System) → s.pc i ≡ reading → Returns i s
from_reading i s e = step_lem i i s e read (_, now, _, here_lem i _ s)

from_unlocking : (i : ℕ) (s : System) → s.pc i ≡ unlocking → Returns i s
from_unlocking i s e = step_lem i i s e unlock (from_reading i _ (here_lem i _ s))

from_creating : (i : ℕ) (s : System) → s.pc i ≡ creating → Returns i s
from_creating i s e = step_lem i i s e create (from_unlocking i _ (here_lem i _ s))

from_locked : (i : ℕ) (s : System) → s.pc i ≡ locked → Returns i s
from_locked i s e = elim (Option-cases s.shared.instance_) [
  | inl null ↦ step_lem i i s e (still_null null) (from_creating i _ (here_lem i _ s))
  | inr (o, object) ↦ step_lem i i s e (now_object object) (from_unlocking i _ (here_lem i _ s))
]

from_free : (i : ℕ) (s : System) → s.pc i ≡ locking → s.shared.mutex ≡ none → Returns i s
from_free i s e free = step_lem i i s e (lock free) (from_locked i _ (here_lem i _ s))

-- The thread `i` waits for the mutex, which `j` gives back.
module _ (i j : ℕ) (ne : i ≢ j) where
  past_unlocking : (s : System) → s.pc i ≡ locking → s.pc j ≡ unlocking → Returns i s
  past_unlocking s e e' = step_lem i j s e' unlock (from_free i _ (there_lem i j _ s ne ∙ e) refl)

  past_creating : (s : System) → s.pc i ≡ locking → s.pc j ≡ creating → Returns i s
  past_creating s e e' =
      step_lem i j s e' create (past_unlocking _ (there_lem i j _ s ne ∙ e) (here_lem j _ s))

  past_locked : (s : System) → s.pc i ≡ locking → s.pc j ≡ locked → Returns i s
  past_locked s e e' = elim (Option-cases s.shared.instance_) [
    | inl null ↦
        step_lem i j s e' (still_null null)
          (past_creating _ (there_lem i j _ s ne ∙ e) (here_lem j _ s))
    | inr (o, object) ↦
        step_lem i j s e' (now_object object)
          (past_unlocking _ (there_lem i j _ s ne ∙ e) (here_lem j _ s))
  ]

  past : (s : System) (p : Pc) → s.pc i ≡ locking → s.pc j ≡ p → in_section p ≡ true → Returns i s
  past s locked e e' h = past_locked s e e'
  past s creating e e' h = past_creating s e e'
  past s unlocking e e' h = past_unlocking s e e'
  past s start e e' h = cc
  past s locking e e' h = cc
  past s reading e e' h = cc
  past s (returned o) e e' h = cc

from_locking : (i : ℕ) (s : System) → Inv s → s.pc i ≡ locking → Returns i s
from_locking i s inv e = elim (Option-cases s.shared.mutex) [
  | inl free ↦ from_free i s e free
  | inr (j, taken) ↦
      past i j (λ same. ground (arith, inv.held j taken)) s (s.pc j) e refl (inv.held j taken)
]

from_any : (i : ℕ) (s : System) (p : Pc) → Inv s → s.pc i ≡ p → Returns i s
from_any i s start inv e = elim (Option-cases s.shared.instance_) [
  | inl null ↦
      step_lem i i s e (sees_null null)
        (from_locking i _ (Step-Inv (pick_at i s e (sees_null null)) inv) (here_lem i _ s))
  | inr (o, object) ↦ step_lem i i s e (sees_object object) (from_reading i _ (here_lem i _ s))
]
from_any i s locking inv e = from_locking i s inv e
from_any i s locked inv e = from_locked i s e
from_any i s creating inv e = from_creating i s e
from_any i s unlocking inv e = from_unlocking i s e
from_any i s reading inv e = from_reading i s e
from_any i s (returned o) inv e = (s, now, o, e)

-- In every state that calls of instance() can reach, in any number of threads and any interleaving, and
-- for every thread, some steps lead to the return of its call; and it then returns the first object
-- that was made. So no call is ever locked out.
pub instance_can_return :
    {s : System} → Reach s → (i : ℕ) → (t : System) × Steps s t × (t.pc i ≡ returned (some 0))
instance_can_return {s} r i =
    let (t, more, o, e) = from_any i s (s.pc i) (Reach-Inv r) refl in
    let (first, _) = instance_one_object (Reach-Steps r more) i o e in
    (t, more, e ∙ ap returned first)
