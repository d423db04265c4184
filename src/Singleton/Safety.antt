-- ===== src/Singleton/Safety.antt =====
-- However the calls interleave, one object is made and every call returns it.
use event_bus_cpp.Prelude.{
  ℕ, ◌≡◌, ◌⊎◌, inl, refl, Option, none, some, Bool, true, false, arith, ◌≤◌,
}
use event_bus_cpp.Zmq.{update}
use event_bus_cpp.Singleton.{
  Shared, Pc, locked, creating, unlocking, reading, returned, Move, sees_object, lock, still_null,
  now_object, create, System, Step, pick, init, Reach, begin, later,
}

false≢true : false ≡ true → ⊥
false≢true h = cc

abbrev pub in_section : Pc → Bool
in_section locked = true
in_section creating = true
in_section unlocking = true
in_section _ = false

-- What the position of a thread says about the shared state.
abbrev pub Fits : Shared → Pc → Type 0
Fits m creating = m.instance_ ≡ none
Fits m unlocking = m.instance_ ≡ some 0
Fits m reading = m.instance_ ≡ some 0
Fits m (returned o) = (m.instance_ ≡ some 0) × (o ≡ some 0)
Fits m _ = Unit

pub record Inv (s : System) : Type 0 where
  pub made_once :
      ((s.shared.instance_ ≡ none) × (s.shared.made ≡ 0))
      ⊎ ((s.shared.instance_ ≡ some 0) × (s.shared.made ≡ 1))
  pub holder : (i : ℕ) → in_section (s.pc i) ≡ true → s.shared.mutex ≡ some i
  pub held : (i : ℕ) → s.shared.mutex ≡ some i → in_section (s.pc i) ≡ true
  pub fits : (i : ℕ) → Fits s.shared (s.pc i)

init-Inv : Inv init
init-Inv = record {
  made_once = inl (refl, refl);
  holder = λ i e. cc;
  held = λ i e. cc;
  fits = λ i. tt;
}

-- A match on `Move` needs a variable `p` for the place of the thread.
module _ (s : System) (inv : Inv s) (i : ℕ) where
  abbrev moved : Shared → Pc → System
  moved m p = record { shared = m; pc = update s.pc i p }

  Move-made_once :
      {p p' : Pc} {m : Shared}
      → Move i s.shared p m p'
      → s.pc i ≡ p
      → ((m.instance_ ≡ none) × (m.made ≡ 0)) ⊎ ((m.instance_ ≡ some 0) × (m.made ≡ 1))
  Move-made_once create e = ground (arith, inv.made_once, inv.fits i)
  Move-made_once mv e = ground (arith, inv.made_once)

  Move-holder :
      {p p' : Pc} {m : Shared}
      → Move i s.shared p m p'
      → s.pc i ≡ p
      → (j : ℕ) → in_section (update s.pc i p' j) ≡ true
      → m.mutex ≡ some j
  Move-holder (lock g) e j h = ground (arith, inv.holder j, inv.holder i)
  Move-holder mv e j h = ground (arith, inv.holder j, inv.holder i)

  Move-held :
      {p p' : Pc} {m : Shared}
      → Move i s.shared p m p'
      → s.pc i ≡ p
      → (j : ℕ) → m.mutex ≡ some j
      → in_section (update s.pc i p' j) ≡ true
  Move-held (lock g) e j h = ground (arith, inv.held j, inv.held i)
  Move-held mv e j h = ground (arith, inv.held j, inv.held i)

  Move-Fits :
      {p p' : Pc} {m : Shared}
      → Move i s.shared p m p'
      → s.pc i ≡ p
      → (j : ℕ) → Fits m (update s.pc i p' j)
  Move-Fits (sees_object g) e j = ground (arith, inv.made_once, inv.fits j, inv.fits i)
  Move-Fits (still_null g) e j = ground (arith, inv.made_once, inv.fits j, inv.fits i)
  Move-Fits (now_object g) e j = ground (arith, inv.made_once, inv.fits j, inv.fits i)
  Move-Fits create e j =
      ground (arith, inv.made_once, inv.fits j, inv.fits i, inv.holder i, inv.holder j)
  Move-Fits mv e j = ground (arith, inv.made_once, inv.fits j, inv.fits i)

pub Step-Inv : {s t : System} → Step s t → Inv s → Inv t
Step-Inv {s} (pick i mv) inv = record {
  made_once = Move-made_once s inv i mv refl;
  holder = Move-holder s inv i mv refl;
  held = Move-held s inv i mv refl;
  fits = Move-Fits s inv i mv refl;
}

pub Reach-Inv : {s : System} → Reach s → Inv s
Reach-Inv begin = init-Inv
Reach-Inv (later r st) = Step-Inv st (Reach-Inv r)

-- In every state that calls of instance() can reach, in any number of threads and any interleaving,
-- no second object has been made.
pub instance_made_once : {s : System} → Reach s → s.shared.made ≤ 1
instance_made_once {s} r = ground (arith, (Reach-Inv r).made_once)

-- In every state that calls of instance() can reach, a call that has returned has returned the first
-- object that was made, not NULL, and that object still is the one that the static pointer holds.
pub instance_one_object :
    {s : System}
    → Reach s
    → (i : ℕ) (o : Option ℕ) → s.pc i ≡ returned o
    → (o ≡ some 0) × (s.shared.instance_ ≡ some 0)
instance_one_object {s} r i o e = ground (arith, (Reach-Inv r).fits i)

-- In no state that calls of instance() can reach are two threads between lock and unlock together.
pub instance_exclusive :
    {s : System}
    → Reach s
    → (i j : ℕ) → in_section (s.pc i) ≡ true
    → in_section (s.pc j) ≡ true
    → i ≡ j
instance_exclusive r i j hi hj =
    let inv = Reach-Inv r in ground (arith, inv.holder i hi, inv.holder j hj)
