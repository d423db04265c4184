-- ===== src/Process/Alone.antt =====
-- What the rest of a process does to a thread that takes no step itself.
use event_bus_cpp.Prelude.{
  ℕ, Bool, true, false, ◌+◌, ◌==◌, if◌then◌else◌, ◌≡◌, refl, sym, ap, ◌∙◌, subst, inl, inr,
  nat-cases, arith, Bool-cases, if-true,
}
use event_bus_cpp.Keys.{EventType}
use event_bus_cpp.Multimap.{Multimap}
use event_bus_cpp.Zmq.{Zmq}
use event_bus_cpp.ClientCenter.{find_client}
use event_bus_cpp.EventClient.Lifecycle.{Endpoints}
use event_bus_cpp.MThread.{MThread, task_begin, task_stop, task_exit}
use event_bus_cpp.MThread.Loop.{Action, own, begins, stops, exits, act}
use event_bus_cpp.Process.{
  Seat, Process, Program, thread_of, put_thread, seat_of, move, Step, thread, library, elsewhere,
  registers, Steps, stay, after,
}
use event_bus_cpp.Process.Confined.{IsConfined}
use event_bus_cpp.Process.Untouched.{
  Untouched, update_here, elsewhere-Untouched, registers-Untouched,
}
use event_bus_cpp.Process.Sound.{IsSound, move-Untouched, Step-IsSound}

abbrev pub is_own : Action → Bool
is_own own = true
is_own a = false

module _ {z : Zmq} {ends : Endpoints} {App : Type 0} {g : Program z App} where
  abbrev pub own_step : {p q : Process z App} → ℕ → Step z ends App g p q → Bool
  own_step i (thread j a) = if j == i then is_own a else false
  own_step i (library w) = false
  own_step i (elsewhere a c ne) = false
  own_step i (registers id a ne) = false

  -- How many steps of a run are those of the thread `i` itself.
  abbrev pub owns_of : {p q : Process z App} → ℕ → Steps z ends App g p q → ℕ
  owns_of i stay = 0
  owns_of i (after run s) = owns_of i run + (if own_step i s then 1 else 0)

module _ (z : Zmq) (ends : Endpoints) (App : Type 0) (g : Program z App) where
  -- The thread stands where it stood, with its client and its objects as they were; the flags of its
  -- object may have changed.
  pub record Undisturbed (i : ℕ) (p q : Process z App) : Type 0 where
    pub place : (q.seats i).place ≡ (p.seats i).place
    pub app : (q.seats i).app ≡ (p.seats i).app
    pub thread_client : (q.seats i).self.thread_client ≡ (p.seats i).self.thread_client
    pub target : (q.seats i).self.target ≡ (p.seats i).self.target
    pub client : q.clients (g.fresh i) ≡ p.clients (g.fresh i)
    pub entry_ : find_client (g.ident i) q.pool ≡ find_client (g.ident i) p.pool

  untouched_lem : (i : ℕ) (p q : Process z App) → Untouched g i p q → Undisturbed i p q
  untouched_lem i p q u = record {
    place = ap (λ (s : Seat App). s.place) u.seat;
    app = ap (λ (s : Seat App). s.app) u.seat;
    thread_client = ap (λ (s : Seat App). s.self.thread_client) u.seat;
    target = ap (λ (s : Seat App). s.self.target) u.seat;
    client = u.client;
    entry_ = u.entry_;
  }

  trans_lem :
      (i : ℕ) (p q r : Process z App) → Undisturbed i p q → Undisturbed i q r → Undisturbed i p r
  trans_lem i p q r u v = record {
    place = v.place ∙ u.place;
    app = v.app ∙ u.app;
    thread_client = v.thread_client ∙ u.thread_client;
    target = v.target ∙ u.target;
    client = v.client ∙ u.client;
    entry_ = v.entry_ ∙ u.entry_;
  }

  flags_lem :
      (i : ℕ) (p : Process z App) (t : MThread)
      → t.thread_client ≡ (p.seats i).self.thread_client
      → t.target ≡ (p.seats i).self.target
      → Undisturbed i p (put_thread z App i (record (thread_of z App i p) { self = t }) p)
  flags_lem i p t client target =
      let here =
        update_here p.seats i (seat_of z App (record (thread_of z App i p) { self = t })) in
      record {
        place = ap (λ (s : Seat App). s.place) here;
        app = ap (λ (s : Seat App). s.app) here;
        thread_client = ap (λ (s : Seat App). s.self.thread_client) here ∙ client;
        target = ap (λ (s : Seat App). s.self.target) here ∙ target;
        client = refl;
        entry_ = refl;
      }

  called :
      (i : ℕ) (a : Action) (p : Process z App)
      → is_own a ≡ false
      → Undisturbed i p (move z ends App g i a p)
  unfolding move act task_begin task_stop task_exit
  called i own p h = cc
  called i begins p h = flags_lem i p (task_begin (p.seats i).self) refl refl
  called i stops p h = flags_lem i p (task_stop (p.seats i).self) refl refl
  called i exits p h = flags_lem i p (task_exit (p.seats i).self) refl refl

  module _ (fits : ℕ → Multimap EventType → App → Type 0) (k : IsConfined g fits) where
    Step-Undisturbed :
        (i : ℕ) (p q : Process z App) (s : Step z ends App g p q)
        → own_step i s ≡ false
        → IsSound z ends App g fits p
        → Undisturbed i p q
    Step-Undisturbed i p q (thread j a) e h = elim (nat-cases j i) [
      | inl same ↦
          subst (λ j. Undisturbed i p (move z ends App g j a p)) (sym same)
            (called i a p (sym (if-true (j == i) _ _ (ground arith)) ∙ e))
      | inr ne ↦ untouched_lem i p q (move-Untouched z ends App g fits k j i a p h ne)
    ]
    Step-Undisturbed i p q (library w) e h =
        untouched_lem i p q (record { seat = refl; client = refl; entry_ = refl })
    Step-Undisturbed i p q (elsewhere a c ne) e h =
        untouched_lem i p q (elsewhere-Untouched g i a c p ne)
    Step-Undisturbed i p q (registers id a ne) e h =
        untouched_lem i p q (registers-Untouched g i id a p h.sorted ne)

    pub Steps-Sound :
        (p q : Process z App)
        → Steps z ends App g p q
        → IsSound z ends App g fits p
        → IsSound z ends App g fits q
    Steps-Sound p q stay h = h
    Steps-Sound p q (after {q = m} run s) h =
        Step-IsSound z ends App g fits k m q s (Steps-Sound p m run h)

    -- In a run from a sound process in which a thread takes no step of its own, whatever the other
    -- threads, ZeroMQ and the rest of the process do and whichever task methods of its object they
    -- call: the thread
    -- stands where it stood, with its client, its observers and its own objects as they were, and the
    -- pool leads to the same client. The code of each thread uses its own client and no other.
    pub Steps-Undisturbed :
        (i : ℕ) (p q : Process z App) (run : Steps z ends App g p q)
        → owns_of i run ≡ 0
        → IsSound z ends App g fits p
        → Undisturbed i p q
    Steps-Undisturbed i p q stay e h = record {
      place = refl;
      app = refl;
      thread_client = refl;
      target = refl;
      client = refl;
      entry_ = refl;
    }
    Steps-Undisturbed i p q (after {q = m} run s) e h = elim (Bool-cases (own_step i s)) [
      | inl moves ↦ absurd (ground (arith, moves))
      | inr waits ↦
          trans_lem i p m q (Steps-Undisturbed i p m run (ground arith) h)
            (Step-Undisturbed i m q s waits (Steps-Sound p m run h))
    ]
