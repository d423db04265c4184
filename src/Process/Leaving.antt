-- ===== src/Process/Leaving.antt =====
-- How a thread leaves its loop in a process of many threads.
use event_bus_cpp.Prelude.{
  ℕ, true, ◌-◌, ◌≤◌, ◌==◌, if◌then◌else◌, ◌≡◌, refl, sym, subst, inl, inr, nat-cases, arith,
  if-true, if-false, Bool,
}
use event_bus_cpp.Zmq.{Zmq, update}
use event_bus_cpp.EventClient.Lifecycle.{Endpoints}
use event_bus_cpp.MThread.{task_begin, task_stop, task_exit}
use event_bus_cpp.MThread.Exit.{left, left-le, over, over_at, advance-left}
use event_bus_cpp.MThread.Loop.{Action, own, begins, stops, exits, act}
use event_bus_cpp.Process.{
  Seat, Process, Program, thread_of, seat_of, act_of, move, Step, thread, library, elsewhere,
  registers, Steps, stay, after,
}
use event_bus_cpp.Process.Alone.{is_own, own_step, owns_of}
use event_bus_cpp.Process.Untouched.{update_here, update_there}

module _ (z : Zmq) (ends : Endpoints) (App : Type 0) (g : Program z App) (i : ℕ) where
  -- At most so many steps are left to a thread that is to exit.
  abbrev Leaving : ℕ → Seat App → Type 0
  Leaving n s = (left s.place ≤ n) × (s.self.is_exit ≡ true)

  abbrev taken : Bool → ℕ
  taken b = if b then 1 else 0

  -- One action of the thread, at its seat.
  act-Leaving :
      (a : Action) (q : Process z App)
      → (q.seats i).self.is_exit ≡ true
      → let s = act_of z ends App g i a (thread_of z App i q) in
        Leaving (left (q.seats i).place - taken (is_own a)) (seat_of z App s)
  unfolding act task_begin task_stop task_exit
  act-Leaving own q h =
      let s = thread_of z App i q in
      advance-left z ends App (g.event_handle i) (g.fuel i) (g.ident i) (g.fresh i)
        (g.setup_thread i) (g.thread_run i) s.self s.place s.store s.pool h
  act-Leaving begins q h = (omega arith, h)
  act-Leaving stops q h = (omega arith, h)
  act-Leaving exits q h = (omega arith, refl)

  Step-Leaving :
      (p q : Process z App) (s : Step z ends App g p q)
      → (p.seats i).self.is_exit ≡ true
      → Leaving (left (p.seats i).place - taken (own_step i s)) (q.seats i)
  unfolding move
  Step-Leaving p q (thread j a) h =
      let n = left (p.seats i).place in
      let made = seat_of z App (act_of z ends App g j a (thread_of z App j p)) in
      let s' = update p.seats j made i in
      elim (nat-cases j i) [
        | inl same ↦
            let moved =
              subst (λ s. Leaving (n - taken (is_own a)) s) (sym (update_here p.seats i _))
                (act-Leaving a p h) in
            subst (λ b. Leaving (n - taken b) s') (sym (if-true (j == i) _ _ (ground arith)))
              (subst (λ j. Leaving (n - taken (is_own a)) ((move z ends App g j a p).seats i))
                (sym same) moved)
        | inr ne ↦
            subst (λ b. Leaving (n - taken b) s') (sym (if-false (j == i) _ _ (ground arith)))
              (subst (Leaving (n - 0)) (sym (update_there p.seats j i made ne)) (omega arith, h))
      ]
  Step-Leaving p q (library w) h = (omega arith, h)
  Step-Leaving p q (elsewhere a c ne) h = (omega arith, h)
  Step-Leaving p q (registers id a ne) h = (omega arith, h)

  Steps-Leaving :
      (p q : Process z App) (run : Steps z ends App g p q)
      → (p.seats i).self.is_exit ≡ true
      → Leaving (left (p.seats i).place - owns_of i run) (q.seats i)
  Steps-Leaving p q stay h = (omega arith, h)
  Steps-Leaving p q (after {q = m} run s) h =
      let before = Steps-Leaving p m run h in
      let now = Step-Leaving m q s before.1 in (omega (arith, before.0, now.0), now.1)

  -- Once task_exit has been called for a thread, four steps of its own are enough for it to leave the loop,
  -- wherever it stands and whatever the other threads, ZeroMQ and the rest of the process do
  -- meanwhile: _thread_run has returned, unless a call in it has crashed or run out of fuel.
  pub Steps-over :
      (p q : Process z App) (run : Steps z ends App g p q)
      → (p.seats i).self.is_exit ≡ true
      → 4 ≤ owns_of i run
      → over (q.seats i).place ≡ true
  Steps-over p q run h n =
      let gone = Steps-Leaving p q run h in
      over_at (q.seats i).place (omega (arith, left-le (p.seats i).place, gone.0))
