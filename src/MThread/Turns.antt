-- ===== src/MThread/Turns.antt =====
-- What _thread_run does before the loop and in one turn of it.
use event_bus_cpp.Prelude.{
  ℕ, true, false, some, List, [], ◌∷◌, if◌then◌else◌, ◌≡◌, refl, sym, ◌∙◌, ap, inl, inr,
  Option-cases, Bool-cases, if-true, if-false,
}
use event_bus_cpp.Prelude.Int.{ℤ}
use event_bus_cpp.Keys.{EventType, EventContent}
use event_bus_cpp.Zmq.{Zmq}
use event_bus_cpp.ClientCenter.{Pool}
use event_bus_cpp.EventClient.Defs.{Local, Outcome, done, fault, out_of_fuel, handle_event}
use event_bus_cpp.EventClient.Lifecycle.{Endpoints, construct}
use event_bus_cpp.EventTarget.{Store, set_client, tell_client}
use event_bus_cpp.MThread.{MThread, task_begin, task_stop, task_exit}
use event_bus_cpp.MThread.Loop.{
  Place, entry, exit_test, handling, run_test, sleeping, running, ended, crashed, exhausted, Thread,
  Action, own, begins, stops, exits, arrive, enter, advance, act, play,
}
use event_bus_cpp.MThread.Exit.{entered}

module _ (z : Zmq) (App : Type 0) (fresh : ℕ) where
  -- Both pointers to the thread's client are set once the thread is in its loop.
  abbrev pub Attached : Thread z App → Type 0
  Attached s =
      entered s.place ≡ true
      → (s.self.thread_client ≡ some fresh) × (s.self.target.client ≡ some fresh)

  arrive-Attached :
      (p : Place) (o : Outcome (Store z App)) (s : Thread z App)
      → (s.self.thread_client ≡ some fresh) × (s.self.target.client ≡ some fresh)
      → Attached (arrive z App p o s)
  arrive-Attached p (done st) s h e = h
  arrive-Attached p fault s h e = cc
  arrive-Attached p out_of_fuel s h e = cc

module _ (z : Zmq) (ends : Endpoints) (App : Type 0)
    (event_handle : ℕ → EventType → EventContent → Local z App → ℤ × Local z App)
    (fuel id fresh : ℕ) (setup_thread : Pool → MThread → Store z App → Outcome (Store z App))
    (thread_run : MThread → Store z App → Outcome (Store z App)) where
  abbrev step : Thread z App → Thread z App
  step = advance z ends App event_handle fuel id fresh setup_thread thread_run

  abbrev plays : List Action → Thread z App → Thread z App
  plays = play z ends App event_handle fuel id fresh setup_thread thread_run

  abbrev at : MThread → Place → Store z App → Pool → Thread z App
  at self p st pool = record { self = self; place = p; store = st; pool = pool }

  enter-Attached :
      (s : Thread z App)
      → Attached z App fresh (enter z ends App event_handle fuel id fresh setup_thread thread_run s)
  unfolding enter set_client
  enter-Attached s = elim (Option-cases (construct z ends id fresh s.pool s.store.world)) [
    | inl e ↦ rw (e, enter) (λ h. cc)
    | inr ((c, pool, w), e) ↦ rw (e, enter) (arrive-Attached z App fresh exit_test _ _ (refl, refl))
  ]

  advance-Attached :
      (self : MThread) (p : Place) (st : Store z App) (pool : Pool)
      → Attached z App fresh (at self p st pool)
      → Attached z App fresh (step (at self p st pool))
  unfolding advance
  advance-Attached self entry st pool h = enter-Attached (at self entry st pool)
  advance-Attached self exit_test st pool h = λ e. h refl
  advance-Attached self handling st pool h = arrive-Attached z App fresh run_test _ _ (h refl)
  advance-Attached self run_test st pool h = λ e. h refl
  advance-Attached self sleeping st pool h = λ e. h refl
  advance-Attached self running st pool h = arrive-Attached z App fresh exit_test _ _ (h refl)
  advance-Attached self ended st pool h = h
  advance-Attached self crashed st pool h = h
  advance-Attached self exhausted st pool h = h

  play-Attached :
      (acts : List Action) (s : Thread z App)
      → Attached z App fresh s
      → Attached z App fresh (plays acts s)
  unfolding play act task_begin task_stop task_exit
  play-Attached [] s h = h
  play-Attached (own ∷ acts) s h =
      play-Attached acts (step s) (advance-Attached s.self s.place s.store s.pool h)
  play-Attached (begins ∷ acts) s h = play-Attached acts _ h
  play-Attached (stops ∷ acts) s h = play-Attached acts _ h
  play-Attached (exits ∷ acts) s h = play-Attached acts _ h

  -- From the entry of the thread on, whatever other threads call meanwhile: once it has made its client
  -- and while it has not crashed, the object points to that client, and so does the target that the
  -- object is.
  pub play-entered :
      (acts : List Action) (s : Thread z App)
      → s.place ≡ entry
      → entered (plays acts s).place ≡ true
      → ((plays acts s).self.thread_client ≡ some fresh)
        × ((plays acts s).self.target.client ≡ some fresh)
  play-entered acts s e h =
      play-Attached acts s
        (λ (n : entered s.place ≡ true). absurd (outside (sym (ap entered e) ∙ n))) h
    where
      outside : false ≡ true → ⊥
      outside n = cc

  test_passed :
      (self : MThread) (st : Store z App) (pool : Pool)
      → self.is_exit ≡ false
      → step (at self exit_test st pool) ≡ at self handling st pool
  unfolding advance
  test_passed self st pool h = rw h refl

  handled_lem :
      (self : MThread) (st st1 : Store z App) (pool : Pool)
      → tell_client z App fresh (handle_event z App event_handle fuel) st ≡ done st1
      → step (at self handling st pool) ≡ at self run_test st1 pool
  unfolding advance
  handled_lem self st st1 pool e = rw e refl

  half_turn :
      (self : MThread) (st1 st2 : Store z App) (pool : Pool)
      → (if self.is_run then thread_run self st1 else done st1) ≡ done st2
      → step (step (at self run_test st1 pool)) ≡ at self exit_test st2 pool
  unfolding advance
  half_turn self st1 st2 pool e = elim (Bool-cases self.is_run) [
    | inl on ↦
        let ran : thread_run self st1 ≡ done st2 = sym (if-true self.is_run _ _ on) ∙ e in
        let last : step (at self running st1 pool) ≡ at self exit_test st2 pool = rw ran refl in
        ap (λ p. step (at self p st1 pool)) (if-true self.is_run _ _ on) ∙ last
    | inr off ↦
        let slept : done st1 ≡ done st2 = sym (if-false self.is_run _ _ off) ∙ e in
        let same : st1 ≡ st2 = cc in
        ap (λ p. step (at self p st1 pool)) (if-false self.is_run _ _ off)
        ∙ ap (λ st. at self exit_test st pool) same
  ]

  -- One turn of the loop with no call in between, when _is_exit is not set and the calls in it return:
  -- the thread handles one event, then runs thread_run if _is_run is set, and only sleeps otherwise.
  pub play-turn :
      (self : MThread) (st st1 st2 : Store z App) (pool : Pool)
      → self.is_exit ≡ false
      → tell_client z App fresh (handle_event z App event_handle fuel) st ≡ done st1
      → (if self.is_run then thread_run self st1 else done st1) ≡ done st2
      → plays (own ∷ own ∷ own ∷ own ∷ []) (at self exit_test st pool) ≡ at self exit_test st2 pool
  unfolding play act
  play-turn self st st1 st2 pool h e1 e2 =
      ap (λ s. step (step (step s))) (test_passed self st pool h)
      ∙ ap (λ s. step (step s)) (handled_lem self st st1 pool e1)
      ∙ half_turn self st1 st2 pool e2
