-- ===== src/MThread/Begins.antt =====
-- thread_run is not called unless task_begin is.
use event_bus_cpp.Prelude.{ℕ, true, false, List, [], ◌∷◌, ◌≡◌, refl, ◌∙◌, ap, arith}
use event_bus_cpp.Prelude.Int.{ℤ}
use event_bus_cpp.Keys.{EventType, EventContent}
use event_bus_cpp.Zmq.{Zmq}
use event_bus_cpp.EventClient.Defs.{Local, Outcome}
use event_bus_cpp.EventClient.Lifecycle.{Endpoints}
use event_bus_cpp.ClientCenter.{Pool}
use event_bus_cpp.EventTarget.{Store}
use event_bus_cpp.MThread.{MThread, task_begin, task_stop, task_exit}
use event_bus_cpp.MThread.Loop.{
  Place, entry, exit_test, handling, run_test, sleeping, running, ended, crashed, exhausted, Thread,
  Action, own, begins, stops, exits, advance, act, play,
}
use event_bus_cpp.MThread.Exit.{in_thread_run, never_begins, arrive-self, arrive-waits, enter_lem}

module _ (z : Zmq) (ends : Endpoints) (App : Type 0)
    (event_handle : ℕ → EventType → EventContent → Local z App → ℤ × Local z App)
    (fuel id fresh : ℕ) (setup_thread : Pool → MThread → Store z App → Outcome (Store z App))
    (thread_run : MThread → Store z App → Outcome (Store z App)) where
  abbrev step : Thread z App → Thread z App
  step = advance z ends App event_handle fuel id fresh setup_thread thread_run

  abbrev plays : List Action → Thread z App → Thread z App
  plays = play z ends App event_handle fuel id fresh setup_thread thread_run

  abbrev at : MThread → Place → Store z App → Pool → Thread z App
  at self p st pool = record { self = self; place = p; store = st; pool = pool }

  advance-waits :
      (self : MThread) (p : Place) (st : Store z App) (pool : Pool)
      → self.is_run ≡ false
      → in_thread_run p ≡ false
      → (in_thread_run (step (at self p st pool)).place ≡ false)
        × ((step (at self p st pool)).self.is_run ≡ false)
  unfolding advance
  advance-waits self entry st pool h w =
      let e =
        enter_lem z ends App event_handle fuel id fresh setup_thread thread_run
          (at self entry st pool) in
      (e.3, e.2 ∙ h)
  advance-waits self exit_test st pool h w = (ground arith, h)
  advance-waits self handling st pool h w = (
    arrive-waits z App run_test _ _ refl,
    ap (λ (t : MThread). t.is_run) (arrive-self z App run_test _ _) ∙ h,
  )
  advance-waits self run_test st pool h w = (rw h refl, h)
  advance-waits self sleeping st pool h w = (refl, h)
  advance-waits self running st pool h w = cc
  advance-waits self ended st pool h w = (refl, h)
  advance-waits self crashed st pool h w = (refl, h)
  advance-waits self exhausted st pool h w = (refl, h)

  -- While _is_run is not set, thread_run is not being called and nobody calls task_begin, neither
  -- another thread nor setup_thread, a callback or other code that this one runs, the thread never
  -- comes to a call of thread_run, whatever else is called meanwhile.
  pub play-never_begins :
      (acts : List Action) (s : Thread z App)
      → s.self.is_run ≡ false
      → in_thread_run s.place ≡ false
      → never_begins acts ≡ true
      → in_thread_run (plays acts s).place ≡ false
  unfolding play act task_begin task_stop task_exit
  play-never_begins [] s h w n = w
  play-never_begins (own ∷ acts) s h w n =
      let a = advance-waits s.self s.place s.store s.pool h w in
      play-never_begins acts (step s) a.1 a.0 n
  play-never_begins (begins ∷ acts) s h w n = cc
  play-never_begins (stops ∷ acts) s h w n = play-never_begins acts _ refl w n
  play-never_begins (exits ∷ acts) s h w n = play-never_begins acts _ h w n
