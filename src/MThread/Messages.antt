-- ===== src/MThread/Messages.antt =====
-- handle_message, for a loop inside thread_run, beside the loop of _thread_run itself.
use event_bus_cpp.Prelude.{ℕ, some, List, ◌≡◌, refl, sym, ap, subst, ◌∙◌}
use event_bus_cpp.Prelude.Int.{ℤ}
use event_bus_cpp.Keys.{EventType, EventContent}
use event_bus_cpp.Zmq.{Zmq}
use event_bus_cpp.ClientCenter.{Pool}
use event_bus_cpp.EventClient.Defs.{Local, Outcome, handle_event}
use event_bus_cpp.EventClient.Lifecycle.{Endpoints}
use event_bus_cpp.EventTarget.{Store, tell_client}
use event_bus_cpp.MThread.{MThread, handle_message}
use event_bus_cpp.MThread.Loop.{
  Place, entry, handling, run_test, Thread, Action, arrive, advance, play,
}
use event_bus_cpp.MThread.Exit.{entered}
use event_bus_cpp.MThread.Turns.{play-entered}

module _ (z : Zmq) (ends : Endpoints) (App : Type 0)
    (event_handle : ℕ → EventType → EventContent → Local z App → ℤ × Local z App)
    (fuel id fresh : ℕ) (setup_thread : Pool → MThread → Store z App → Outcome (Store z App))
    (thread_run : MThread → Store z App → Outcome (Store z App)) where
  abbrev plays : List Action → Thread z App → Thread z App
  plays = play z ends App event_handle fuel id fresh setup_thread thread_run

  handles_client :
      (t : MThread) (st : Store z App)
      → t.thread_client ≡ some fresh
      → handle_message z App event_handle fuel t st
        ≡ tell_client z App fresh (handle_event z App event_handle fuel) st
  unfolding handle_message
  handles_client t st e = rw (e, handle_message) refl

  pub handling_lem :
      (s : Thread z App)
      → s.place ≡ handling
      → advance z ends App event_handle fuel id fresh setup_thread thread_run s
        ≡ arrive z App run_test
            (tell_client z App fresh (handle_event z App event_handle fuel) s.store)
            s
  unfolding advance
  handling_lem s e =
      subst
        (λ (p : Place).
          let s' : Thread z App = record s { place = p } in
          advance z ends App event_handle fuel id fresh setup_thread thread_run s'
          ≡ arrive z App run_test
              (tell_client z App fresh (handle_event z App event_handle fuel) s.store) s')
        (sym e) refl

  -- From the entry of the thread on, whatever other threads call meanwhile: where the loop handles an
  -- event, it does what handle_message does on the same object then, and goes on to its test of
  -- _is_run, or stops where that call has no result.
  pub advance-handle_message :
      (acts : List Action) (s : Thread z App)
      → s.place ≡ entry
      → (plays acts s).place ≡ handling
      → let s' = plays acts s in
        advance z ends App event_handle fuel id fresh setup_thread thread_run s'
        ≡ arrive z App run_test (handle_message z App event_handle fuel s'.self s'.store) s'
  advance-handle_message acts s e h =
      let s' = plays acts s in
      let attached =
        play-entered z ends App event_handle fuel id fresh setup_thread thread_run acts s e
          (ap entered h) in
      handling_lem s' h
      ∙ ap (λ (o : Outcome (Store z App)). arrive z App run_test o s')
          (sym (handles_client s'.self s'.store attached.0))
