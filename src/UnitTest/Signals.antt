-- ===== src/UnitTest/Signals.antt =====
-- How often a signal is delivered, and how the process ends.
use event_bus_cpp.Prelude.{
  ℕ, true, Option, some, List, [], ◌∷◌, ◌++◌, ◌==◌, if◌then◌else◌, ◌≡◌, ◌≢◌, refl, ap, subst,
  if-false, ◌∙◌, arith,
}
use event_bus_cpp.Prelude.Text.{codes}
use event_bus_cpp.Zmq.{update}
use event_bus_cpp.EventClient.Pairs.{member}
use event_bus_cpp.UnitTest.Trace.{
  Platform, Call, stack_trace, Disposition, sig_dfl, sig_ign, handler, Process, sigkill, sigpipe,
  handled_signals, signal, signals, main_signals, before_raise, deliver_signal,
}

signals_dispositions :
    (d : Disposition) (sigs : List ℕ) (sig : ℕ) (s : Process)
    → (signals sigs d s).dispositions sig ≡ (
        if member sig sigs
        then (if sig == sigkill then s.dispositions sig else d)
        else s.dispositions sig)
unfolding signals signal
signals_dispositions d [] sig s = refl
signals_dispositions d (x ∷ sigs) sig s =
    ground (arith, signals_dispositions d sigs sig (signal x d s))

signals-calls :
    (d : Disposition) (sigs : List ℕ) (s : Process)
    → ((signals sigs d s).calls ≡ s.calls) × ((signals sigs d s).defaulted ≡ s.defaulted)
unfolding signals signal
signals-calls d [] s = (refl, refl)
signals-calls d (x ∷ sigs) s = ground (arith, signals-calls d sigs (signal x d s))

-- What main sets for each signal.
main_dispositions :
    (sig : ℕ) (s : Process)
    → (main_signals s).dispositions sig ≡ (
        if sig == sigpipe
        then sig_ign
        else if member sig handled_signals
        then (if sig == sigkill then s.dispositions sig else handler)
        else s.dispositions sig)
unfolding main_signals signal
main_dispositions sig s = ground (arith, signals_dispositions handler handled_signals sig s)

main_calls :
    (s : Process) → ((main_signals s).calls ≡ s.calls) × ((main_signals s).defaulted ≡ s.defaulted)
unfolding main_signals signal
main_calls s = signals-calls handler handled_signals s

not_ignored : (sig : ℕ) → member sig handled_signals ≡ true → sig ≢ sigpipe
not_ignored sig h e = cc (subst (λ x. member x handled_signals ≡ true) e h)

module _ (p : Platform) where
  abbrev outcome : ℕ → Process → List Call → List ℕ → Option Process
  outcome sig m calls defaulted = some (record {
    dispositions = update m.dispositions sig sig_dfl;
    calls = calls ++ stack_trace p (codes "signal is = " ++ p.to_string sig);
    defaulted = defaulted ++ sig ∷ [];
  })

  first_raise :
      (sig : ℕ) (s : Process)
      → sig ≢ sigkill
      → before_raise p sig s ≡ record {
        dispositions = update s.dispositions sig sig_dfl;
        calls = s.calls ++ stack_trace p (codes "signal is = " ++ p.to_string sig);
        defaulted = s.defaulted;
      }
  unfolding before_raise signal
  first_raise sig s ne = if-false (sig == sigkill) _ _ (ground arith)

  last_delivery :
      (sig : ℕ) (s : Process)
      → s.dispositions sig ≡ sig_dfl
      → deliver_signal p 1 sig s ≡ some (record s { defaulted = s.defaulted ++ sig ∷ [] })
  unfolding deliver_signal
  last_delivery sig s e = rw (e, deliver_signal) refl

  handled_twice :
      (sig : ℕ) (s : Process)
      → s.dispositions sig ≡ handler
      → sig ≢ sigkill
      → deliver_signal p 2 sig s ≡ outcome sig s s.calls s.defaulted
  unfolding deliver_signal
  handled_twice sig s e ne =
      let again : deliver_signal p 2 sig s ≡ deliver_signal p 1 sig (before_raise p sig s) =
        rw (e, deliver_signal) refl in
      again
      ∙ ap (deliver_signal p 1 sig) (first_raise sig s ne)
      ∙ last_delivery sig _ (ground arith)

  -- After main has set the handlers, one of the signals that it names, but for SIGKILL, is delivered
  -- twice and no more: the trace is printed once, with the signal's number, and the second time the
  -- default action is taken.
  pub deliver_signal-main_signals :
      (sig : ℕ) (s : Process)
      → member sig handled_signals ≡ true
      → sig ≢ sigkill
      → let m = main_signals s in
        deliver_signal p 2 sig m
        ≡ some (record {
          dispositions = update m.dispositions sig sig_dfl;
          calls = s.calls ++ stack_trace p (codes "signal is = " ++ p.to_string sig);
          defaulted = s.defaulted ++ sig ∷ [];
        })
  deliver_signal-main_signals sig s h ne =
      let m = main_signals s in
      handled_twice sig (main_signals s)
        (ground (arith, main_dispositions sig s, not_ignored sig h)) ne
      ∙ ap (λ (c : List Call). outcome sig m c m.defaulted) (main_calls s).0
      ∙ ap (λ (ds : List ℕ). outcome sig m s.calls ds) (main_calls s).1
