-- ===== src/Tests/Signals.antt =====
-- The trace and the signals, on a system that finds one symbol in two frames.
use event_bus_cpp.Prelude.{
  some, none, [], ◌∷◌, ◌++◌, ◌≡◌, ◌≤◌, refl, arith, All, ◌==◌, if◌then◌else◌,
}
use event_bus_cpp.Prelude.Int.{pos}
use event_bus_cpp.Prelude.Text.{codes}
use event_bus_cpp.Zmq.{update}
use event_bus_cpp.UnitTest.Trace.{
  Platform, Process, sig_dfl, stack_trace, trace_frames, main_signals, deliver_signal,
}
use event_bus_cpp.UnitTest.Frames.{Fits, printed, freed_texts, demangled, stack_trace_bounds}
use event_bus_cpp.UnitTest.Signals.{deliver_signal-main_signals}

abbrev linux : Platform
linux = record {
  backtrace = λ max_depth. 100 ∷ 200 ∷ [];
  dladdr = λ address. if address == 100 then some (some (codes "_Z1fv")) else none;
  demangle = λ name. (pos 0, some (codes "f()"));
  timestamp = codes "now";
  show_pointer = λ address. codes "0x";
  to_string = λ n. codes "11";
}

abbrev process : Process
process = record { dispositions = λ sig. sig_dfl; calls = []; defaulted = [] }

stack_trace_bounds_example :
    (printed (stack_trace linux []) ≤ 34)
    × (printed (stack_trace linux []) ≡ 4)
    × All Fits (trace_frames linux (100 ∷ 200 ∷ []))
    × (freed_texts (stack_trace linux []) ≡ demangled linux (100 ∷ 200 ∷ []))
stack_trace_bounds_example = stack_trace_bounds linux [] (omega arith)

-- SIGSEGV
deliver_signal-main_signals_example :
    deliver_signal linux 2 11 (main_signals process)
    ≡ some (record {
      dispositions = update (main_signals process).dispositions 11 sig_dfl;
      calls = stack_trace linux (codes "signal is = " ++ codes "11");
      defaulted = 11 ∷ [];
    })
deliver_signal-main_signals_example =
    deliver_signal-main_signals linux 11 process refl (omega arith)
