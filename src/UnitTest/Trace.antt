-- ===== src/UnitTest/Trace.antt =====
-- stack_trace, error_handler and main of UnitTest/main.cpp: what is printed on a signal, and what the
-- process does then.
use event_bus_cpp.Prelude.{
  ℕ, zero, suc, Option, none, some, List, [], ◌∷◌, ◌++◌, take, ◌==◌, if◌then◌else◌,
}
use event_bus_cpp.Prelude.Int.{ℤ, pos}
use event_bus_cpp.Prelude.Text.{codes}
use event_bus_cpp.Zmq.{Bytes, update}

-- What the system tells: the return addresses, at most as many as are asked for; the name of the symbol
-- at an address, a name that may be NULL, or `none` where dladdr fails; the status of
-- __cxa_demangle and its text, NULL if there is none; the line with the time; and the texts of `%p`
-- and std::to_string.
pub record Platform : Type 0 where
  pub backtrace : (max_depth : ℕ) → List ℕ
  pub dladdr : ℕ → Option (Option Bytes)
  pub demangle : Option Bytes → ℤ × Option Bytes
  pub timestamp : Bytes
  pub show_pointer : ℕ → Bytes
  pub to_string : ℕ → Bytes

-- The calls that stack_trace makes on stdout and on the heap.
pub data Call : Type 0 where
  flockfile : Call
  printf : Bytes → Call
  free : Bytes → Call
  funlockfile : Call

-- snprintf into log_str: what fits into 100 bytes with the zero byte.
unfoldable pub log_str : Bytes → Bytes
log_str text = take 99 text

-- `symname`, when the status and the text of the demangled name are known.
unfoldable pub symbol_name : Option Bytes → ℤ × Option Bytes → Option Bytes
symbol_name sname (pos zero, some name) = some name
symbol_name sname (status, text) = sname

module _ (p : Platform) where
  open p use {dladdr, demangle, show_pointer}

  -- The line of a frame: its symbol, or its address.
  unfoldable pub frame_line : ℕ → Option Bytes → Bytes
  unfolding log_str
  frame_line address none = log_str (codes "@ " ++ (show_pointer address ++ codes "\n"))
  frame_line address (some name) = log_str (codes "@ " ++ (name ++ codes "\n"))

  unfoldable pub freed : Option Bytes → List Call
  freed none = []
  freed (some text) = free text ∷ []

  -- One turn of the loop.
  unfoldable pub trace_frame : ℕ → List Call
  unfolding symbol_name
  trace_frame address = elim (dladdr address) [
    | none ↦ printf (frame_line address none) ∷ []
    | some sname ↦
        printf (frame_line address (symbol_name sname (demangle sname))) ∷ freed (demangle sname).1
  ]

  unfoldable pub trace_frames : List ℕ → List Call
  trace_frames [] = []
  trace_frames (address ∷ trace) = trace_frame address ++ trace_frames trace

  -- stack_trace; `%s` prints `ptr` and the time whole.
  unfoldable pub stack_trace : Bytes → List Call
  stack_trace ptr =
      flockfile
      ∷ printf (log_str p.timestamp)
      ∷ (trace_frames (p.backtrace 32) ++ printf ptr ∷ funlockfile ∷ [])

-- What happens to a signal: SIG_DFL, SIG_IGN, or error_handler.
pub data Disposition : Type 0 where
  sig_dfl sig_ign handler : Disposition

-- The dispositions by signal, the calls made so far, and the signals whose default action was taken.
pub record Process : Type 0 where
  pub dispositions : ℕ → Disposition
  pub calls : List Call
  pub defaulted : List ℕ

-- The numbers of the signals, from <signal.h>.
abbrev pub sigkill : ℕ
sigkill = 9

abbrev pub sigpipe : ℕ
sigpipe = 13

-- SIGINT, SIGQUIT, SIGILL, SIGTRAP, SIGABRT, SIGIOT, SIGBUS, SIGFPE, SIGKILL, SIGSEGV, SIGTERM and
-- SIGSTKFLT, in the order of the source.
abbrev pub handled_signals : List ℕ
handled_signals = 2 ∷ 3 ∷ 4 ∷ 5 ∷ 6 ∷ 6 ∷ 7 ∷ 8 ∷ sigkill ∷ 11 ∷ 15 ∷ 16 ∷ []

-- signal(), which is refused for SIGKILL.
unfoldable pub signal : ℕ → Disposition → Process → Process
signal sig d s =
    if sig == sigkill then s else record s { dispositions = update s.dispositions sig d }

unfoldable pub signals : List ℕ → Disposition → Process → Process
signals [] d s = s
signals (sig ∷ sigs) d s = signals sigs d (signal sig d s)

-- main, up to `TestMain test`.
unfoldable pub main_signals : Process → Process
main_signals s = signal sigpipe sig_ign (signals handled_signals handler s)

module _ (p : Platform) where
  -- The first statements of error_handler: the trace, and SIG_DFL for the signal.
  unfoldable pub before_raise : ℕ → Process → Process
  before_raise sig s =
      signal sig sig_dfl
        (record s { calls = s.calls ++ stack_trace p (codes "signal is = " ++ p.to_string sig) })

  -- A signal that is delivered. error_handler ends with raise(sig), which delivers it again; the fuel
  -- counts these.
  unfoldable pub deliver_signal : ℕ → ℕ → Process → Option Process
  deliver_signal zero sig s = none
  deliver_signal (suc fuel) sig s = elim (s.dispositions sig) [
    | sig_dfl ↦ some (record s { defaulted = s.defaulted ++ sig ∷ [] })
    | sig_ign ↦ some s
    | handler ↦ deliver_signal fuel sig (before_raise sig s)
  ]
