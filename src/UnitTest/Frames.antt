-- ===== src/UnitTest/Frames.antt =====
-- What stack_trace prints and frees.
use event_bus_cpp.Prelude.{
  ℕ, zero, suc, Option, none, some, List, [], ◌∷◌, ◌++◌, length, take, All, All-append, ◌≡◌, refl,
  ap, ◌∙◌, arith, ◌≤◌, ◌+◌, Option-cases, inl, inr,
}
use event_bus_cpp.Prelude.Text.{codes}
use event_bus_cpp.Zmq.{Bytes}
use mathlib.Core.List.{append-nil}
use event_bus_cpp.UnitTest.Trace.{
  Platform, Call, flockfile, printf, free, funlockfile, frame_line, freed, trace_frame,
  trace_frames, stack_trace,
}

-- Whether what a call prints fits into log_str.
abbrev pub Fits : Call → Type 0
Fits (printf text) = length text ≤ 99
Fits flockfile = Unit
Fits (free text) = Unit
Fits funlockfile = Unit

abbrev pub printed : List Call → ℕ
printed [] = 0
printed (printf text ∷ calls) = suc (printed calls)
printed (flockfile ∷ calls) = printed calls
printed (free text ∷ calls) = printed calls
printed (funlockfile ∷ calls) = printed calls

abbrev pub freed_texts : List Call → List Bytes
freed_texts [] = []
freed_texts (free text ∷ calls) = text ∷ freed_texts calls
freed_texts (flockfile ∷ calls) = freed_texts calls
freed_texts (printf text ∷ calls) = freed_texts calls
freed_texts (funlockfile ∷ calls) = freed_texts calls

printed-append : (c d : List Call) → printed (c ++ d) ≡ printed c + printed d
printed-append [] d = omega arith
printed-append (printf text ∷ c) d = omega (arith, printed-append c d)
printed-append (flockfile ∷ c) d = printed-append c d
printed-append (free text ∷ c) d = printed-append c d
printed-append (funlockfile ∷ c) d = printed-append c d

freed_texts-append : (c d : List Call) → freed_texts (c ++ d) ≡ freed_texts c ++ freed_texts d
freed_texts-append [] d = refl
freed_texts-append (free text ∷ c) d = ap (◌∷◌ text) (freed_texts-append c d)
freed_texts-append (flockfile ∷ c) d = freed_texts-append c d
freed_texts-append (printf text ∷ c) d = freed_texts-append c d
freed_texts-append (funlockfile ∷ c) d = freed_texts-append c d

length-take-le : (n : ℕ) (b : Bytes) → length (take n b) ≤ n
length-take-le zero b = omega arith
length-take-le (suc n) [] = omega arith
length-take-le (suc n) (c ∷ b) = omega (arith, length-take-le n b)

module _ (p : Platform) where
  open p use {dladdr, demangle}

  texts : Option Bytes → List Bytes
  texts none = []
  texts (some text) = text ∷ []

  frame_line-Fits : (address : ℕ) (name : Option Bytes) → length (frame_line p address name) ≤ 99
  unfolding frame_line
  frame_line-Fits address none =
      length-take-le 99 (codes "@ " ++ (p.show_pointer address ++ codes "\n"))
  frame_line-Fits address (some name) = length-take-le 99 (codes "@ " ++ (name ++ codes "\n"))

  -- The calls made for one frame.
  record Frame (calls : List Call) (allocated : List Bytes) : Type 0 where
    fits : All Fits calls
    one : printed calls ≡ 1
    frees : freed_texts calls ≡ allocated

  line-Frame :
      (line : Bytes) (text : Option Bytes)
      → length line ≤ 99
      → Frame (printf line ∷ freed p text) (texts text)
  unfolding freed texts
  line-Frame line none h = record { fits = (h, tt); one = refl; frees = refl }
  line-Frame line (some text) h = record { fits = (h, (tt, tt)); one = refl; frees = refl }

  allocated : ℕ → List Bytes
  allocated address = elim (dladdr address) [ none ↦ [] | some sname ↦ texts (demangle sname).1 ]

  trace_frame-Frame : (address : ℕ) → Frame (trace_frame p address) (allocated address)
  unfolding trace_frame allocated
  trace_frame-Frame address = elim (Option-cases (dladdr address)) [
    | inl failed ↦
        rw (failed, trace_frame, allocated)
          (record { fits = (frame_line-Fits address none, tt); one = refl; frees = refl })
    | inr (sname, found) ↦
        rw (found, trace_frame, allocated)
          (line-Frame _ (demangle sname).1 (frame_line-Fits address _))
  ]

  -- The texts that __cxa_demangle allocates for the frames, in order.
  pub demangled : List ℕ → List Bytes
  demangled [] = []
  demangled (address ∷ trace) = allocated address ++ demangled trace

  frames_fit : (trace : List ℕ) → All Fits (trace_frames p trace)
  unfolding trace_frames
  frames_fit [] = tt
  frames_fit (address ∷ trace) =
      All-append Fits (trace_frame p address) (trace_frames p trace)
        (trace_frame-Frame address).fits (frames_fit trace)

  frames_printed : (trace : List ℕ) → printed (trace_frames p trace) ≡ length trace
  unfolding trace_frames
  frames_printed [] = refl
  frames_printed (address ∷ trace) = omega (
    arith,
    printed-append (trace_frame p address) (trace_frames p trace),
    (trace_frame-Frame address).one,
    frames_printed trace,
  )

  frames_freed : (trace : List ℕ) → freed_texts (trace_frames p trace) ≡ demangled trace
  unfolding trace_frames demangled
  frames_freed [] = refl
  frames_freed (address ∷ trace) =
      freed_texts-append (trace_frame p address) (trace_frames p trace)
      ∙ ap (λ c. c ++ freed_texts (trace_frames p trace)) (trace_frame-Frame address).frees
      ∙ ap (◌++◌ (allocated address)) (frames_freed trace)

  -- If backtrace gives at most the 32 addresses that are asked for, stack_trace prints at most 34 times,
  -- once for each frame besides the time and `ptr`; the line of each frame is cut to the 99 bytes
  -- that log_str holds; and exactly the texts that __cxa_demangle has allocated are freed, each
  -- once, in order.
  pub stack_trace_bounds :
      (ptr : Bytes)
      → length (p.backtrace 32) ≤ 32
      → (printed (stack_trace p ptr) ≤ 34)
        × (printed (stack_trace p ptr) ≡ length (p.backtrace 32) + 2)
        × All Fits (trace_frames p (p.backtrace 32))
        × (freed_texts (stack_trace p ptr) ≡ demangled (p.backtrace 32))
  unfolding stack_trace
  stack_trace_bounds ptr h =
      let frames = trace_frames p (p.backtrace 32) in
      let ends : List Call = printf ptr ∷ funlockfile ∷ [] in
      let two = printed-append frames ends in
      let count = frames_printed (p.backtrace 32) in
      (
        omega (arith, two, count),
        omega (arith, two, count),
        frames_fit (p.backtrace 32),
        freed_texts-append frames ends
            ∙ append-nil (freed_texts frames)
            ∙ frames_freed (p.backtrace 32),
      )
