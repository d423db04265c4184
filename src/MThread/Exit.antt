-- ===== src/MThread/Exit.antt =====
-- How _is_exit ends the loop of _thread_run, whatever the other threads do meanwhile.
use event_bus_cpp.Prelude.{
  ℕ, suc, Bool, true, false, List, [], ◌∷◌, ◌≡◌, refl, ◌∙◌, ap, arith, ◌≤◌, ◌-◌, inl, inr,
  Option-cases,
}
use event_bus_cpp.Prelude.Int.{ℤ}
use event_bus_cpp.Keys.{EventType, EventContent}
use event_bus_cpp.Zmq.{Zmq}
use event_bus_cpp.EventClient.Defs.{Local, Outcome, done, fault, out_of_fuel}
use event_bus_cpp.EventClient.Lifecycle.{Endpoints, construct}
use event_bus_cpp.ClientCenter.{Pool}
use event_bus_cpp.EventTarget.{Store}
use event_bus_cpp.MThread.{MThread, task_begin, task_stop, task_exit}
use event_bus_cpp.MThread.Loop.{
  Place, entry, exit_test, handling, run_test, sleeping, running, ended, crashed, exhausted, Thread,
  Action, own, begins, stops, exits, arrive, enter, advance, act, play,
}

-- The most steps that the thread still takes once _is_exit is set.
abbrev pub left : Place → ℕ
left entry = 2
left exit_test = 1
left handling = 4
left run_test = 3
left sleeping = 2
left running = 2
left ended = 0
left crashed = 0
left exhausted = 0

-- Whether the thread has left the loop, by returning or in a call that has no result.
abbrev pub over : Place → Bool
over ended = true
over crashed = true
over exhausted = true
over p = false

abbrev pub in_thread_run : Place → Bool
in_thread_run running = true
in_thread_run p = false

-- Whether the thread has made its client and has not crashed.
abbrev pub entered : Place → Bool
entered entry = false
entered crashed = false
entered exhausted = false
entered p = true

abbrev pub owns : List Action → ℕ
owns [] = 0
owns (own ∷ acts) = suc (owns acts)
owns (a ∷ acts) = owns acts

abbrev pub never_begins : List Action → Bool
never_begins [] = true
never_begins (begins ∷ acts) = false
never_begins (a ∷ acts) = never_begins acts

pub over_at : (p : Place) → left p ≤ 0 → over p ≡ true
over_at ended h = refl
over_at crashed h = refl
over_at exhausted h = refl
over_at entry h = absurd (omega arith)
over_at exit_test h = absurd (omega arith)
over_at handling h = absurd (omega arith)
over_at run_test h = absurd (omega arith)
over_at sleeping h = absurd (omega arith)
over_at running h = absurd (omega arith)

pub left-le : (p : Place) → left p ≤ 4
left-le entry = omega arith
left-le exit_test = omega arith
left-le handling = omega arith
left-le run_test = omega arith
left-le sleeping = omega arith
left-le running = omega arith
left-le ended = omega arith
left-le crashed = omega arith
left-le exhausted = omega arith

module _ (z : Zmq) (App : Type 0) where
  arrive-left :
      (p : Place) (o : Outcome (Store z App)) (s : Thread z App)
      → left (arrive z App p o s).place ≤ left p
  arrive-left p (done st) s = omega arith
  arrive-left p fault s = omega arith
  arrive-left p out_of_fuel s = omega arith

  pub arrive-self :
      (p : Place) (o : Outcome (Store z App)) (s : Thread z App)
      → (arrive z App p o s).self ≡ s.self
  arrive-self p (done st) s = refl
  arrive-self p fault s = refl
  arrive-self p out_of_fuel s = refl

  pub arrive-waits :
      (p : Place) (o : Outcome (Store z App)) (s : Thread z App)
      → in_thread_run p ≡ false
      → in_thread_run (arrive z App p o s).place ≡ false
  arrive-waits p (done st) s h = h
  arrive-waits p fault s h = refl
  arrive-waits p out_of_fuel s h = refl

module _ (z : Zmq) (ends : Endpoints) (App : Type 0)
    (event_handle : ℕ → EventType → EventContent → Local z App → ℤ × Local z App)
    (fuel id fresh : ℕ) (setup_thread : Pool → MThread → Store z App → Outcome (Store z App))
    (thread_run : MThread → Store z App → Outcome (Store z App)) where
  abbrev step : Thread z App → Thread z App
  step = advance z ends App event_handle fuel id fresh setup_thread thread_run

  abbrev plays : List Action → Thread z App → Thread z App
  plays = play z ends App event_handle fuel id fresh setup_thread thread_run

  abbrev at : MThread → Place → Store z App → Pool → Thread z App
  at self p st pool = record { self = self; place = p; store = st; pool = pool }

  -- What enter leaves alone.
  pub enter_lem :
      (s : Thread z App)
      → let s' = enter z ends App event_handle fuel id fresh setup_thread thread_run s in
        (left s'.place ≤ 1)
        × (s'.self.is_exit ≡ s.self.is_exit)
        × (s'.self.is_run ≡ s.self.is_run)
        × (in_thread_run s'.place ≡ false)
  unfolding enter
  enter_lem s = elim (Option-cases (construct z ends id fresh s.pool s.store.world)) [
    | inl e ↦ rw (e, enter) (omega arith, refl, refl, refl)
    | inr ((c, pool, w), e) ↦
        let same = arrive-self z App exit_test _ _ in
        rw (e, enter)
          (
            arrive-left z App exit_test _ _,
            ap (λ (t : MThread). t.is_exit) same,
            ap (λ (t : MThread). t.is_run) same,
            arrive-waits z App exit_test _ _ refl,
          )
  ]

  pub advance-left :
      (self : MThread) (p : Place) (st : Store z App) (pool : Pool)
      → self.is_exit ≡ true
      → (left (step (at self p st pool)).place ≤ left p - 1)
        × ((step (at self p st pool)).self.is_exit ≡ true)
  unfolding advance
  advance-left self entry st pool h = let e = enter_lem (at self entry st pool) in (e.0, e.1 ∙ h)
  advance-left self exit_test st pool h = (rw h (omega arith), h)
  advance-left self handling st pool h = (
    arrive-left z App run_test _ _,
    ap (λ (t : MThread). t.is_exit) (arrive-self z App run_test _ _) ∙ h,
  )
  advance-left self run_test st pool h = (ground arith, h)
  advance-left self sleeping st pool h = (omega arith, h)
  advance-left self running st pool h = (
    arrive-left z App exit_test _ _,
    ap (λ (t : MThread). t.is_exit) (arrive-self z App exit_test _ _) ∙ h,
  )
  advance-left self ended st pool h = (omega arith, h)
  advance-left self crashed st pool h = (omega arith, h)
  advance-left self exhausted st pool h = (omega arith, h)

  play-left :
      (acts : List Action) (s : Thread z App)
      → s.self.is_exit ≡ true
      → left s.place ≤ owns acts
      → left (plays acts s).place ≤ 0
  unfolding play act task_begin task_stop task_exit
  play-left [] s h n = n
  play-left (own ∷ acts) s h n =
      let a = advance-left s.self s.place s.store s.pool h in
      play-left acts (step s) a.1 (omega (arith, a.0))
  play-left (begins ∷ acts) s h n = play-left acts _ h n
  play-left (stops ∷ acts) s h n = play-left acts _ h n
  play-left (exits ∷ acts) s h n = play-left acts _ refl n

  -- Once _is_exit is set, four more steps of the thread are enough for it to leave the loop, wherever
  -- it stands and whatever other threads call meanwhile: _thread_run has returned, unless a call in it
  -- has crashed or run out of fuel.
  pub play-exit :
      (acts : List Action) (s : Thread z App)
      → s.self.is_exit ≡ true
      → 4 ≤ owns acts
      → over (plays acts s).place ≡ true
  play-exit acts s h n = over_at _ (play-left acts s h (omega (arith, left-le s.place)))
