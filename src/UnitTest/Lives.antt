-- ===== src/UnitTest/Lives.antt =====
-- Where the demonstration's threads crash, in whatever order the threads of the process run.
use event_bus_cpp.Prelude.{
  ℕ, Bool, true, false, none, [], ◌≡◌, ◌≢◌, ◌<◌, ◌⊎◌, refl, sym, ap, ◌∙◌, inl, inr, Option-cases,
}
use event_bus_cpp.Zmq.{Zmq}
use event_bus_cpp.ClientCenter.{find_client}
use event_bus_cpp.ClientCenter.Laws.{IsSorted}
use event_bus_cpp.EventClient.Lifecycle.{Endpoints, construct}
use event_bus_cpp.MThread.Exit.{entered}
use event_bus_cpp.MThread.Loop.{
  Place, entry, exit_test, handling, run_test, sleeping, running, ended, crashed, exhausted, Thread,
  own, act, advance,
}
use event_bus_cpp.Process.{Seat, Process, thread_of, put_thread, seat_of, act_of, move, Steps}
use event_bus_cpp.Process.Sound.{IsSound}
use event_bus_cpp.Process.Untouched.{update_here}
use event_bus_cpp.UnitTest.{Fields}
use event_bus_cpp.UnitTest.Started.{enter-Started}
use event_bus_cpp.UnitTest.Runs.{at, test_lem, running_lem, reached, Steps-joined}
use event_bus_cpp.UnitTest.Team.{Member, Fits, team, most_of}

-- Whether the thread has crashed, or run out of fuel.
abbrev pub lost : Place → Bool
lost crashed = true
lost exhausted = true
lost p = false

module _ (z : Zmq) (ends : Endpoints) (m : ℕ → Member) (fuel : ℕ) where
  put_lem :
      (i : ℕ) (q : Process z Fields) (s : Thread z Fields)
      → move z ends Fields (team z m fuel) i own q ≡ put_thread z Fields i s q
      → entered s.place ≡ true
      → entered ((move z ends Fields (team z m fuel) i own q).seats i).place ≡ true
  put_lem i q s e h =
      ap (λ (r : Process z Fields). entered (r.seats i).place) e
      ∙ ap (λ t. entered t.place) (update_here q.seats i (seat_of z Fields s))
      ∙ h

  -- A step from a place of which it is known where it leads.
  place_lem :
      (i : ℕ) (q : Process z Fields) (p : Place)
      → (q.seats i).place ≡ p
      → (let s = thread_of z Fields i q in
          entered
            (act_of z ends Fields
              (team z m fuel)
              i
              own
              (at z ends m fuel s.self p s.store s.pool)).place
          ≡ true)
      → entered ((move z ends Fields (team z m fuel) i own q).seats i).place ≡ true
  unfolding move
  place_lem i q p here h =
      let s = thread_of z Fields i q in
      put_lem i q (act_of z ends Fields (team z m fuel) i own s) refl (
        ap
          (λ (p : Place).
            entered
              (act_of z ends Fields (team z m fuel) i own
                (at z ends m fuel s.self p s.store s.pool)).place)
          here
        ∙ h)

  crash_lem :
      (i : ℕ) (q : Process z Fields)
      → (q.seats i).place ≡ running
      → ((move z ends Fields (team z m fuel) i own q).seats i).place ≡ crashed
  unfolding move
  crash_lem i q here =
      let s = thread_of z Fields i q in
      ap (λ (t : Seat Fields). t.place)
        (update_here q.seats i (seat_of z Fields (act_of z ends Fields (team z m fuel) i own s)))
      ∙ ap
          (λ (p : Place).
            (act_of z ends Fields (team z m fuel) i own
              (at z ends m fuel s.self p s.store s.pool)).place)
          here
      ∙ running_lem z ends m fuel i s.self s.store s.pool

  entry_lem :
      (i : ℕ) (s : Thread z Fields)
      → IsSorted s.pool
      → find_client (m i).id s.pool ≡ none
      → construct z ends (m i).id (m i).fresh s.pool s.store.world ≢ none
      → entered
          (act_of z ends Fields
            (team z m fuel)
            i
            own
            (at z ends m fuel s.self entry s.store s.pool)).place
        ≡ true
  unfolding act advance team
  entry_lem i s h n made =
      elim (Option-cases (construct z ends (m i).id (m i).fresh s.pool s.store.world)) [
        | inl fails ↦ absurd (made fails)
        | inr ((c, pool, w), e) ↦
            ap entered
              (enter-Started z ends _ fuel _ (m i).demo (m i).id (m i).this (m i).object (m i).fresh
                (at z ends m fuel s.self entry s.store s.pool) c pool w h n e).at_loop
      ]

  module _ (ids : (i j : ℕ) → i ≢ j → (m i).id ≢ (m j).id)
      (clients : (i j : ℕ) → i ≢ j → (m i).fresh ≢ (m j).fresh) where
    -- Let any number of thread objects of the demonstration, with ids and clients of their own, run in a
    -- process with an empty pool from their entries on, and let the fuel be more than the types that a
    -- thread and its target observe. Whatever the threads, ZeroMQ and the rest of the process have
    -- done and in whatever order, and if a thread that stands at its entry can make its client, then
    -- the next step of a thread that has not crashed or run out of fuel takes it on without either,
    -- unless it calls thread_run; and that call has no defined result, since object_test publishes
    -- through EventTarget::publish_event, which flows off its end.
    pub Steps-entered :
        (i : ℕ) (p q : Process z Fields)
        → p.pool ≡ []
        → ((i : ℕ) → (p.seats i).place ≡ entry)
        → Steps z ends Fields (team z m fuel) p q
        → most_of (m i) < fuel
        → lost (q.seats i).place ≡ false
        → ((q.seats i).place ≡ entry → construct z ends (m i).id (m i).fresh q.pool q.world ≢ none)
        → (let place' = ((move z ends Fields (team z m fuel) i own q).seats i).place in
            (((q.seats i).place ≡ running) × (place' ≡ crashed))
            ⊎ (((q.seats i).place ≢ running) × (entered place' ≡ true)))
    unfolding team
    Steps-entered i p q none_yet fresh run enough alive made = from (q.seats i).place refl
      where
        sound : IsSound z ends Fields (team z m fuel) (λ i. Fits (m i)) q
        sound = reached z ends m fuel ids clients p q none_yet fresh run

        s : Thread z Fields
        s = thread_of z Fields i q

        lost_lem : (place : Place) → (q.seats i).place ≡ place → lost place ≡ true → ⊥
        lost_lem place here gone = no_lem (sym alive ∙ ap lost here ∙ gone)
          where
            no_lem : false ≡ true → ⊥
            no_lem n = cc

        on :
            (place : Place)
            → (q.seats i).place ≡ place
            → place ≢ running
            → entered ((move z ends Fields (team z m fuel) i own q).seats i).place ≡ true
            → (let place' = ((move z ends Fields (team z m fuel) i own q).seats i).place in
                (((q.seats i).place ≡ running) × (place' ≡ crashed))
                ⊎ (((q.seats i).place ≢ running) × (entered place' ≡ true)))
        on place here other goes_on = inr ((λ e. other (sym here ∙ e)), goes_on)

        from :
            (place : Place)
            → (q.seats i).place ≡ place
            → (let place' = ((move z ends Fields (team z m fuel) i own q).seats i).place in
                (((q.seats i).place ≡ running) × (place' ≡ crashed))
                ⊎ (((q.seats i).place ≢ running) × (entered place' ≡ true)))
        from entry here =
            on entry here (λ e. cc)
              (place_lem i q entry here
                (entry_lem i s sound.sorted ((sound.ready i).unpooled here) (made here)))
        from exit_test here =
            on exit_test here (λ e. cc)
              (place_lem i q exit_test here (test_lem z ends m fuel i s.self s.store s.pool).0)
        from handling here =
            let (c, at_c, steps) =
              Steps-joined z ends m fuel ids clients i p q none_yet fresh run enough here in
            on handling here (λ e. cc)
              (elim steps [
                | inl (off, e) ↦ put_lem i q _ e refl
                | inr (on, e) ↦ put_lem i q _ e refl
              ])
        from run_test here =
            on run_test here (λ e. cc)
              (place_lem i q run_test here (test_lem z ends m fuel i s.self s.store s.pool).1)
        from sleeping here =
            on sleeping here (λ e. cc)
              (place_lem i q sleeping here (test_lem z ends m fuel i s.self s.store s.pool).2)
        from running here = inl (here, crash_lem i q here)
        from ended here =
            on ended here (λ e. cc)
              (place_lem i q ended here (test_lem z ends m fuel i s.self s.store s.pool).3)
        from crashed here = absurd (lost_lem crashed here refl)
        from exhausted here = absurd (lost_lem exhausted here refl)
