-- ===== src/Process/Turn.antt =====
-- One step of a thread on its own: it stays at its own client, and leaves everything of the others alone.
use event_bus_cpp.Prelude.{
  ℕ, some, none, ◌≡◌, ◌≢◌, refl, sym, ap, ◌∙◌, subst, inl, inr, Option-cases, arith, if◌then◌else◌,
}
use event_bus_cpp.Keys.{EventType, type_order}
use event_bus_cpp.Multimap.{Multimap, IsWellFormed, empty-IsWellFormed}
use event_bus_cpp.Zmq.{Zmq, update}
use event_bus_cpp.ClientCenter.{Pool, find_client}
use event_bus_cpp.ClientCenter.Laws.{
  IsSorted, register_client-IsSorted, find_client-register_client,
}
use event_bus_cpp.EventClient.Defs.{Client, handle_event}
use event_bus_cpp.EventClient.Kept.{IfDone, handle_event-Good}
use event_bus_cpp.EventClient.Lifecycle.{Endpoints, construct}
use event_bus_cpp.EventTarget.{EventTarget, Store, set_client}
use event_bus_cpp.EventTarget.Constructed.{construct_lem}
use event_bus_cpp.MThread.{MThread, task_begin, task_stop, task_exit}
use event_bus_cpp.MThread.Loop.{
  Place, entry, exit_test, handling, run_test, sleeping, running, ended, crashed, exhausted, Thread,
  Action, own, begins, stops, exits, arrive, enter, advance, act,
}
use event_bus_cpp.Process.{Program, act_of}
use event_bus_cpp.Process.Ready.{Settled, Ready, Leaves, arrive-Ready}
use event_bus_cpp.Process.Uses.{tell_client-Uses, Uses-from}
use event_bus_cpp.Process.Confined.{Uses, IsConfined}

module _ (z : Zmq) (ends : Endpoints) (App : Type 0) (g : Program z App)
    (fits : ℕ → Multimap EventType → App → Type 0) (k : IsConfined g fits) (i : ℕ) where
  abbrev step : Thread z App → Thread z App
  step =
      advance z ends App (g.event_handle i) (g.fuel i) (g.ident i) (g.fresh i) (g.setup_thread i)
        (g.thread_run i)

  abbrev at : MThread → Place → Store z App → Pool → Thread z App
  at self p st pool = record { self = self; place = p; store = st; pool = pool }

  abbrev pub ReadyAt : Thread z App → Type 0
  ReadyAt = Ready (g.ident i) (g.fresh i) (fits i)

  abbrev pub LeavesAt : Thread z App → Thread z App → Type 0
  LeavesAt = Leaves (g.ident i) (g.fresh i) (fits i)

  -- The part of enter after the constructor.
  made-Ready :
      (s : Thread z App) (c : Client) (pool : Pool) (w : z.World)
      → IsSorted s.pool
      → find_client (g.ident i) s.pool ≡ none
      → construct z ends (g.ident i) (g.fresh i) s.pool s.store.world ≡ some (c, pool, w)
      → let self = record s.self {
        thread_client = some (g.fresh i);
        target = record { client = some (g.fresh i) };
      } in
        let st : Store z App = record s.store {
          clients = update s.store.clients (g.fresh i) (some c);
          world = w;
        } in
        let s' =
          arrive z App exit_test
            (g.setup_thread i pool self st)
            (record s { self = self; pool = pool }) in
        ReadyAt s' × LeavesAt s s'
  made-Ready s c pool w h n e =
      let a = g.fresh i in
      let id = g.ident i in
      let self : MThread = record s.self {
        thread_client = some a;
        target = record { client = some a };
      } in
      let st : Store z App = record s.store {
        clients = update s.store.clients a (some c);
        world = w;
      } in
      let (same, nothing) = construct_lem z ends id a s.pool pool c s.store.world w e in
      let sorted : IsSorted pool =
        subst IsSorted (sym same) (register_client-IsSorted id a s.pool h) in
      let found =
        λ (k : ℕ). ap (find_client k) same ∙ (find_client-register_client id a k s.pool h).0 in
      let mine : find_client id pool ≡ some a = found id ∙ rw n (ground arith) in
      let set : IfDone (Uses a (fits i) st) (g.setup_thread i pool self st) =
        k.sets_up i pool self st mine refl (record {
          client = c;
          here = ground arith;
          valid = subst IsWellFormed (sym nothing) empty-IsWellFormed;
          fitting = nothing;
        }) in
      let (ready, left) =
        arrive-Ready id a (fits i) exit_test (g.setup_thread i pool self st)
          (record s { self = self; pool = pool }) (λ e. cc) sorted refl refl mine
          (Uses-from a (fits i) (g.setup_thread i pool self st) s.store st (λ b ne. ground arith)
            set) in
      (
        ready,
        record {
          sorted = left.sorted;
          others = left.others;
          other_ids = λ j ne. left.other_ids j ne ∙ found j ∙ ground arith;
        },
      )

  enter-Ready :
      (s : Thread z App)
      → IsSorted s.pool
      → find_client (g.ident i) s.pool ≡ none
      → let s' =
          enter z ends App
            (g.event_handle i)
            (g.fuel i)
            (g.ident i)
            (g.fresh i)
            (g.setup_thread i)
            (g.thread_run i)
            s in
        ReadyAt s' × LeavesAt s s'
  unfolding enter set_client
  enter-Ready s h n =
      elim (Option-cases (construct z ends (g.ident i) (g.fresh i) s.pool s.store.world)) [
        | inl e ↦
            rw (e, enter)
              (
                record { unpooled = λ e. cc; settled = λ e. cc },
                record { sorted = h; others = λ b n. refl; other_ids = λ k n. refl },
              )
        | inr ((c, pool, w), e) ↦ rw (e, enter) (made-Ready s c pool w h n e)
      ]

  stays : (s : Thread z App) → IsSorted s.pool → LeavesAt s s
  stays s h = record { sorted = h; others = λ b n. refl; other_ids = λ k n. refl }

  -- A step that only goes to another place of the loop.
  goes :
      (s : Thread z App) (p : Place)
      → IsSorted s.pool
      → p ≢ entry
      → Settled (g.ident i) (g.fresh i) (fits i) s
      → ReadyAt (record s { place = p }) × LeavesAt s (record s { place = p })
  goes s p h ne r = (
    record {
      unpooled = λ e. absurd (ne e);
      settled = λ e. record {
        client_set = r.client_set;
        target_set = r.target_set;
        pooled = r.pooled;
        attends = r.attends;
      };
    },
    record { sorted = h; others = λ b n. refl; other_ids = λ k n. refl },
  )

  advance-Ready :
      (self : MThread) (p : Place) (st : Store z App) (pool : Pool)
      → IsSorted pool
      → ReadyAt (at self p st pool)
      → ReadyAt (step (at self p st pool)) × LeavesAt (at self p st pool) (step (at self p st pool))
  unfolding advance
  advance-Ready self entry st pool h r = enter-Ready (at self entry st pool) h (r.unpooled refl)
  advance-Ready self exit_test st pool h r =
      goes (at self exit_test st pool) (if self.is_exit then ended else handling) h (ground arith)
        (r.settled refl)
  advance-Ready self handling st pool h r =
      let own = r.settled refl in
      arrive-Ready (g.ident i) (g.fresh i) (fits i) run_test _ (at self handling st pool) (λ e. cc)
        h own.client_set own.target_set own.pooled
        (tell_client-Uses (g.fresh i) (fits i) (handle_event z App (g.event_handle i) (g.fuel i)) st
          (handle_event-Good z App (g.event_handle i) (λ m app. IsWellFormed m × fits i m app)
            (k.handles i) (g.fuel i))
          own.attends)
  advance-Ready self run_test st pool h r =
      goes (at self run_test st pool) (if self.is_run then running else sleeping) h (ground arith)
        (r.settled refl)
  advance-Ready self sleeping st pool h r =
      goes (at self sleeping st pool) exit_test h (λ e. cc) (r.settled refl)
  advance-Ready self running st pool h r =
      let own = r.settled refl in
      arrive-Ready (g.ident i) (g.fresh i) (fits i) exit_test _ (at self running st pool) (λ e. cc)
        h own.client_set own.target_set own.pooled (k.runs i self st own.target_set own.attends)
  advance-Ready self ended st pool h r = (r, stays (at self ended st pool) h)
  advance-Ready self crashed st pool h r = (r, stays (at self crashed st pool) h)
  advance-Ready self exhausted st pool h r = (r, stays (at self exhausted st pool) h)

  -- A call that only changes the flags.
  called :
      (self : MThread) (s : Thread z App)
      → IsSorted s.pool
      → ReadyAt s
      → self.thread_client ≡ s.self.thread_client
      → self.target ≡ s.self.target
      → ReadyAt (record s { self = self }) × LeavesAt s (record s { self = self })
  called self s h r same same' = (
    record {
      unpooled = r.unpooled;
      settled = λ e.
          let own = r.settled e in
          record {
            client_set = same ∙ own.client_set;
            target_set = ap (λ (t : EventTarget). t.client) same' ∙ own.target_set;
            pooled = own.pooled;
            attends = own.attends;
          };
    },
    record { sorted = h; others = λ b n. refl; other_ids = λ k n. refl },
  )

  -- A call of another thread, or a step of the thread itself.
  pub act-Ready :
      (x : Action) (s : Thread z App)
      → IsSorted s.pool
      → ReadyAt s
      → ReadyAt (act_of z ends App g i x s) × LeavesAt s (act_of z ends App g i x s)
  unfolding act task_begin task_stop task_exit
  act-Ready own s h r = advance-Ready s.self s.place s.store s.pool h r
  act-Ready begins s h r = called (task_begin s.self) s h r refl refl
  act-Ready stops s h r = called (task_stop s.self) s h r refl refl
  act-Ready exits s h r = called (task_exit s.self) s h r refl refl
