-- ===== src/UnitTest/Runs.antt =====
-- The events that the demonstration's threads handle, in whatever order the threads of the process run.
use event_bus_cpp.Process.{move, Process, act_of, Steps}
use event_bus_cpp.Prelude.{
  false, ◌⊎◌, inl, inr, ◌∙◌, true, arith, ◌<◌, ℕ, some, [], ◌≡◌, ◌≢◌, refl, ap,
}
use event_bus_cpp.EventClient.Defs.{poll, Client}
use event_bus_cpp.MZmq.Recv.{recv_event_entity}
use event_bus_cpp.Process.Handed.{returned, Handles_lem}
use event_bus_cpp.UnitTest.Team.{
  texts, prints, deliver_all-prints, thread_run_faults, Member, team, Fits, rows_of, most_of,
  team-IsConfined,
}
use event_bus_cpp.Zmq.{Zmq}
use event_bus_cpp.EventClient.Lifecycle.{Endpoints}
use event_bus_cpp.EventTarget.{Store}
use event_bus_cpp.ClientCenter.{Pool}
use event_bus_cpp.MThread.{MThread}
use event_bus_cpp.MThread.Exit.{entered}
use event_bus_cpp.MThread.Loop.{
  crashed, Thread, handling, run_test, sleeping, ended, Place, entry, exit_test, running, own, act,
  advance,
}
use event_bus_cpp.Process.Sound.{IsSound, Steps-IsSound}
use event_bus_cpp.UnitTest.{Fields}

module _ (z : Zmq) (ends : Endpoints) (m : ℕ → Member) (fuel : ℕ) where
  abbrev pub at : MThread → Place → Store z Fields → Pool → Thread z Fields
  at self p st pool = record { self = self; place = p; store = st; pool = pool }

  -- thread_run of the demonstration has no defined result.
  pub running_lem :
      (i : ℕ) (self : MThread) (st : Store z Fields) (pool : Pool)
      → (act_of z ends Fields (team z m fuel) i own (at self running st pool)).place ≡ crashed
  unfolding act advance team
  running_lem i self st pool = rw (thread_run_faults z (m i).demo self st)

  pub test_lem :
      (i : ℕ) (self : MThread) (st : Store z Fields) (pool : Pool)
      → (entered (act_of z ends Fields (team z m fuel) i own (at self exit_test st pool)).place
          ≡ true)
        × (entered (act_of z ends Fields (team z m fuel) i own (at self run_test st pool)).place
            ≡ true)
        × (entered (act_of z ends Fields (team z m fuel) i own (at self sleeping st pool)).place
            ≡ true)
        × (entered (act_of z ends Fields (team z m fuel) i own (at self ended st pool)).place
            ≡ true)
  unfolding act advance
  test_lem i self st pool = (ground arith, ground arith, refl, refl)

  module _ (ids : (i j : ℕ) → i ≢ j → (m i).id ≢ (m j).id)
      (clients : (i j : ℕ) → i ≢ j → (m i).fresh ≢ (m j).fresh) where
    pub reached :
        (p q : Process z Fields)
        → p.pool ≡ []
        → ((i : ℕ) → (p.seats i).place ≡ entry)
        → Steps z ends Fields (team z m fuel) p q
        → IsSound z ends Fields (team z m fuel) (λ i. Fits (m i)) q
    reached =
        Steps-IsSound z ends Fields (team z m fuel) (λ i. Fits (m i))
          (team-IsConfined z m fuel ids clients)

    -- Let any number of thread objects of the demonstration, with ids and clients of their own, run in a
    -- process with an empty pool from their entries on, and let the fuel be more than the types that a
    -- thread and its target observe. Whatever the threads, ZeroMQ and the rest of the process have
    -- done and in whatever order, a thread that comes to handle_event has a client, and its step with
    -- no event in the socket only polls; with one, it prints the words of the target's class and the
    -- event's title, if that class observes the title, and after it those of the thread object's, if
    -- this one does (where the two have different addresses), and nothing else, and the client is as
    -- the poll has left it.
    pub Steps-joined :
        (i : ℕ) (p q : Process z Fields)
        → p.pool ≡ []
        → ((i : ℕ) → (p.seats i).place ≡ entry)
        → Steps z ends Fields (team z m fuel) p q
        → most_of (m i) < fuel
        → (q.seats i).place ≡ handling
        → (c : Client) × (q.clients (m i).fresh ≡ some c)
          × (let l' =
                poll z Fields (record { client = c; world = q.world; app = (q.seats i).app }) in
              let r = recv_event_entity z l'.client.sub_socket l'.world in
              ((l'.client.pollin ≡ false)
                × (move z ends Fields (team z m fuel) i own q
                    ≡ returned z ends Fields (team z m fuel) i l' q))
              ⊎ ((l'.client.pollin ≡ true)
                  × (move z ends Fields (team z m fuel) i own q
                      ≡ returned z ends Fields
                          (team z m fuel)
                          i
                          (prints
                            (texts (m i) r.0.title (rows_of (m i) r.0.title))
                            (record l' { world = r.1 }))
                          q)))
    unfolding team
    Steps-joined i p q none_yet fresh run enough here =
        let own_ = ((reached p q none_yet fresh run).ready i).settled (ap entered here) in
        let c = own_.attends.client in
        (
          c,
          own_.attends.here,
          elim (Handles_lem z ends Fields (team z m fuel) i (rows_of (m i)) c q
              (λ t type content l. refl) here own_.attends.here own_.attends.valid
              (omega (arith, own_.attends.fitting.few)) own_.attends.fitting.row) [
                | inl (off, e) ↦ inl (off, e)
                | inr (on, e) ↦ inr (
                  on,
                  e
                      ∙ ap (λ l. returned z ends Fields (team z m fuel) i l q)
                          (deliver_all-prints z m fuel i _ _ _ _),
                )
              ],
        )
