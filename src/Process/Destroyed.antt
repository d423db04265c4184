-- ===== src/Process/Destroyed.antt =====
-- The destructors in a process of many threads: ~MThread, ~EventClient and ~ClientCenter.
use event_bus_cpp.Prelude.{
  ℕ, true, Option, none, some, [], ◌∷◌, ◌≡◌, ◌≢◌, refl, sym, ap, ◌∙◌, inl, inr, Option-cases, arith,
}
use event_bus_cpp.Keys.{EventType}
use event_bus_cpp.Multimap.{Multimap}
use event_bus_cpp.Zmq.{Zmq, update}
use event_bus_cpp.ClientCenter.{Pool, find_client}
use event_bus_cpp.ClientCenter.Laws.{holds}
use event_bus_cpp.EventClient.Defs.{Client, fault, handle_event}
use event_bus_cpp.EventClient.Lifecycle.{Endpoints, destruct}
use event_bus_cpp.EventTarget.{tell_client}
use event_bus_cpp.MThread.Exit.{entered}
use event_bus_cpp.Process.{Process, Program, thread_of}
use event_bus_cpp.Process.Confined.{IsConfined}
use event_bus_cpp.Process.Sound.{IsSound}
use event_bus_cpp.Process.Untouched.{Untouched, update_here, update_there}

module _ (z : Zmq) (ends : Endpoints) (App : Type 0) where
  -- `delete client`; `none` where no client stands any more.
  unfoldable pub delete_at : ℕ → Process z App → Option (Process z App)
  delete_at a p = elim (p.clients a) [
    | none ↦ none
    | some c ↦
        some (record p { clients = update p.clients a none; world = destruct z ends c p.world })
  ]

  -- ~MThread of the thread's object; deleting NULL does nothing.
  unfoldable pub destroy_thread : ℕ → Process z App → Option (Process z App)
  destroy_thread i p = elim (p.seats i).self.thread_client [
    | none ↦ some p
    | some a ↦ delete_at a p
  ]

  -- ~ClientCenter
  unfoldable pub destroy_center : Pool → Process z App → Option (Process z App)
  destroy_center [] p = some p
  destroy_center ((k, a) ∷ pool) p = elim (delete_at a p) [
    | none ↦ none
    | some p' ↦ destroy_center pool p'
  ]

  find_client-holds : (id a : ℕ) (pool : Pool) → find_client id pool ≡ some a → holds a pool ≡ true
  unfolding find_client
  find_client-holds id a [] h = cc
  find_client-holds id a ((k, c) ∷ pool) h = ground (arith, find_client-holds id a pool)

  alive :
      (a b : ℕ) (clients : ℕ → Option Client) (c : Client)
      → clients b ≡ some c
      → clients a ≡ none
      → b ≢ a
  alive a b clients c e gone same = none-ne-some (sym gone ∙ ap clients (sym same) ∙ e)
    where
      none-ne-some : none ≡ some c → ⊥
      none-ne-some n = cc

  destroy_center-none :
      (a : ℕ) (pool : Pool) (p : Process z App)
      → holds a pool ≡ true
      → p.clients a ≡ none
      → destroy_center pool p ≡ none
  unfolding destroy_center delete_at
  destroy_center-none a [] p h gone = cc
  destroy_center-none a ((k, b) ∷ pool) p h gone = elim (Option-cases (p.clients b)) [
    | inl e ↦ rw (e, destroy_center) refl
    | inr (c, e) ↦
        let p' : Process z App = record p {
          clients = update p.clients b none;
          world = destruct z ends c p.world;
        } in
        rw (e, destroy_center)
          (destroy_center-none a pool p' (ground (arith, alive a b p.clients c e gone))
            (ground arith))
  ]

  deletes_own :
      (i : ℕ) (q : Process z App) (a : ℕ)
      → (q.seats i).self.thread_client ≡ some a
      → destroy_thread i q ≡ delete_at a q
  unfolding destroy_thread
  deletes_own i q a e = rw (e, destroy_thread) refl

  delete_lem :
      (a : ℕ) (c : Client) (q : Process z App)
      → q.clients a ≡ some c
      → delete_at a q
        ≡ some (record q { clients = update q.clients a none; world = destruct z ends c q.world })
  unfolding delete_at
  delete_lem a c q e = rw (e, delete_at) refl

module _ (z : Zmq) (ends : Endpoints) (App : Type 0) (g : Program z App)
    (fits : ℕ → Multimap EventType → App → Type 0) (k : IsConfined g fits) where
  -- In a sound process, ~MThread of a thread that has entered and not crashed deletes its client, and leaves
  -- the seats, the clients and the entries of all other threads alone. It takes the client neither
  -- out of the pool nor from the thread: ~ClientCenter then has no result, since it deletes the client
  -- again, nor has a handle_event of the thread. The code of each thread uses its own client and no
  -- other.
  pub destroy_thread-destroy_center :
      (i : ℕ) (q : Process z App)
      → IsSound z ends App g fits q
      → entered (q.seats i).place ≡ true
      → (q' : Process z App) × (destroy_thread z ends App i q ≡ some q')
        × ((j : ℕ) → i ≢ j → Untouched g j q q')
        × (destroy_center z ends App q'.pool q' ≡ none)
        × (tell_client z App
              (g.fresh i)
              (handle_event z App (g.event_handle i) (g.fuel i))
              (thread_of z App i q').store
            ≡ fault)
  unfolding tell_client
  destroy_thread-destroy_center i q h inside =
      let own_ = (h.ready i).settled inside in
      let a = g.fresh i in
      let q' : Process z App = record q {
        clients = update q.clients a none;
        world = destruct z ends own_.attends.client q.world;
      } in
      let gone : q'.clients a ≡ none = update_here q.clients a none in
      (
        q',
        deletes_own z ends App i q a own_.client_set
            ∙ delete_lem z ends App a own_.attends.client q own_.attends.here,
        λ j ne. record {
          seat = refl;
          client = update_there q.clients a (g.fresh j) none (k.clients_differ i j ne);
          entry_ = refl;
        },
        destroy_center-none z ends App a q'.pool q'
            (find_client-holds z ends App (g.ident i) a q.pool own_.pooled) gone,
        rw (gone, tell_client) refl,
      )
