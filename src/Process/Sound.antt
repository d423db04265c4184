-- ===== src/Process/Sound.antt =====
-- What is true of a process whatever its threads do in whatever order.
use event_bus_cpp.Prelude.{
  ℕ, true, false, [], ◌≡◌, ◌≢◌, refl, sym, ap, ◌∙◌, subst, inl, inr, nat-cases,
}
use event_bus_cpp.Keys.{EventType}
use event_bus_cpp.Multimap.{Multimap}
use event_bus_cpp.Zmq.{Zmq}
use event_bus_cpp.ClientCenter.{find_client}
use event_bus_cpp.MThread.Exit.{entered}
use event_bus_cpp.ClientCenter.Laws.{IsSorted, register_client-IsSorted}
use event_bus_cpp.EventClient.Lifecycle.{Endpoints}
use event_bus_cpp.MThread.Loop.{entry, Action}
use event_bus_cpp.Process.{
  with_seat, Seat, Process, Program, thread_of, act_of, move, Step, thread, library, elsewhere,
  registers, Steps, stay, after,
}
use event_bus_cpp.Process.Untouched.{
  Untouched, update_here, update_there, elsewhere-Untouched, registers-Untouched,
}
use event_bus_cpp.Process.Confined.{IsConfined}
use event_bus_cpp.Process.Ready.{Ready}
use event_bus_cpp.Process.Turn.{act-Ready}

module _ (z : Zmq) (ends : Endpoints) (App : Type 0) (g : Program z App)
    (fits : ℕ → Multimap EventType → App → Type 0) where
  -- The pool is in order, and each thread has what belongs to its place.
  pub record IsSound (p : Process z App) : Type 0 where
    pub sorted : IsSorted p.pool
    pub ready : (i : ℕ) → Ready (g.ident i) (g.fresh i) (fits i) (thread_of z App i p)

  same_seat :
      (i : ℕ) (p q : Process z App) (s : Seat App)
      → q.clients (g.fresh i) ≡ p.clients (g.fresh i)
      → find_client (g.ident i) q.pool ≡ find_client (g.ident i) p.pool
      → Ready (g.ident i) (g.fresh i) (fits i) (with_seat z App s p)
      → Ready (g.ident i) (g.fresh i) (fits i) (with_seat z App s q)
  same_seat i p q s client pooled r = record {
    unpooled = λ e. pooled ∙ r.unpooled e;
    settled = λ e.
        let own = r.settled e in
        record {
          client_set = own.client_set;
          target_set = own.target_set;
          pooled = pooled ∙ own.pooled;
          attends = record {
            client = own.attends.client;
            here = client ∙ own.attends.here;
            valid = own.attends.valid;
            fitting = own.attends.fitting;
          };
        };
  }

  Untouched-Ready :
      (i : ℕ) (p q : Process z App)
      → Untouched g i p q
      → Ready (g.ident i) (g.fresh i) (fits i) (thread_of z App i p)
      → Ready (g.ident i) (g.fresh i) (fits i) (thread_of z App i q)
  Untouched-Ready i p q u r =
      subst (λ s. Ready (g.ident i) (g.fresh i) (fits i) (with_seat z App s q)) (sym u.seat)
        (same_seat i p q (p.seats i) u.client u.entry_ r)

  untouched_lem :
      (p q : Process z App)
      → IsSorted q.pool
      → ((i : ℕ) → Untouched g i p q)
      → IsSound p
      → IsSound q
  untouched_lem p q sorted u h = record {
    sorted = sorted;
    ready = λ i. Untouched-Ready i p q (u i) (h.ready i);
  }

  begun-IsSound :
      (p : Process z App) → p.pool ≡ [] → ((i : ℕ) → (p.seats i).place ≡ entry) → IsSound p
  unfolding find_client
  begun-IsSound p none_yet fresh = record {
    sorted = subst IsSorted (sym none_yet) tt;
    ready = λ i. record {
      unpooled = λ e. ap (find_client (g.ident i)) none_yet;
      settled = λ e. absurd (outside (sym (ap entered (fresh i)) ∙ e));
    };
  }
    where
      outside : false ≡ true → ⊥
      outside n = cc

  module _ (k : IsConfined g fits) where
    -- A step of one thread touches no other.
    pub move-Untouched :
        (i j : ℕ) (a : Action) (p : Process z App)
        → IsSound p
        → i ≢ j
        → Untouched g j p (move z ends App g i a p)
    unfolding move
    move-Untouched i j a p h ne =
        let left =
          (act-Ready z ends App g fits k i a (thread_of z App i p) h.sorted (h.ready i)).1 in
        record {
          seat = update_there p.seats i j _ ne;
          client = left.others (g.fresh j) (k.clients_differ j i (λ e. ne (sym e)));
          entry_ = left.other_ids (g.ident j) (k.ids_differ j i (λ e. ne (sym e)));
        }

    move-IsSound :
        (i : ℕ) (a : Action) (p : Process z App) → IsSound p → IsSound (move z ends App g i a p)
    unfolding move
    move-IsSound i a p h =
        let (ready, left) =
          act-Ready z ends App g fits k i a (thread_of z App i p) h.sorted (h.ready i) in
        let s = act_of z ends App g i a (thread_of z App i p) in
        let q = move z ends App g i a p in
        record {
          sorted = left.sorted;
          ready = λ j. elim (nat-cases i j) [
            | inl same ↦
                subst (λ j. Ready (g.ident j) (g.fresh j) (fits j) (thread_of z App j q)) same
                  (subst (λ seat. Ready (g.ident i) (g.fresh i) (fits i) (with_seat z App seat q))
                    (sym (update_here p.seats i _)) ready)
            | inr ne ↦ Untouched-Ready j p q (move-Untouched i j a p h ne) (h.ready j)
          ];
        }

    -- Every step keeps a process sound.
    pub Step-IsSound : (p q : Process z App) → Step z ends App g p q → IsSound p → IsSound q
    Step-IsSound p q (thread i a) h = move-IsSound i a p h
    Step-IsSound p q (library w) h =
        untouched_lem p q h.sorted (λ j. record { seat = refl; client = refl; entry_ = refl }) h
    Step-IsSound p q (elsewhere a c ne) h =
        untouched_lem p q h.sorted (λ j. elsewhere-Untouched g j a c p ne) h
    Step-IsSound p q (registers id a ne) h =
        untouched_lem p q (register_client-IsSorted id a p.pool h.sorted)
          (λ j. registers-Untouched g j id a p h.sorted ne) h

    -- Every process that comes from one whose threads have not begun, with an empty pool, is sound,
    -- whatever the threads, ZeroMQ and the rest of the process have done and in whatever order: the
    -- pool is sorted; a thread before its entry has no client in it; and of a thread that has entered and
    -- has not crashed, both pointers and the pool lead to the client that it has made, whose map is
    -- well formed, and what its class keeps of its observers and its objects holds. The code of each
    -- thread uses its own client and no other, and no two threads have the same id or make their
    -- clients at the same address.
    pub Steps-IsSound :
        (p q : Process z App)
        → p.pool ≡ []
        → ((i : ℕ) → (p.seats i).place ≡ entry)
        → Steps z ends App g p q
        → IsSound q
    Steps-IsSound p q none_yet fresh stay = begun-IsSound p none_yet fresh
    Steps-IsSound p q none_yet fresh (after {q = m} run s) =
        Step-IsSound m q s (Steps-IsSound p m none_yet fresh run)
