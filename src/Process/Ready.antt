-- ===== src/Process/Ready.antt =====
-- What a thread of a process has at each place of its loop, and which calls leave it with that.
use event_bus_cpp.Prelude.{ℕ, true, some, none, ◌≡◌, ◌≢◌, refl}
use event_bus_cpp.Keys.{type_order, EventType}
use event_bus_cpp.Multimap.{Multimap}
use event_bus_cpp.Zmq.{Zmq}
use event_bus_cpp.ClientCenter.{find_client}
use event_bus_cpp.ClientCenter.Laws.{IsSorted}
use event_bus_cpp.EventClient.Defs.{Outcome, done, fault, out_of_fuel}
use event_bus_cpp.EventClient.Kept.{IfDone}
use event_bus_cpp.EventTarget.{Store}
use event_bus_cpp.MThread.Loop.{Place, entry, Thread, arrive}
use event_bus_cpp.MThread.Exit.{entered}
use event_bus_cpp.Process.Confined.{Attended, Uses}

module _ {z : Zmq} {App : Type 0} (id a : ℕ) (fits : Multimap EventType → App → Type 0) where
  -- The thread has its client: both pointers and the pool lead to it.
  pub record Settled (s : Thread z App) : Type 0 where
    pub client_set : s.self.thread_client ≡ some a
    pub target_set : s.self.target.client ≡ some a
    pub pooled : find_client id s.pool ≡ some a
    pub attends : Attended a fits s.store

  -- Before its entry the thread has no client, and from then on it has one unless it has crashed.
  pub record Ready (s : Thread z App) : Type 0 where
    pub unpooled : s.place ≡ entry → find_client id s.pool ≡ none
    pub settled : entered s.place ≡ true → Settled s

  -- What other threads see of a step.
  pub record Leaves (s s' : Thread z App) : Type 0 where
    pub sorted : IsSorted s'.pool
    pub others : (b : ℕ) → b ≢ a → s'.store.clients b ≡ s.store.clients b
    pub other_ids : (k : ℕ) → k ≢ id → find_client k s'.pool ≡ find_client k s.pool

  pub arrive-Ready :
      (p : Place) (o : Outcome (Store z App)) (s : Thread z App)
      → p ≢ entry
      → IsSorted s.pool
      → s.self.thread_client ≡ some a
      → s.self.target.client ≡ some a
      → find_client id s.pool ≡ some a
      → IfDone (Uses a fits s.store) o
      → Ready (arrive z App p o s) × Leaves s (arrive z App p o s)
  arrive-Ready p (done st) s ne h c t f u = (
    record {
      unpooled = λ e. absurd (ne e);
      settled = λ e. record { client_set = c; target_set = t; pooled = f; attends = u.0 };
    },
    record { sorted = h; others = u.1; other_ids = λ k n. refl },
  )
  arrive-Ready p fault s ne h c t f u = (
    record { unpooled = λ e. cc; settled = λ e. cc },
    record { sorted = h; others = λ b n. refl; other_ids = λ k n. refl },
  )
  arrive-Ready p out_of_fuel s ne h c t f u = (
    record { unpooled = λ e. cc; settled = λ e. cc },
    record { sorted = h; others = λ b n. refl; other_ids = λ k n. refl },
  )
