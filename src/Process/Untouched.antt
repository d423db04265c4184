-- ===== src/Process/Untouched.antt =====
-- What a step of one thread leaves alone of the others.
use event_bus_cpp.Prelude.{ℕ, Option, ◌≡◌, ◌≢◌, refl, sym, arith}
use event_bus_cpp.Zmq.{Zmq, update}
use event_bus_cpp.ClientCenter.{find_client, register_client}
use event_bus_cpp.EventClient.Defs.{Client}
use event_bus_cpp.ClientCenter.Laws.{IsSorted, find_client-register_client}
use event_bus_cpp.Process.{Process, Program}

pub update_here {ℓ} : {A : Type ℓ} (f : ℕ → A) (a : ℕ) (x : A) → update f a x a ≡ x
update_here f a x = ground arith

pub update_there {ℓ} : {A : Type ℓ} (f : ℕ → A) (a b : ℕ) (x : A) → a ≢ b → update f a x b ≡ f b
update_there f a b x ne = ground arith

module _ {z : Zmq} {App : Type 0} (g : Program z App) where
  -- What a thread has stays while nobody touches its seat, its client and its entry of the pool.
  pub record Untouched (i : ℕ) (p q : Process z App) : Type 0 where
    pub seat : q.seats i ≡ p.seats i
    pub client : q.clients (g.fresh i) ≡ p.clients (g.fresh i)
    pub entry_ : find_client (g.ident i) q.pool ≡ find_client (g.ident i) p.pool

  pub elsewhere-Untouched :
      (j a : ℕ) (c : Option Client) (p : Process z App)
      → ((i : ℕ) → g.fresh i ≢ a)
      → Untouched j p (record p { clients = update p.clients a c })
  elsewhere-Untouched j a c p ne = record {
    seat = refl;
    client = update_there p.clients a (g.fresh j) c (λ e. ne j (sym e));
    entry_ = refl;
  }

  pub registers-Untouched :
      (j id a : ℕ) (p : Process z App)
      → IsSorted p.pool
      → ((i : ℕ) → g.ident i ≢ id)
      → Untouched j p (record p { pool = (register_client id a p.pool).1 })
  registers-Untouched j id a p h ne = record {
    seat = refl;
    client = refl;
    entry_ = ground (arith, find_client-register_client id a (g.ident j) p.pool h, ne j);
  }
