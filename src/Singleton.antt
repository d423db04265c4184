-- ===== src/Singleton.antt =====
-- Singleton.h: instance(), called by any number of threads in any order. Each access to `_instance`
-- and to the mutex is one atomic step, in one order that all threads see; what std::auto_ptr does
-- without that is not modelled.
pub mod Safety
pub mod Progress
use event_bus_cpp.Prelude.{ℕ, suc, ◌≡◌, Option, none, some}
use event_bus_cpp.Zmq.{update}

-- The static members, and how many objects have been made; an object is known by its number.
pub record Shared : Type 0 where
  pub instance_ : Option ℕ
  pub mutex : Option ℕ
  pub made : ℕ

-- Where a thread stands in instance().
pub data Pc : Type 0 where
  start : Pc  -- before the first test
  locking : Pc  -- before _mutex.lock()
  locked : Pc  -- before the second test
  creating : Pc  -- before _instance.reset(new T)
  unlocking : Pc  -- before _mutex.unlock()
  reading : Pc  -- before object = _instance.get()
  returned : Option ℕ → Pc

-- One step of the thread `i`.
pub data Move (i : ℕ) (m : Shared) : Pc → Shared → Pc → Type 0 where
  sees_null : m.instance_ ≡ none → Move i m start m locking
  sees_object : {o : ℕ} → m.instance_ ≡ some o → Move i m start m reading
  lock : m.mutex ≡ none → Move i m locking (record m { mutex = some i }) locked
  still_null : m.instance_ ≡ none → Move i m locked m creating
  now_object : {o : ℕ} → m.instance_ ≡ some o → Move i m locked m unlocking
  create : Move i m creating (record m { instance_ = some m.made; made = suc m.made }) unlocking
  unlock : Move i m unlocking (record m { mutex = none }) reading
  read : Move i m reading m (returned m.instance_)

pub record System : Type 0 where
  pub shared : Shared
  pub pc : ℕ → Pc

pub data Step (s : System) : System → Type 0 where
  pick :
      (i : ℕ) {m : Shared} {p : Pc}
      → Move i s.shared (s.pc i) m p
      → Step s (record { shared = m; pc = update s.pc i p })

abbrev pub init : System
init = record { shared = record { instance_ = none; mutex = none; made = 0 }; pc = λ i. start }

pub data Reach : System → Type 0 where
  begin : Reach init
  later : {s t : System} → Reach s → Step s t → Reach t
