-- ===== src/Tests/Threads.antt =====
-- The results on the singleton, the client center and the targets, at concrete states.
use event_bus_cpp.Prelude.{ℕ, true, false, Option, some, [], ◌∷◌, ◌≡◌, refl, arith, if◌then◌else◌}
use event_bus_cpp.Keys.{type_order}
use event_bus_cpp.Singleton.{
  System, locked, returned, Reach, begin, later, pick, sees_null, lock, still_null, create, unlock,
  read, locking,
}
use event_bus_cpp.Singleton.Safety.{instance_one_object}
use event_bus_cpp.Singleton.Progress.{Steps, instance_can_return}
use event_bus_cpp.ClientCenter.{Pool, Clients, destroy}
use event_bus_cpp.ClientCenter.Laws.{IsSorted, holds, destroy-Deletable}

-- Thread 0 runs instance() alone, up to its second test.
taken : (s : System) × Reach s × (s.pc 0 ≡ locked)
taken = (_, later (later begin (pick 0 (sees_null refl))) (pick 0 (lock refl)), refl)

-- And to its end.
complete : (s : System) × Reach s × (s.pc 0 ≡ returned (some 0)) × (s.shared.made ≡ 1)
complete = (
  _,
  later
      (later
        (later
          (later (later (later begin (pick 0 (sees_null refl))) (pick 0 (lock refl)))
            (pick 0 (still_null refl)))
          (pick 0 create))
        (pick 0 unlock))
      (pick 0 read),
  refl,
  refl,
)

instance_one_object_example :
    (◌≡◌ {A = Option ℕ} (some 0) (some 0)) × (complete.0.shared.instance_ ≡ some 0)
unfolding complete
instance_one_object_example = instance_one_object complete.1 0 (some 0) refl

-- Thread 1 then waits for the mutex.
waits : (s : System) × Reach s × (s.pc 1 ≡ locking)
unfolding taken
waits = (_, later taken.1 (pick 1 (sees_null refl)), refl)

instance_can_return_example : (t : System) × Steps waits.0 t × (t.pc 1 ≡ returned (some 0))
unfolding waits
instance_can_return_example = instance_can_return waits.1 1

-- Threads 3 and 7, with clients 30 and 70.
abbrev pool : Pool
pool = (3, 30) ∷ (7, 70) ∷ []

pool-IsSorted : IsSorted pool
pool-IsSorted = omega arith

abbrev all_live : Clients
all_live a = true

destroy-Deletable_example :
    (live' : Clients) × (destroy pool all_live ≡ some live')
    × ((a : ℕ) → live' a ≡ (if holds a pool then false else all_live a))
destroy-Deletable_example =
    destroy-Deletable pool all_live (refl, (omega arith, tt), (refl, tt, tt))
