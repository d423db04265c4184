-- ===== src/ClientCenter.antt =====
-- ClientCenter.h and ClientCenter.cpp: which event client belongs to which thread. The recursive
-- mutex makes each operation one step.
pub mod Laws
use event_bus_cpp.Prelude.{
  ℕ, Bool, true, false, Option, none, some, List, [], ◌∷◌, ◌==◌, ltb, if◌then◌else◌,
}

-- std::map<thread::id, EventClient*>, in the order of its keys. Threads and clients are numbers.
abbrev pub Pool : Type 0
Pool = List (ℕ × ℕ)

-- ClientCenter::ClientCenter
unfoldable pub no_clients : Pool
no_clients = []

-- std::map::insert: an entry that is there stays, and the answer is whether one was added.
unfoldable pub register_client : ℕ → ℕ → Pool → Bool × Pool
register_client id client [] = (true, (id, client) ∷ [])
register_client id client ((k, c) ∷ pool) =
    let rest = register_client id client pool in
    if ltb id k
    then (true, (id, client) ∷ (k, c) ∷ pool)
    else if id == k
    then (false, (k, c) ∷ pool)
    else (rest.0, (k, c) ∷ rest.1)

-- `none` is NULL.
unfoldable pub find_client : ℕ → Pool → Option ℕ
find_client id [] = none
find_client id ((k, c) ∷ pool) = let rest = find_client id pool in if k == id then some c else rest

-- Which addresses hold a client that has not been deleted.
abbrev pub Clients : Type 0
Clients = ℕ → Bool

-- `delete client`; `none` for an address that holds no client any more.
unfoldable pub delete_client : ℕ → Clients → Option Clients
delete_client c live = if live c then some (λ a. if c == a then false else live a) else none

-- ~ClientCenter
unfoldable pub destroy : Pool → Clients → Option Clients
destroy [] live = some live
destroy ((k, c) ∷ pool) live = elim (delete_client c live) [
  | none ↦ none
  | some live' ↦ destroy pool live'
]
