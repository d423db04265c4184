-- ===== src/ClientCenter/Laws.antt =====
-- The pool as a finite map, and the end of its clients.
use event_bus_cpp.Prelude.{
  ℕ, Bool, true, false, Option, none, some, [], ◌∷◌, ◌==◌, if◌then◌else◌, ◌≡◌, ◌≢◌, ◌<◌, refl,
  arith, All,
}
use event_bus_cpp.ClientCenter.{Pool, Clients, register_client, find_client, delete_client, destroy}

-- Keys rise along the pool.
abbrev pub IsSorted : Pool → Type 0
IsSorted [] = Unit
IsSorted ((k, c) ∷ pool) = All (λ e. k < e.0) pool × IsSorted pool

find_client-above : (id : ℕ) (pool : Pool) → All (λ e. id < e.0) pool → find_client id pool ≡ none
unfolding find_client
find_client-above id [] h = refl
find_client-above id ((k, c) ∷ pool) h = ground (arith, find_client-above id pool h.1)

All-below : (j k : ℕ) (pool : Pool) → j < k → All (λ e. k < e.0) pool → All (λ e. j < e.0) pool
All-below j k [] h a = tt
All-below j k ((i, c) ∷ pool) h a = (omega arith, All-below j k pool h a.1)

-- The entry of the thread if there is one, and otherwise the new one.
abbrev pub or_else : Option ℕ → ℕ → Option ℕ
or_else none c = some c
or_else (some b) c = some b

abbrev is_none : Option ℕ → Bool
is_none none = true
is_none (some b) = false

-- In a sorted pool register_client adds the client exactly when its thread has none, which its
-- answer tells; the entries of all other threads, and one that the thread had, are found as
-- before.
pub find_client-register_client :
    (id client k : ℕ) (pool : Pool)
    → IsSorted pool
    → let r = register_client id client pool in
      (find_client k r.1
        ≡ (if id == k then or_else (find_client k pool) client else find_client k pool))
      × (r.0 ≡ is_none (find_client id pool))
unfolding register_client find_client
find_client-register_client id client k [] h = (ground arith, refl)
find_client-register_client id client k ((j, c) ∷ pool) h = ground (
  arith,
  find_client-register_client id client k pool h.1,
  find_client-above id pool,
  All-below id j pool,
)

register_client-All :
    (j id client : ℕ) (pool : Pool)
    → j < id
    → All (λ e. j < e.0) pool
    → All (λ e. j < e.0) (register_client id client pool).1
unfolding register_client
register_client-All j id client [] h a = (h, tt)
register_client-All j id client ((k, c) ∷ pool) h a =
    ground (arith, register_client-All j id client pool h a.1)

-- register_client keeps the pool in the order of the thread ids, with no id twice.
pub register_client-IsSorted :
    (id client : ℕ) (pool : Pool) → IsSorted pool → IsSorted (register_client id client pool).1
unfolding register_client
register_client-IsSorted id client [] h = (tt, tt)
register_client-IsSorted id client ((k, c) ∷ pool) h = ground (
  arith,
  register_client-IsSorted id client pool h.1,
  register_client-All k id client pool,
  All-below id k pool,
)

-- The destructor deletes each client once, when they are distinct and not deleted before.
abbrev pub Deletable : Pool → Clients → Type 0
Deletable [] live = Unit
Deletable ((k, c) ∷ pool) live = (live c ≡ true) × All (λ e. e.1 ≢ c) pool × Deletable pool live

abbrev pub holds : ℕ → Pool → Bool
holds a [] = false
holds a ((k, c) ∷ pool) = if c == a then true else holds a pool

Deletable-kill :
    (b : ℕ) (pool : Pool) (live : Clients)
    → All (λ e. e.1 ≢ b) pool
    → Deletable pool live
    → Deletable pool (λ a. if b == a then false else live a)
Deletable-kill b [] live n d = tt
Deletable-kill b ((k, c) ∷ pool) live n d =
    (ground (arith, n.0, d.0), d.1, Deletable-kill b pool live n.1 d.2)

holds-All : (b : ℕ) (pool : Pool) → All (λ e. e.1 ≢ b) pool → holds b pool ≡ false
holds-All b [] n = refl
holds-All b ((k, c) ∷ pool) n = ground (arith, n.0, holds-All b pool n.1)

-- With clients that are distinct and none of them deleted before, ~ClientCenter ends, and has deleted
-- the clients of the pool and no other.
pub destroy-Deletable :
    (pool : Pool) (live : Clients)
    → Deletable pool live
    → (live' : Clients) × (destroy pool live ≡ some live')
      × ((a : ℕ) → live' a ≡ (if holds a pool then false else live a))
unfolding destroy delete_client
destroy-Deletable [] live d = (live, refl, λ a. refl)
destroy-Deletable ((k, c) ∷ pool) live d =
    let killed : Clients = λ a. if c == a then false else live a in
    let (live', run, dead) = destroy-Deletable pool killed (Deletable-kill c pool live d.1 d.2) in
    (live', rw (destroy, delete_client, d.0) run, λ a. ground (arith, dead a, holds-All c pool d.1))

-- ~ClientCenter has no result when a client of the pool has been deleted before, as ~MThread does with
-- the client of its thread: it deletes that client a second time.
pub destroy_deleted :
    (pool : Pool) (live : Clients) (c : ℕ)
    → holds c pool ≡ true
    → live c ≡ false
    → destroy pool live ≡ none
unfolding destroy delete_client
destroy_deleted [] live c h dead = cc
destroy_deleted ((k, b) ∷ pool) live c h dead =
    ground (arith, destroy_deleted pool (λ a. if b == a then false else live a) c)
