-- ===== src/MThread/Ends.antt =====
-- The destructor of MThread beside that of the client center, which holds the same client.
use event_bus_cpp.Prelude.{
  ℕ, Bool, true, false, Option, none, some, ◌≡◌, refl, sym, Bool-cases, inl, inr, ◌∙◌, ap, arith,
}
use event_bus_cpp.ClientCenter.{Pool, Clients, delete_client, destroy}
use event_bus_cpp.ClientCenter.Laws.{holds, destroy_deleted}
use event_bus_cpp.MThread.{MThread, destruct}

-- Whether an address is alive after a deletion that may have failed.
abbrev alive_at : ℕ → Option Clients → Bool
alive_at c none = false
alive_at c (some live) = live c

delete_client-alive_at : (c : ℕ) (live : Clients) → alive_at c (delete_client c live) ≡ false
unfolding delete_client
delete_client-alive_at c live = elim (Bool-cases (live c)) [
  | inl live_c ↦ rw (live_c, delete_client) (ground arith)
  | inr dead_c ↦ rw (dead_c, delete_client) refl
]

-- After ~MThread of a thread whose client the client center holds, ~ClientCenter has no result: it
-- deletes that client a second time.
pub destroy-destruct :
    (t : MThread) (c : ℕ) (pool : Pool) (live live' : Clients)
    → t.thread_client ≡ some c
    → holds c pool ≡ true
    → destruct t live ≡ some live'
    → destroy pool live' ≡ none
unfolding destruct
destroy-destruct t c pool live live' e h d =
    let deleted : delete_client c live ≡ destruct t live = rw (e, destruct) refl in
    let dead : live' c ≡ false =
      sym (ap (alive_at c) (deleted ∙ d)) ∙ delete_client-alive_at c live in
    destroy_deleted pool live' c h dead
