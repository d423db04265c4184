-- ===== src/EventTarget/Constructed.antt =====
-- What a client's constructor means for the targets of its thread.
use event_bus_cpp.Prelude.{
  ℕ, [], none, some, Option, Option-cases, inl, inr, ◌==◌, if◌then◌else◌, ◌≡◌, refl, false, sym,
  ◌∙◌, ap, subst,
}
use event_bus_cpp.Keys.{EventType, type_order}
use event_bus_cpp.Zmq.{Zmq, sub_kind, pub_kind, Socket}
use event_bus_cpp.Multimap.{Multimap, empty}
use event_bus_cpp.ClientCenter.{Pool, register_client, find_client}
use event_bus_cpp.ClientCenter.Laws.{
  IsSorted, register_client-IsSorted, find_client-register_client, or_else,
}
use event_bus_cpp.EventClient.Defs.{Client}
use event_bus_cpp.EventClient.Lifecycle.{Endpoints, construct, open_socket}
use event_bus_cpp.EventTarget.{new_target}

abbrev made_pool {ℓ} : {W : Type ℓ} → Option (Client × Pool × W) → Pool
made_pool none = []
made_pool (some r) = r.1

abbrev made_map {ℓ} : {W : Type ℓ} → Option (Client × Pool × W) → Multimap EventType
made_map none = empty
made_map (some r) = r.0.event_object_map

module _ (z : Zmq) (ends : Endpoints) where
  open z use {World}
  open ends use {xsub_addr_port, xpub_addr_port}

  pub construct_lem :
      (id this : ℕ) (pool pool' : Pool) (c : Client) (w w' : World)
      → construct z ends id this pool w ≡ some (c, pool', w')
      → (pool' ≡ (register_client id this pool).1) × (c.event_object_map ≡ empty)
  unfolding construct
  construct_lem id this pool pool' c w w' e =
      elim (Option-cases (open_socket z ends sub_kind xpub_addr_port w)) [
        | inl fails ↦ absurd (failed (rw (fails, construct) refl))
        | inr ((sub, w1), opens) ↦
            elim (Option-cases (open_socket z ends pub_kind xsub_addr_port w1)) [
              | inl fails ↦ absurd (failed (rw (opens, fails, construct) refl))
              | inr ((pub_, w2), connects) ↦
                  found sub pub_ w2 (rw (opens, connects, construct) refl)
            ]
      ]
    where
      failed : construct z ends id this pool w ≡ none → ⊥
      failed n = cc

      found :
          (sub pub_ : Socket) (w2 : World)
          → construct z ends id this pool w
            ≡ some (
              record {
                event_object_map = empty;
                sub_socket = sub;
                pub_socket = pub_;
                pollin = false;
              },
              (register_client id this pool).1,
              w2,
            )
          → (pool' ≡ (register_client id this pool).1) × (c.event_object_map ≡ empty)
      found sub pub_ w2 n = (ap (λ r. made_pool r) (sym e ∙ n), ap (λ r. made_map r) (sym e ∙ n))

  -- When the constructor of a client ends in a thread, with a sorted pool, every target
  -- constructed there afterwards is attached to the thread's first client, which is the new one
  -- if there was none before; targets of other threads are attached as before. The new client
  -- observes nothing, and the pool stays sorted.
  pub new_target-construct :
      (id this k : ℕ) (pool pool' : Pool) (c : Client) (w w' : World)
      → IsSorted pool
      → construct z ends id this pool w ≡ some (c, pool', w')
      → ((new_target k pool').client
          ≡ (if id == k then or_else (find_client k pool) this else find_client k pool))
        × (c.event_object_map ≡ empty)
        × IsSorted pool'
  unfolding new_target
  new_target-construct id this k pool pool' c w w' h e =
      let (same, nothing) = construct_lem id this pool pool' c w w' e in
      (
        ap (find_client k) same ∙ (find_client-register_client id this k pool h).0,
        nothing,
        subst IsSorted (sym same) (register_client-IsSorted id this pool h),
      )
