-- ===== src/EventBus/Sockets.antt =====
-- Where the sockets of the bus and of its clients are bound and connected.
use event_bus_cpp.Prelude.{
  ℕ, none, some, List, [], ◌∷◌, ◌≡◌, ◌≢◌, inl, inr, ap, subst, ◌∙◌, arith, Holds, Option-cases,
}
use event_bus_cpp.Zmq.{
  Zmq, Documented, View, Socket, SocketKind, xpub, xsub, sub_kind, pub_kind, Bytes,
}
use event_bus_cpp.EventBus.{EventBus, bind_socket, construct}
use event_bus_cpp.EventClient.Defs.{Client}
use event_bus_cpp.EventClient.Lifecycle.{Endpoints, open_socket, construct as construct_client}
use event_bus_cpp.ClientCenter.{Pool}

-- The socket `s` was not open and is now, with these addresses; the other sockets are as before.
pub record Opened (k : SocketKind) (s : Socket) (bound connected : List Bytes) (v v' : View)
    : Type 0 where
  pub fresh : v.kind s ≡ none
  pub kind_is : v'.kind s ≡ some k
  pub bound_is : v'.bound s ≡ bound
  pub connected_is : v'.connected s ≡ connected
  pub other_kinds : (t : Socket) → t ≢ s → v'.kind t ≡ v.kind t
  pub other_bounds : (t : Socket) → t ≢ s → v'.bound t ≡ v.bound t
  pub other_connections : (t : Socket) → t ≢ s → v'.connected t ≡ v.connected t

-- What a socket is.
abbrev pub Standing : SocketKind → Socket → List Bytes → List Bytes → View → Type 0
Standing k s bound connected v =
    (v.kind s ≡ some k) × (v.bound s ≡ bound) × (v.connected s ≡ connected)

Opened-Standing :
    {k : SocketKind} {s : Socket} {b c : List Bytes} {v v' : View}
    → Opened k s b c v v'
    → Standing k s b c v'
Opened-Standing o = (o.kind_is, o.bound_is, o.connected_is)

-- A socket that is open stays as it is when another is opened.
Standing-Opened :
    {k k' : SocketKind} {s t : Socket} {b b' c c' : List Bytes} {v v' : View}
    → Standing k t b c v
    → Opened k' s b' c' v v'
    → Standing k t b c v'
Standing-Opened {s} {t} {v} h o =
    (o.other_kinds t ne ∙ h.0, o.other_bounds t ne ∙ h.1, o.other_connections t ne ∙ h.2)
  where
    ne : t ≢ s
    ne e = cc (h.0, o.fresh, ap v.kind e)

module _ (z : Zmq) (d : Documented z) (ends : Endpoints) where
  open z use {World}
  open d use {view}

  bind_socket-Opened :
      (k : SocketKind) (a : Bytes) (w : World)
      → Holds
          (λ (r : Socket × World). Opened k r.0 (a ∷ []) [] (view w) (view r.1))
          (bind_socket z ends k a w)
  unfolding bind_socket
  bind_socket-Opened k a w =
      let w1 : World = (z.socket k w).1 in
      elim (d.socket_view k w) [
        | inr (e, refused, _) ↦ rw (refused, bind_socket) tt
        | inl (s, made, fresh, v) ↦ elim (d.bind_view s a w1) [
          | inr (n, e, rc, _) ↦ rw (made, rc, bind_socket) tt
          | inl (rc, v') ↦
              rw (made, rc, bind_socket)
                (record {
                  fresh = fresh;
                  kind_is = ground arith;
                  bound_is = ground arith;
                  connected_is = ground arith;
                  other_kinds = λ t ne. ground arith;
                  other_bounds = λ t ne. ground arith;
                  other_connections = λ t ne. ground arith;
                })
        ]
      ]

  open_socket-Opened :
      (k : SocketKind) (a : Bytes) (w : World)
      → Holds
          (λ (r : Socket × World). Opened k r.0 [] (a ∷ []) (view w) (view r.1))
          (open_socket z ends k a w)
  unfolding open_socket
  open_socket-Opened k a w =
      let w1 : World = (z.socket k w).1 in
      elim (d.socket_view k w) [
        | inr (e, refused, _) ↦ rw (refused, open_socket) tt
        | inl (s, made, fresh, v) ↦ elim (d.connect_view s a w1) [
          | inr (n, e, rc, _) ↦ rw (made, rc, open_socket) tt
          | inl (rc, v') ↦
              rw (made, rc, open_socket)
                (record {
                  fresh = fresh;
                  kind_is = ground arith;
                  bound_is = ground arith;
                  connected_is = ground arith;
                  other_kinds = λ t ne. ground arith;
                  other_bounds = λ t ne. ground arith;
                  other_connections = λ t ne. ground arith;
                })
        ]
      ]

  -- Two sockets opened one after the other.
  Pair :
      SocketKind
      → SocketKind
      → Socket
      → Socket
      → (a b : List Bytes) → (a' b' : List Bytes) → View
      → View
      → Type 0
  Pair k k' s s' b b' c c' v v' = (u : View) × Opened k s b c v u × Opened k' s' b' c' u v'

  construct-Pair :
      (w : World)
      → Holds
          (λ (r : EventBus × World).
            Pair xpub xsub r.0.xpub_socket r.0.xsub_socket
              (ends.xpub_addr_port ∷ [])
              (ends.xsub_addr_port ∷ [])
              []
              []
              (view w)
              (view r.1))
          (construct z ends w)
  unfolding construct Pair
  construct-Pair w = elim (Option-cases (bind_socket z ends xpub ends.xpub_addr_port w)) [
    | inl fails ↦ rw (fails, construct) tt
    | inr ((p, w1), first) ↦ elim (Option-cases (bind_socket z ends xsub ends.xsub_addr_port w1)) [
      | inl fails ↦ rw (first, fails, construct) tt
      | inr ((s, w2), second) ↦
          rw (first, second, construct)
            (
              view w1,
              subst (Holds _) first (bind_socket-Opened xpub ends.xpub_addr_port w),
              subst (Holds _) second (bind_socket-Opened xsub ends.xsub_addr_port w1),
            )
    ]
  ]

  construct_client-Pair :
      (id this : ℕ) (pool : Pool) (w : World)
      → Holds
          (λ (r : Client × Pool × World).
            Pair sub_kind pub_kind r.0.sub_socket r.0.pub_socket [] []
              (ends.xpub_addr_port ∷ [])
              (ends.xsub_addr_port ∷ [])
              (view w)
              (view r.2))
          (construct_client z ends id this pool w)
  unfolding construct_client Pair
  construct_client-Pair id this pool w =
      elim (Option-cases (open_socket z ends sub_kind ends.xpub_addr_port w)) [
        | inl fails ↦ rw (fails, construct_client) tt
        | inr ((p, w1), first) ↦
            elim (Option-cases (open_socket z ends pub_kind ends.xsub_addr_port w1)) [
              | inl fails ↦ rw (first, fails, construct_client) tt
              | inr ((s, w2), second) ↦
                  rw (first, second, construct_client)
                    (
                      view w1,
                      subst (Holds _) first (open_socket-Opened sub_kind ends.xpub_addr_port w),
                      subst (Holds _) second (open_socket-Opened pub_kind ends.xsub_addr_port w1),
                    )
            ]
      ]

  -- When the constructors of the bus and then of a client end, the client's SUB socket is connected to the
  -- address that the bus's XPUB socket is bound to, and its PUB socket to that of the XSUB socket, and
  -- each of the four is open with its kind and has no other address.
  pub construct-construct :
      (id this : ℕ) (pool pool' : Pool) (bus : EventBus) (c : Client) (w w1 w2 : World)
      → construct z ends w ≡ some (bus, w1)
      → construct_client z ends id this pool w1 ≡ some (c, pool', w2)
      → Standing xpub bus.xpub_socket (ends.xpub_addr_port ∷ []) [] (view w2)
        × Standing sub_kind c.sub_socket [] (ends.xpub_addr_port ∷ []) (view w2)
        × Standing xsub bus.xsub_socket (ends.xsub_addr_port ∷ []) [] (view w2)
        × Standing pub_kind c.pub_socket [] (ends.xsub_addr_port ∷ []) (view w2)
  unfolding Pair
  construct-construct id this pool pool' bus c w w1 w2 e e' =
      let (u, p, s) = subst (Holds _) e (construct-Pair w) in
      let (u', sub, pub_) = subst (Holds _) e' (construct_client-Pair id this pool w1) in
      (
        Standing-Opened (Standing-Opened (Standing-Opened (Opened-Standing p) s) sub) pub_,
        Standing-Opened (Opened-Standing sub) pub_,
        Standing-Opened (Standing-Opened (Opened-Standing s) sub) pub_,
        Opened-Standing pub_,
      )
