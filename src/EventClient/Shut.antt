-- ===== src/EventClient/Shut.antt =====
-- What the destructor of EventClient does to the two sockets, of which only one is connected to the
-- address that both disconnections name.
use event_bus_cpp.Prelude.{none, [], ◌∷◌, ◌≡◌, ◌≢◌, inl, inr, sym, ap, ◌∙◌, arith, refl, ℕ}
use event_bus_cpp.Prelude.Int.{pos}
use event_bus_cpp.Keys.{eq_of_compare_types}
use event_bus_cpp.Zmq.{Zmq, Documented, View, Socket, sub_kind, pub_kind, Bytes, remove_filter}
use event_bus_cpp.EventBus.Sockets.{Standing}
use event_bus_cpp.EventClient.Defs.{Client}
use event_bus_cpp.EventClient.Lifecycle.{Endpoints, destruct}

-- A socket is as it was.
pub record Same (t : Socket) (v v' : View) : Type 0 where
  pub same_kind : v'.kind t ≡ v.kind t
  pub same_bound : v'.bound t ≡ v.bound t
  pub same_connected : v'.connected t ≡ v.connected t

Same-trans : {t : Socket} {u v w : View} → Same t u v → Same t v w → Same t u w
Same-trans a b = record {
  same_kind = b.same_kind ∙ a.same_kind;
  same_bound = b.same_bound ∙ a.same_bound;
  same_connected = b.same_connected ∙ a.same_connected;
}

remove_other : (a b : Bytes) → b ≢ a → remove_filter a (b ∷ []) ≡ b ∷ []
unfolding remove_filter
remove_other a b ne = ground (arith, eq_of_compare_types b a)

module _ (z : Zmq) (d : Documented z) where
  open z use {World}
  open d use {view}

  disconnect-others :
      (s t : Socket) (a : Bytes) (w : World) → t ≢ s → Same t (view w) (view (z.disconnect s a w).1)
  disconnect-others s t a w ne = elim (d.disconnect_view s a w) [
    | inl (_, _, v) ↦ record {
      same_kind = ground arith;
      same_bound = ground arith;
      same_connected = ground arith;
    }
    | inr (_, _, _, v) ↦ record {
      same_kind = ground arith;
      same_bound = ground arith;
      same_connected = ground arith;
    }
  ]

  -- An address that the socket is not connected to: nothing but the error number changes.
  disconnect-missing :
      (s : Socket) (a : Bytes) (w : World)
      → remove_filter a ((view w).connected s) ≡ (view w).connected s
      → (e : ℕ) × (view (z.disconnect s a w).1 ≡ record (view w) { error = e })
  disconnect-missing s a w e = elim (d.disconnect_view s a w) [
    | inl (changed, _, _) ↦ absurd (changed e)
    | inr (_, n, _, v) ↦ (n, v)
  ]

  close-others : (s t : Socket) (w : World) → t ≢ s → Same t (view w) (view (z.close s w).1)
  close-others s t w ne = elim (d.shut_view s w) [
    | inl (_, v) ↦ record {
      same_kind = ground arith;
      same_bound = ground arith;
      same_connected = ground arith;
    }
    | inr (_, _, _, v) ↦ record {
      same_kind = ground arith;
      same_bound = ground arith;
      same_connected = ground arith;
    }
  ]

  close-own :
      (s : Socket) (w : World) → (z.close s w).0 ≡ pos 0 → (view (z.close s w).1).kind s ≡ none
  close-own s w ok = elim (d.shut_view s w) [ inl (_, v) ↦ ground arith | inr (_, _, rc, _) ↦ cc ]

  module _ (ends : Endpoints) where
    -- Let the SUB socket of a client be connected to the XPUB address alone and its PUB socket to the XSUB
    -- address alone, another one, and let ZeroMQ close every socket that it is asked to. Then the
    -- destructor's first disconnection changes nothing but the error number, so that the PUB socket is
    -- closed while it is still connected, before the SUB socket is disconnected and closed; in the
    -- end both sockets are closed, and every other one is as it was.
    pub destruct_disconnects :
        (c : Client) (t : Socket) (w : World)
        → Standing sub_kind c.sub_socket [] (ends.xpub_addr_port ∷ []) (view w)
        → Standing pub_kind c.pub_socket [] (ends.xsub_addr_port ∷ []) (view w)
        → ends.xsub_addr_port ≢ ends.xpub_addr_port
        → ((s : Socket) (u : World) → (z.close s u).0 ≡ pos 0)
        → t ≢ c.sub_socket
        → t ≢ c.pub_socket
        → let v = view (destruct z ends c w) in
          (w1 : World) × (e : ℕ) × (view w1 ≡ record (view w) { error = e })
          × ((view w1).connected c.pub_socket ≡ ends.xsub_addr_port ∷ [])
          × (destruct z ends c w
              ≡ (z.close c.sub_socket
                  (z.disconnect c.sub_socket ends.xpub_addr_port (z.close c.pub_socket w1).1).1).1)
          × (v.kind c.pub_socket ≡ none)
          × (v.kind c.sub_socket ≡ none)
          × Same t (view w) v
    unfolding destruct
    destruct_disconnects c t w sub pub_ ne closes not_sub not_pub =
        let s = c.sub_socket in
        let p = c.pub_socket in
        let a = ends.xpub_addr_port in
        let apart : p ≢ s = λ e. cc (sub.0, pub_.0, ap (view w).kind e) in
        let w1 : World = (z.disconnect p a w).1 in
        let w2 : World = (z.close p w1).1 in
        let w3 : World = (z.disconnect s a w2).1 in
        let w4 : World = (z.close s w3).1 in
        let later : (x : Socket) → x ≢ s → Same x (view w2) (view w4) =
          λ x other. Same-trans (disconnect-others s x a w2 other) (close-others s x w3 other) in
        let (n, same) =
          disconnect-missing p a w
            (ap (remove_filter a) pub_.2 ∙ remove_other a ends.xsub_addr_port ne ∙ sym pub_.2) in
        (
          w1,
          n,
          same,
          ap (λ (v : View). v.connected p) same ∙ pub_.2,
          refl,
          (later p apart).same_kind ∙ close-own p w1 (closes p w1),
          close-own s w3 (closes s w3),
          Same-trans (Same-trans (disconnect-others p t a w not_pub) (close-others p t w1 not_pub))
              (later t not_sub),
        )
