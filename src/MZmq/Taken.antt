-- ===== src/MZmq/Taken.antt =====
-- One frame taken from a socket, and what a function that takes it leaves behind.
use event_bus_cpp.Prelude.{
  ℕ, Bool, true, false, List, [], ◌∷◌, length, ◌≡◌, ◌≢◌, ◌⊎◌, inl, inr, arith, refl, ◌==◌, ap, ◌∙◌,
  sym, subst,
}
use mathlib.Core.Path.{subst₃}
use event_bus_cpp.Prelude.Int.{ℤ, pos, negsuc}
use event_bus_cpp.Zmq.{Zmq, Documented, View, Frame, Socket, Bytes, update}
use event_bus_cpp.MZmq.Recv.{receive}

-- `q` is left waiting at `s`, and nothing else that the program relies on has changed.
pub record Consumed (s : Socket) (q : List Frame) (v v' : View) : Type 0 where
  pub waiting : v'.inbox s ≡ q
  pub others : (t : Socket) → t ≢ s → v'.inbox t ≡ v.inbox t
  pub same_outbox : v'.outbox ≡ v.outbox
  pub same_filters : v'.filters ≡ v.filters

Consumed-trans :
    {s : Socket} {p q : List Frame} {u v w : View}
    → Consumed s p u v
    → Consumed s q v w
    → Consumed s q u w
Consumed-trans a b = record {
  waiting = b.waiting;
  others = λ t h. b.others t h ∙ a.others t h;
  same_outbox = b.same_outbox ∙ a.same_outbox;
  same_filters = b.same_filters ∙ a.same_filters;
}

pub Consumed-quiet :
    (s : Socket) {v v' : View} (m : Bytes) (l : Bool) (e : ℕ) (q : List Frame)
    → v.inbox s ≡ q
    → v' ≡ record v { message = m; live = l; error = e }
    → Consumed s q v v'
Consumed-quiet s m l e q w h = record {
  waiting = ap (λ (x : View). x.inbox s) h ∙ w;
  others = λ t k. ap (λ (x : View). x.inbox t) h;
  same_outbox = ap (λ (x : View). x.outbox) h;
  same_filters = ap (λ (x : View). x.filters) h;
}

pub Consumed-frame :
    (s : Socket) {v v' : View} (b : Bytes) (m l : Bool) (q : List Frame)
    → v' ≡ record v { message = b; live = l; inbox = update v.inbox s q; more = update v.more s m }
    → Consumed s q v v'
Consumed-frame s b m l q h = record {
  waiting = ap (λ (x : View). x.inbox s) h ∙ ground arith;
  others = λ t k. ap (λ (x : View). x.inbox t) h ∙ ground arith;
  same_outbox = ap (λ (x : View). x.outbox) h;
  same_filters = ap (λ (x : View). x.filters) h;
}

nonempty : {f : Frame} {q : List Frame} → f ∷ q ≡ [] → ⊥
nonempty h = cc

same_frame {ℓ} :
    (P : Bytes → Bool → List Frame → Type ℓ) {b c : Bytes} {m n : Bool} {p q : List Frame}
    → (b, m) ∷ p ≡ (c, n) ∷ q
    → P b m p
    → P c n q
same_frame P {b} {c} {m} {n} {p} {q} h x = subst₃ P b≡c m≡n p≡q x
  where
    b≡c : b ≡ c
    b≡c = cc

    m≡n : m ≡ n
    m≡n = cc

    p≡q : p ≡ q
    p≡q = cc

module _ (z : Zmq) (d : Documented z) where
  open z use {World}
  open d use {view}

  -- A frame was taken: how many bytes, what the message holds, and whether more frames follow.
  pub record Took (s : Socket) (b : Bytes) (m : Bool) (q : List Frame) (w : World) (r : ℤ × World)
      : Type 0 where
    pub size : r.0 ≡ pos (length b)
    pub bytes : (view r.1).message ≡ b
    pub follows : (z.get_rcvmore s r.1).1 ≡ m
    pub rest : Consumed s q (view w) (view r.1)

  -- None was: the code is negative and errno tells whether the queue was empty.
  pub record Missed (s : Socket) (again : Bool) (w : World) (r : ℤ × World) : Type 0 where
    pub code : ℕ
    pub failed : r.0 ≡ negsuc code
    pub is_again : (z.get_errno r.1 == z.eagain) ≡ again
    pub rest : Consumed s ((view w).inbox s) (view w) (view r.1)

  receive_lem :
      (s : Socket) (w : World)
      → let r = receive z s w in
        ((b : Bytes) × (m : Bool) × (q : List Frame) × ((view w).inbox s ≡ (b, m) ∷ q)
          × Took s b m q w r)
        ⊎ (((view w).inbox s ≡ []) × Missed s true w r)
        ⊎ Missed s false w r
  unfolding receive
  receive_lem s w =
      let w1 : World = (z.msg_init w).1 in
      let r : ℤ × World = z.msg_recv s true w1 in
      elim (d.recv_view s w1 (ground (arith, d.init_view w))) [
        | inl (b, m, q, e, rc, v) ↦ inl (
          b,
          m,
          q,
          ground (arith, d.init_view w),
          record {
            size = rc;
            bytes = ground arith;
            follows = ground (arith, d.rcvmore_view s r.1);
            rest = Consumed-frame s b m true q (ground (arith, d.init_view w));
          },
        )
        | inr (inl (n, e, rc, v)) ↦ inr (
            inl (
              ground (arith, d.init_view w),
              record {
                code = n;
                failed = rc;
                is_again = ground (arith, d.errno_view r.1);
                rest = Consumed-quiet s [] true z.eagain _ refl (ground (arith, d.init_view w));
              },
            ))
        | inr (inr (n, e, ne, rc, v)) ↦ inr (
            inr (record {
              code = n;
              failed = rc;
              is_again = ground (arith, d.errno_view r.1);
              rest = Consumed-quiet s [] true e _ refl (ground (arith, d.init_view w));
            }))
      ]

  -- With a frame in front, that frame is taken or the call fails for another reason.
  pub receive-frame :
      (s : Socket) (w : World) (b : Bytes) (m : Bool) (q : List Frame)
      → (view w).inbox s ≡ (b, m) ∷ q
      → Took s b m q w (receive z s w) ⊎ Missed s false w (receive z s w)
  receive-frame s w b m q e = elim (receive_lem s w) [
    | inl (b', m', q', e', t) ↦
        inl (same_frame (λ c n p. Took s c n p w (receive z s w)) (sym e' ∙ e) t)
    | inr (inl (e', t)) ↦ absurd (nonempty (sym e ∙ e'))
    | inr (inr t) ↦ inr t
  ]

  -- With none, the call fails.
  pub receive-nil :
      (s : Socket) (w : World)
      → (view w).inbox s ≡ []
      → Missed s true w (receive z s w) ⊎ Missed s false w (receive z s w)
  receive-nil s w e = elim (receive_lem s w) [
    | inl (b, m, q, e', t) ↦ absurd (nonempty (sym e' ∙ e))
    | inr (inl (e', t)) ↦ inl t
    | inr (inr t) ↦ inr t
  ]

  -- The result is `x`, the frames `q` are left, and the message is closed.
  abbrev pub Returns : {A : Type 0} → Socket → List Frame → A → World → A × World → Type 0
  Returns s q x w r = (r.0 ≡ x) × Consumed s q (view w) (view r.1) × ((view r.1).live ≡ false)

  pub Returns-finish :
      {A : Type 0} (s : Socket) (q : List Frame) (x : A) (w w' : World)
      → Consumed s q (view w) (view w')
      → Returns s q x w (x, (z.msg_close w').1)
  Returns-finish s q x w w' c = (
    refl,
    Consumed-trans c (Consumed-quiet s [] false (view w').error q c.waiting (d.close_view w')),
    ap (λ (v : View). v.live) (d.close_view w'),
  )

  pub left :
      {s : Socket} {q : List Frame} {w w' : World}
      → (view w).inbox s ≡ q
      → Consumed s ((view w).inbox s) (view w) (view w')
      → Consumed s q (view w) (view w')
  left {s} {w} {w'} e c = subst (λ (x : List Frame). Consumed s x (view w) (view w')) e c

  pub Returns-after :
      {A : Type 0} {s : Socket} {p q : List Frame} {x : A} {w w' : World} {r : A × World}
      → Consumed s p (view w) (view w')
      → Returns s q x w' r
      → Returns s q x w r
  Returns-after c h = (h.0, Consumed-trans c h.1, h.2)

  -- The first frame is taken and its message closed.
  pub closed-Took :
      {s : Socket} {b : Bytes} {m : Bool} {q : List Frame} {w : World} {r : ℤ × World}
      → Took s b m q w r
      → Consumed s q (view w) (view (z.msg_close r.1).1)
  closed-Took {s} {q = q} {w = w} {r = r} t = (Returns-finish s q tt w r.1 t.rest).1

  pub title-Took :
      {s : Socket} {b : Bytes} {m : Bool} {q : List Frame} {w : World} {r : ℤ × World}
      → Took s b m q w r
      → z.msg_data (length b) r.1 ≡ b
  title-Took {r} t = subst (λ (x : Bytes). z.msg_data (length x) r.1 ≡ x) t.bytes (d.data_view r.1)
