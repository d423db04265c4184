-- ===== src/Tests/Transport.antt =====
-- A ZeroMQ that meets `Documented`: its state is its view, and it has room for one socket of each kind.
-- `refuse` makes setting a filter fail.
use event_bus_cpp.Prelude.{
  Bool, true, false, some, List, [], ◌∷◌, ◌++◌, ◌≡◌, refl, ◌==◌, if◌then◌else◌, length, take,
  replicate, length-replicate, take-length, inl, inr, subst, sym, suc, Option, none, arith, ap,
}
use event_bus_cpp.Prelude.Int.{ℤ, pos, negsuc}
use event_bus_cpp.Keys.{compare_types, is_eq}
use event_bus_cpp.Zmq.{
  SocketKind, sub_kind, pub_kind, xpub, xsub, SocketOutcome, DisconnectOutcome, Zmq, Documented,
  View, Frame, Bytes, Socket, update, remove_filter, RecvOutcome, TakeOutcome, OptionOutcome,
}

abbrev take_frame : Socket → List Frame → View → ℤ × View
take_frame s [] v = (negsuc 0, record v { error = 11 })
take_frame s ((b, m) ∷ q) v =
    (pos (length b), record v { message = b; inbox = update v.inbox s q; more = update v.more s m })

abbrev has_frame : List Frame → Bool
has_frame [] = false
has_frame (f ∷ q) = true

abbrev set_filter : Bool → Socket → Bytes → View → ℤ × View
set_filter true s f v = (negsuc 0, record v { error = 22 })
set_filter false s f v = (pos 0, record v { filters = update v.filters s (f ∷ v.filters s) })

abbrev number : SocketKind → Socket
number sub_kind = 1
number pub_kind = 2
number xpub = 3
number xsub = 4

abbrev open_at : Socket → SocketKind → View → View
open_at s k v = record v {
  kind = update v.kind s (some k);
  bound = update v.bound s [];
  connected = update v.connected s [];
}

abbrev open_socket : SocketKind → Option SocketKind → View → Option Socket × View
open_socket k none v = (some (number k), open_at (number k) k v)
open_socket k (some _) v = (none, record v { error = 24 })

-- Whether the address is there.
abbrev has_address : Bytes → List Bytes → Bool
has_address a [] = false
has_address a (b ∷ bs) = if is_eq (compare_types b a) then true else has_address a bs

abbrev drop_address : Bool → Socket → Bytes → View → ℤ × View
drop_address true s a v =
    (pos 0, record v { connected = update v.connected s (remove_filter a (v.connected s)) })
drop_address false s a v = (negsuc 0, record v { error = 2 })

abbrev shut : Socket → View → View
shut s v = record v {
  kind = update v.kind s none;
  bound = update v.bound s [];
  connected = update v.connected s [];
}

abbrev pub transport : Bool → Zmq
transport refuse = record {
  World = View;
  msg_init = λ v. (tt, record v { message = []; live = true });
  msg_init_size = λ n v. (tt, record v { message = replicate n 0; live = true });
  msg_fill = λ b v. (tt, record v { message = b });
  msg_data = λ n v. take n v.message;
  msg_size = λ v. length v.message;
  msg_close = λ v. (tt, record v { message = []; live = false });
  msg_send = λ s m v. (
    pos (length v.message),
    record v { message = []; outbox = update v.outbox s (v.outbox s ++ (v.message, m) ∷ []) },
  );
  msg_recv = λ s wait v. take_frame s (v.inbox s) v;
  eagain = 11;
  get_errno = λ v. v.error;
  get_rcvmore = λ s v. (pos 0, v.more s);
  set_subscribe = set_filter refuse;
  set_unsubscribe =
      λ s f v. (pos 0, record v { filters = update v.filters s (remove_filter f (v.filters s)) });
  set_linger = λ s n v. (pos 0, v);
  poll_in = λ s t v. (some (has_frame (v.inbox s)), v);
  socket = λ k v. open_socket k (v.kind (number k)) v;
  bind = λ s a v. (pos 0, record v { bound = update v.bound s (a ∷ v.bound s) });
  connect = λ s a v. (pos 0, record v { connected = update v.connected s (a ∷ v.connected s) });
  disconnect = λ s a v. drop_address (has_address a (v.connected s)) s a v;
  close = λ s v. (pos 0, shut s v);
}

pub recv_lem :
    (s : Socket) (q : List Frame) (v : View)
    → v.inbox s ≡ q
    → RecvOutcome 11 s v (take_frame s q v).0 (take_frame s q v).1
recv_lem s [] v e = inr (inl (0, e, refl, refl))
recv_lem s ((b, m) ∷ q) v e = inl (b, m, q, e, refl, refl)

pub wait_lem :
    (s : Socket) (f : Frame) (p q : List Frame) (v : View)
    → p ≡ f ∷ q
    → TakeOutcome s f q v (take_frame s p v).0 (take_frame s p v).1
wait_lem s f p q v e =
    subst (λ (x : List Frame). TakeOutcome s f q v (take_frame s x v).0 (take_frame s x v).1)
      (sym e) (inl (refl, refl))

pub subscribe_lem :
    (refuse : Bool) (s : Socket) (f : Bytes) (v : View)
    → OptionOutcome v
        (record v { filters = update v.filters s (f ∷ v.filters s) })
        (set_filter refuse s f v).0
        (set_filter refuse s f v).1
subscribe_lem true s f v = inr (0, 22, refl, refl)
subscribe_lem false s f v = inl (refl, refl)

pub socket_lem :
    (k : SocketKind) (o : Option SocketKind) (v : View)
    → v.kind (number k) ≡ o
    → SocketOutcome k v (open_socket k o v).0 (open_socket k o v).1
socket_lem k none v e = inl (number k, refl, e, refl)
socket_lem k (some _) v e = inr (24, refl, refl)

length-remove_filter :
    (a : Bytes) (bs : List Bytes)
    → has_address a bs ≡ true
    → suc (length (remove_filter a bs)) ≡ length bs
unfolding remove_filter
length-remove_filter a [] h = cc
length-remove_filter a (b ∷ bs) h = ground (arith, length-remove_filter a bs)

pub disconnect_lem :
    (b : Bool) (s : Socket) (a : Bytes) (v : View)
    → has_address a (v.connected s) ≡ b
    → DisconnectOutcome s a v (drop_address b s a v).0 (drop_address b s a v).1
disconnect_lem true s a v e =
    inl
      (λ same. omega (arith, ap length same, length-remove_filter a (v.connected s) e), refl, refl)
disconnect_lem false s a v e = inr (0, 2, refl, refl)

unfoldable pub transport-Documented : (refuse : Bool) → Documented (transport refuse)
transport-Documented refuse = record {
  view = λ v. v;
  init_view = λ v. refl;
  init_size_view = λ n v. (replicate n 0, length-replicate n 0, refl);
  fill_view = λ b v h. refl;
  data_view = λ v. take-length v.message;
  size_view = λ v. refl;
  close_view = λ v. refl;
  send_view = λ s m v h. inl (refl, refl);
  recv_view = λ s v h. recv_lem s (v.inbox s) v refl;
  wait_view = λ s f q v h e. wait_lem s f (v.inbox s) q v e;
  errno_view = λ v. refl;
  rcvmore_view = λ s v. refl;
  subscribe_view = subscribe_lem refuse;
  unsubscribe_view = λ s f v. inl (refl, refl);
  socket_view = λ k v. socket_lem k (v.kind (number k)) v refl;
  bind_view = λ s a v. inl (refl, refl);
  connect_view = λ s a v. inl (refl, refl);
  disconnect_view = λ s a v. disconnect_lem (has_address a (v.connected s)) s a v refl;
  shut_view = λ s v. inl (refl, refl);
}

-- A fresh library, and one where an event waits at socket 1.
abbrev pub idle : View
idle = record {
  message = [];
  live = false;
  outbox = λ s. [];
  inbox = λ s. [];
  more = λ s. false;
  filters = λ s. [];
  error = 0;
  kind = λ s. none;
  bound = λ s. [];
  connected = λ s. [];
}

-- After a socket of the kind has been opened and bound, or connected, to an address.
abbrev pub with_bound : SocketKind → Bytes → View → View
with_bound k a v = ((transport false).bind (number k) a ((transport false).socket k v).1).1

abbrev pub with_connected : SocketKind → Bytes → View → View
with_connected k a v = ((transport false).connect (number k) a ((transport false).socket k v).1).1

-- Event "go" (two bytes) with content 7 8, as it waits at socket 1.
abbrev pub waiting : View
waiting = record idle {
  inbox = λ s. if s == 1 then (103 ∷ 111 ∷ [], true) ∷ (7 ∷ 8 ∷ [], false) ∷ [] else [];
}
