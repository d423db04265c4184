-- ===== src/Zmq.antt =====
-- The ZeroMQ calls that the source makes (zmq/zmq.h). The library is not part of this program: its
-- state and its calls are parameters, and `Documented` says what its manual promises of them.
use event_bus_cpp.Prelude.{
  ℕ, ◌≡◌, ◌≢◌, ◌⊎◌, Bool, true, false, Option, none, some, List, [], ◌∷◌, ◌++◌, ◌==◌, if◌then◌else◌,
  length,
}
use event_bus_cpp.Keys.{compare_types, is_eq}
use event_bus_cpp.Prelude.Int.{ℤ, pos, negsuc}
use event_bus_cpp.Prelude.State.{State}

abbrev pub Bytes : Type 0
Bytes = List ℕ

-- A socket, by its address.
abbrev pub Socket : Type 0
Socket = ℕ

pub data SocketKind : Type 0 where
  xpub xsub sub_kind pub_kind : SocketKind

-- One frame on the wire, with its flag that more frames of the message follow.
abbrev pub Frame : Type 0
Frame = Bytes × Bool

-- The calls. A function of MZmq.h has one local zmq_msg_t; the message calls are about that one.
-- `msg_fill` is memcpy to zmq_msg_data, `msg_data n` the first `n` bytes found there. `poll_in` is
-- zmq_poll on one item: whether POLLIN is among its revents, or `none` when it failed and wrote none.
pub record Zmq : Type 1 where
  pub World : Type 0
  pub msg_init : State World (Unit {0})
  pub msg_init_size : ℕ → State World (Unit {0})
  pub msg_fill : Bytes → State World (Unit {0})
  pub msg_data : ℕ → World → Bytes
  pub msg_size : World → ℕ
  pub msg_close : State World (Unit {0})
  pub msg_send : Socket → (sndmore : Bool) → State World ℤ
  pub msg_recv : Socket → (dontwait : Bool) → State World ℤ
  pub eagain : ℕ
  pub get_errno : World → ℕ
  pub get_rcvmore : Socket → World → ℤ × Bool
  pub set_subscribe : Socket → Bytes → State World ℤ
  pub set_unsubscribe : Socket → Bytes → State World ℤ
  pub set_linger : Socket → ℤ → State World ℤ
  pub poll_in : Socket → (timeout : ℕ) → State World (Option Bool)
  pub socket : SocketKind → State World (Option Socket)
  pub bind : Socket → Bytes → State World ℤ
  pub connect : Socket → Bytes → State World ℤ
  pub disconnect : Socket → Bytes → State World ℤ
  pub close : Socket → State World ℤ

-- What a caller can see of the library: its local message and whether it is initialised, the frames
-- accepted and waiting at each socket, the RCVMORE flag, the filters of a SUB socket, errno, which
-- sockets are open, and the addresses that each is bound and connected to.
pub record View : Type 0 where
  pub message : Bytes
  pub live : Bool
  pub outbox : Socket → List Frame
  pub inbox : Socket → List Frame
  pub more : Socket → Bool
  pub filters : Socket → List Bytes
  pub error : ℕ
  pub kind : Socket → Option SocketKind
  pub bound : Socket → List Bytes
  pub connected : Socket → List Bytes

abbrev pub update {ℓ} : {A : Type ℓ} → (ℕ → A) → ℕ → A → ℕ → A
update f i a j = if i == j then a else f j

-- One filter less, of several equal ones; also one address less.
unfoldable pub remove_filter : Bytes → List Bytes → List Bytes
remove_filter f [] = []
remove_filter f (g ∷ gs) = if is_eq (compare_types g f) then gs else g ∷ remove_filter f gs

-- A call that fails sets errno and changes nothing else.
abbrev pub Failed : View → ℤ → View → Type 0
Failed v rc v' = (n : ℕ) × (e : ℕ) × (rc ≡ negsuc n) × (v' ≡ record v { error = e })

-- zmq_msg_send: the number of bytes, and the message is queued and emptied; or -1.
abbrev pub SendOutcome : Socket → Bool → View → ℤ → View → Type 0
SendOutcome s sndmore v rc v' =
    ((rc ≡ pos (length v.message))
      × (v' ≡ record v {
        message = [];
        outbox = update v.outbox s (v.outbox s ++ (v.message, sndmore) ∷ []);
      }))
    ⊎ Failed v rc v'

-- zmq_msg_recv with ZMQ_DONTWAIT: the next frame, EAGAIN when there is none, or another failure.
abbrev pub RecvOutcome : ℕ → Socket → View → ℤ → View → Type 0
RecvOutcome eagain s v rc v' =
    ((b : Bytes) × (m : Bool) × (q : List Frame) × (v.inbox s ≡ (b, m) ∷ q)
      × (rc ≡ pos (length b))
      × (v' ≡ record v { message = b; inbox = update v.inbox s q; more = update v.more s m }))
    ⊎ ((n : ℕ) × (v.inbox s ≡ []) × (rc ≡ negsuc n) × (v' ≡ record v { error = eagain }))
    ⊎ ((n : ℕ) × (e : ℕ) × (e ≢ eagain) × (rc ≡ negsuc n) × (v' ≡ record v { error = e }))

-- zmq_msg_recv that waits, where a frame is there: it takes that frame, or fails.
abbrev pub TakeOutcome : Socket → Frame → List Frame → View → ℤ → View → Type 0
TakeOutcome s f q v rc v' =
    ((rc ≡ pos (length f.0))
      × (v' ≡ record v { message = f.0; inbox = update v.inbox s q; more = update v.more s f.1 }))
    ⊎ Failed v rc v'

-- A failed attempt to set an option sets errno alone; success answers 0.
abbrev pub OptionOutcome : View → View → ℤ → View → Type 0
OptionOutcome v done rc v' = ((rc ≡ pos 0) × (v' ≡ done)) ⊎ Failed v rc v'

-- zmq_socket: a socket that was not open and stands alone, or NULL.
abbrev pub SocketOutcome : SocketKind → View → Option Socket → View → Type 0
SocketOutcome k v r v' =
    ((s : Socket) × (r ≡ some s)
      × (v.kind s ≡ none)
      × (v' ≡ record v {
        kind = update v.kind s (some k);
        bound = update v.bound s [];
        connected = update v.connected s [];
      }))
    ⊎ ((e : ℕ) × (r ≡ none) × (v' ≡ record v { error = e }))

-- zmq_disconnect succeeds only for an address that the socket is connected to.
abbrev pub DisconnectOutcome : Socket → Bytes → View → ℤ → View → Type 0
DisconnectOutcome s a v rc v' =
    ((remove_filter a (v.connected s) ≢ v.connected s)
      × (rc ≡ pos 0)
      × (v' ≡ record v { connected = update v.connected s (remove_filter a (v.connected s)) }))
    ⊎ Failed v rc v'

-- What the manual promises, as equations on the view.
pub record Documented (z : Zmq) : Type 0 where
  pub view : z.World → View
  pub init_view :
      (w : z.World) → view (z.msg_init w).1 ≡ record (view w) { message = []; live = true }
  pub init_size_view :
      (n : ℕ) (w : z.World)
      → (b : Bytes) × (length b ≡ n)
        × (view (z.msg_init_size n w).1 ≡ record (view w) { message = b; live = true })
  pub fill_view :
      (b : Bytes) (w : z.World)
      → length b ≡ length (view w).message
      → view (z.msg_fill b w).1 ≡ record (view w) { message = b }
  pub data_view : (w : z.World) → z.msg_data (length (view w).message) w ≡ (view w).message
  pub size_view : (w : z.World) → z.msg_size w ≡ length (view w).message
  pub close_view :
      (w : z.World) → view (z.msg_close w).1 ≡ record (view w) { message = []; live = false }
  pub send_view :
      (s : Socket) (sndmore : Bool) (w : z.World)
      → (view w).live ≡ true
      → SendOutcome s sndmore (view w) (z.msg_send s sndmore w).0 (view (z.msg_send s sndmore w).1)
  pub recv_view :
      (s : Socket) (w : z.World)
      → (view w).live ≡ true
      → RecvOutcome z.eagain s (view w) (z.msg_recv s true w).0 (view (z.msg_recv s true w).1)
  pub wait_view :
      (s : Socket) (f : Frame) (q : List Frame) (w : z.World)
      → (view w).live ≡ true
      → (view w).inbox s ≡ f ∷ q
      → let r = z.msg_recv s false w in TakeOutcome s f q (view w) r.0 (view r.1)
  pub errno_view : (w : z.World) → z.get_errno w ≡ (view w).error
  pub rcvmore_view : (s : Socket) (w : z.World) → z.get_rcvmore s w ≡ (pos 0, (view w).more s)
  pub subscribe_view :
      (s : Socket) (f : Bytes) (w : z.World)
      → let r = z.set_subscribe s f w in
        OptionOutcome
          (view w)
          (record (view w) { filters = update (view w).filters s (f ∷ (view w).filters s) })
          r.0
          (view r.1)
  pub unsubscribe_view :
      (s : Socket) (f : Bytes) (w : z.World)
      → let r = z.set_unsubscribe s f w in
        OptionOutcome
          (view w)
          (record (view w) {
            filters = update (view w).filters s (remove_filter f ((view w).filters s));
          })
          r.0
          (view r.1)
  pub socket_view :
      (k : SocketKind) (w : z.World)
      → SocketOutcome k (view w) (z.socket k w).0 (view (z.socket k w).1)
  pub bind_view :
      (s : Socket) (a : Bytes) (w : z.World)
      → let r = z.bind s a w in
        OptionOutcome
          (view w)
          (record (view w) { bound = update (view w).bound s (a ∷ (view w).bound s) })
          r.0
          (view r.1)
  pub connect_view :
      (s : Socket) (a : Bytes) (w : z.World)
      → let r = z.connect s a w in
        OptionOutcome
          (view w)
          (record (view w) { connected = update (view w).connected s (a ∷ (view w).connected s) })
          r.0
          (view r.1)
  pub disconnect_view :
      (s : Socket) (a : Bytes) (w : z.World)
      → let r = z.disconnect s a w in DisconnectOutcome s a (view w) r.0 (view r.1)
  pub shut_view :
      (s : Socket) (w : z.World)
      → let r = z.close s w in
        OptionOutcome
          (view w)
          (record (view w) {
            kind = update (view w).kind s none;
            bound = update (view w).bound s [];
            connected = update (view w).connected s [];
          })
          r.0
          (view r.1)
