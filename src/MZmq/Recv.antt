-- ===== src/MZmq/Recv.antt =====
-- MZmq.h: the functions that receive, and those on a socket alone.
use event_bus_cpp.Prelude.{
  ℕ, zero, suc, Bool, true, false, Option, none, some, List, [], ◌∷◌, ◌++◌, ◌==◌, if◌then◌else◌,
  length, ◌&&◌,
}
use event_bus_cpp.Prelude.Int.{ℤ, pos, negsuc, to_int}
use event_bus_cpp.Prelude.State.{State, ◌>>◌, pure}
use event_bus_cpp.Zmq.{Zmq, Socket, Bytes}

-- What a receiving function returns, and its two out parameters, which it clears first.
pub record Received : Type 0 where
  pub rc : ℤ
  pub title : Bytes
  pub content : Bytes

-- A message received whole.
abbrev pub whole : Bytes → Bytes → Received
whole title content = record { rc = pos (length content); title = title; content = content }

-- How RecvAllMessages ends; the lists are those it was given, with what it appended.
pub record Batch : Type 0 where
  pub rc : ℤ
  pub titles : List Bytes
  pub contents : List Bytes
  pub err_num : ℕ

-- What one turn of that loop finds; the numbers are errNum.
pub data Round : Type 0 where
  no_more : ℕ → Round
  broken : ℕ → Round
  got : (title content : Bytes) → Round

module _ (z : Zmq) where
  open z use {World, msg_init, msg_data, msg_size, msg_close, msg_recv, get_errno, get_rcvmore}

  -- zmq_msg_init and zmq_msg_recv, which stand together in every function below.
  unfoldable pub receive : Socket → State World ℤ
  receive s = do msg_init; msg_recv s true

  -- zmq_msg_close and return.
  abbrev pub finish : {A : Type 0} → A → World → A × World
  finish r w = (r, (msg_close w).1)

  abbrev pub nothing : ℤ → Bytes → Received
  nothing rc title = record { rc = rc; title = title; content = [] }

  -- The second frame of a message; `read` is how its bytes are taken out of the message.
  unfoldable pub recv_content : (ℕ → World → Bytes) → Socket → Bytes → World → Received × World
  recv_content read s title w =
      let r = receive s w in
      let failed = λ (n : ℕ). finish (nothing (negsuc n) title) r.1 in
      let done = λ (size : ℕ).
        finish (record { rc = pos size; title = title; content = read size r.1 }) r.1 in
      elim r.0 [ negsuc n ↦ failed n | pos size ↦ done size ]

  -- The body that RecvEventEntity and RecvMsgString share word for word, but for `read`.
  unfoldable pub recv_message : (ℕ → World → Bytes) → Socket → World → Received × World
  recv_message read s w =
      let r = receive s w in
      let untitled =
        if get_errno r.1 == z.eagain
        then finish (nothing (pos 0) []) r.1
        else finish (nothing (negsuc 0) []) r.1 in
      let titled = λ (title : Bytes).
        if (get_rcvmore s r.1).1
        then recv_content read s title (msg_close r.1).1
        else finish (nothing (negsuc 0) title) r.1 in
      elim r.0 [ negsuc n ↦ untitled | pos size ↦ titled (msg_data size r.1) ]

  -- RecvEventEntity
  unfoldable pub recv_event_entity : Socket → World → Received × World
  recv_event_entity = recv_message msg_data

  -- RecvMsgString
  unfoldable pub recv_msg_string : Socket → World → Received × World
  recv_msg_string = recv_message (λ n w. msg_data (msg_size w) w)

  abbrev batch : ℤ → List Bytes → List Bytes → ℕ → Batch
  batch rc titles contents err_num = record {
    rc = rc;
    titles = titles;
    contents = contents;
    err_num = err_num;
  }

  -- One turn of the loop of RecvAllMessages: its second frame, and the whole of it.
  unfoldable pub round_content : Socket → Bytes → World → Round × World
  round_content s title w =
      let r = receive s w in
      let failed = finish (broken (get_errno r.1)) r.1 in
      let done = λ (size : ℕ). finish (got title (msg_data size r.1)) r.1 in
      elim r.0 [ negsuc n ↦ failed | pos size ↦ done size ]

  unfoldable pub recv_round : Socket → World → Round × World
  recv_round s w =
      let r = receive s w in
      let err = get_errno r.1 in
      let untitled =
        if err == z.eagain then finish (no_more err) r.1 else finish (broken err) r.1 in
      let titled = λ (title : Bytes).
        if (get_rcvmore s r.1).1
        then round_content s title (msg_close r.1).1
        else finish (broken (get_errno r.1)) r.1 in
      elim r.0 [ negsuc n ↦ untitled | pos size ↦ titled (msg_data size r.1) ]

  -- RecvAllMessages, which returns a size_t as an int; `none` when the fuel runs out.
  unfoldable pub recv_all_messages :
      ℕ → Socket → List Bytes → List Bytes → World → Option (Batch × World)
  recv_all_messages zero s titles contents w = none
  recv_all_messages (suc fuel) s titles contents w =
      let r = recv_round s w in
      elim r.0 [
        | no_more err ↦ some (batch (to_int (length contents)) titles contents err, r.1)
        | broken err ↦ some (batch (negsuc 0) titles contents err, r.1)
        | got title content ↦
            recv_all_messages fuel s (titles ++ title ∷ []) (contents ++ content ∷ []) r.1
      ]

  -- HasMoreMsg
  unfoldable pub has_more_msg : Socket → World → Bool
  has_more_msg s w =
      let r = get_rcvmore s w in elim r.0 [ negsuc n ↦ false | pos n ↦ n == 0 && r.1 ]

  -- CloseSocketQuick: the socket that the pointer is left with.
  unfoldable pub close_socket_quick : Option Socket → State World (Option Socket)
  close_socket_quick none = pure none
  close_socket_quick (some s) = do z.set_linger s (pos 0); z.close s; pure none

  -- zmq_common_recv, which waits for a message: the code and the content.
  unfoldable pub zmq_common_recv : Socket → World → (ℤ × Bytes) × World
  zmq_common_recv s w =
      let r = msg_recv s false (msg_init w).1 in
      elim r.0 [
        | negsuc n ↦ finish (negsuc n, []) r.1
        | pos size ↦ finish (pos size, msg_data size r.1) r.1
      ]
