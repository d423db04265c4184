-- ===== src/MZmq/Send.antt =====
-- MZmq.h: the functions that send. `assert(s)` is met by every caller, since a socket that could not
-- be created stops the program earlier.
use event_bus_cpp.Prelude.{Bool, true, false, Option, none, some, [], ◌∷◌, if◌then◌else◌, length}
use event_bus_cpp.Prelude.Int.{ℤ, is_negative}
use event_bus_cpp.Prelude.State.{State, ◌>>=◌, ◌>>◌, pure}
use event_bus_cpp.Zmq.{Zmq, Socket, Bytes}

module _ (z : Zmq) where
  open z use {World, msg_init_size, msg_fill, msg_send, msg_close}

  -- zmq_msg_init_size, memcpy and zmq_msg_send, which stand together in every function below.
  unfoldable pub send_frame : Socket → Bytes → Bool → State World ℤ
  send_frame s bytes sndmore = do msg_init_size (length bytes); msg_fill bytes; msg_send s sndmore

  -- A frame of no bytes, where the source copies nothing.
  unfoldable pub send_blank : Socket → State World ℤ
  send_blank s = do msg_init_size 0; msg_send s false

  -- zmq_msg_close and return.
  unfoldable pub close_with : ℤ → State World ℤ
  close_with rc = do msg_close; pure rc

  -- The frame behind the title: the data, if the pointer is not null.
  unfoldable pub send_data : Socket → Option Bytes → State World ℤ
  send_data s (some bytes) = send_frame s bytes false
  send_data s none = send_blank s

  -- SendEventEntity. Both ways out of the last part close the message and return its code.
  unfoldable pub send_event_entity : Socket → Bytes → Option Bytes → State World ℤ
  send_event_entity s title bytes = do
    rc ← send_frame s title true
    if is_negative rc then close_with rc else do rc' ← send_data s bytes; close_with rc'

  -- The last frame of a text: a single zero byte stands for the empty one.
  unfoldable pub send_text : Socket → Bytes → State World ℤ
  send_text s [] = send_frame s (0 ∷ []) false
  send_text s (c ∷ cs) = send_frame s (c ∷ cs) false

  -- SendMsgStrings
  unfoldable pub send_msg_strings : Socket → Bytes → Bytes → State World ℤ
  send_msg_strings s title content = do
    rc ← send_frame s title true
    if is_negative rc then close_with rc else do rc' ← send_text s content; close_with rc'

  -- The middle frame of Send3PartStrings, which an empty text leaves out; `rc` is then unchanged.
  unfoldable pub send_middle : Socket → Bytes → ℤ → State World ℤ
  send_middle s [] rc = pure rc
  send_middle s (c ∷ cs) rc = send_frame s (c ∷ cs) true

  -- Send3PartStrings
  unfoldable pub send_3part_strings : Socket → Bytes → Bytes → Bytes → State World ℤ
  send_3part_strings s title title1 content = do
    rc ← send_frame s title true
    if is_negative rc then close_with rc else do
      rc' ← send_middle s title1 rc
      if is_negative rc' then close_with rc' else do rc'' ← send_text s content; close_with rc''

  -- zmq_common_send
  unfoldable pub zmq_common_send : Socket → Bytes → State World ℤ
  zmq_common_send s bytes = do rc ← send_frame s bytes false; close_with rc
