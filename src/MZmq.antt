-- ===== src/MZmq.antt =====
-- MZmq.h: messages of several frames over the message calls of ZeroMQ.
pub mod Send
pub mod Recv
pub mod Sent
pub mod Parts
pub mod Taken
pub mod Received
pub mod Batches
pub mod Roundtrip
pub mod Common
