-- ===== src/Giop/SendBuffer.antt =====
-- giop-send-buffer.c: the buffer that a message is marshalled into, and its operations.
--
-- A pointer into an indirect chunk is the chunk's index with an offset. The bytes of memory that
-- the caller owns go with its address, since the caller keeps them until the buffer is written.
pub mod Memory
pub mod Defs
pub mod Invariant
pub mod Put
pub mod Writes
pub mod Append
pub mod Pool
