-- ===== src/Giop/Input.antt =====
-- giop-recv-buffer.c: what a connection does with its input: the header's checks, fragments, the
-- waiting callers.
pub mod Header
pub mod Checks
pub mod Fragments
pub mod Concat
pub mod Reassembly
pub mod Queue
pub mod Delivery
pub mod Reading
pub mod Arrival
pub mod Journey
