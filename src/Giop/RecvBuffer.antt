-- ===== src/Giop/RecvBuffer.antt =====
-- giop-recv-buffer.c: reading a message that has come in.
pub mod Reader
pub mod Demarshal
pub mod Safety
pub mod Encaps
pub mod Fields
pub mod At
pub mod Parts
pub mod Replies
pub mod Operation
pub mod Requests
pub mod OldRequests
pub mod RoundTrip
