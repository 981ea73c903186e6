-- ===== src/Examples.antt =====
-- The theorems at concrete inputs.
pub mod Sending
pub mod Receiving
pub mod Incoming
pub mod Adapters
pub mod Replies
pub mod Fragments
pub mod Journey
pub mod Values
pub mod Sequences
pub mod Objects
pub mod References
