-- ===== src/Giop.antt =====
-- The General Inter-ORB Protocol: src/orb/GIOP and include/matecorba/GIOP.
pub mod Align
pub mod Types
pub mod SendBuffer
pub mod Messages
pub mod RecvBuffer
pub mod Input
