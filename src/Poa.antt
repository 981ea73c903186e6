-- ===== src/Poa.antt =====
-- The portable object adapter of src/orb/poa.
pub mod Manager
pub mod Collection
pub mod Lifecycle
pub mod Objects
pub mod Requests
