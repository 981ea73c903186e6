-- ===== src/Corbaloc.antt =====
-- References as corbaloc texts: src/orb/orb-core/corba-loc.c.
pub mod Texts
pub mod Parse
pub mod Print
pub mod Pieces
pub mod Tokens
pub mod RoundTrip
pub mod Several
