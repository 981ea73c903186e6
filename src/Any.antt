-- ===== src/Any.antt =====
-- TypeCodes and the values that they describe: src/orb/orb-core/corba-any.c, with what it uses of
-- corba-typecode.c and include/matecorba/orb-core/corba-typecode.h.
pub mod Types
pub mod Unions
pub mod Words
pub mod Sequences
pub mod Marshal
pub mod Demarshal
pub mod Encode
pub mod Fronts
pub mod Forms
pub mod RoundTrip
