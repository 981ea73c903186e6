-- ===== src/Giop/SendBuffer/Memory.antt =====
-- giop-send-buffer.h and the memory that struct iovec points to.
use mate_corba.Prelude.{
  ℕ, ◌+◌, Bool, false, ◌&&◌, List, [], ◌∷◌, ◌++◌, ◌==◌, take, drop, get_or, Endian,
}
use mate_corba.Giop.Types.{MsgHeader, Version, header_bytes}

-- Where an iov_base may point: the header inside the buffer, a field or a local variable with its
-- value, memory of the caller at an address with its contents, or an indirect chunk.
pub data Mem : Type 0 where
  header : Mem
  field : List ℕ → Mem
  outer : ℕ → List ℕ → Mem
  indirect : ℕ → ℕ → Mem

-- A pointer that is compared with another. A field is never compared equal: what is appended by
-- reference is longer than any field.
pub data Place : Type 0 where
  nowhere : Place
  outer_at : ℕ → Place
  indirect_at : ℕ → ℕ → Place

abbrev pub place : Mem → Place
place (outer a bs) = outer_at a
place (indirect c o) = indirect_at c o
place _ = nowhere

abbrev pub advance : Place → ℕ → Place
advance nowhere n = nowhere
advance (outer_at a) n = outer_at (a + n)
advance (indirect_at c o) n = indirect_at c (o + n)

abbrev pub same : Place → Place → Bool
same (outer_at a) (outer_at b) = a == b
same (indirect_at c o) (indirect_at d p) = c == d && o == p
same _ _ = false

-- struct iovec.
pub record IoVec : Type 0 where
  pub iov_base : Mem
  pub iov_len : ℕ

-- GIOPIndirectChunk: the allocated size, and what is known of the memory, from its start on.
pub record IndirectChunk : Type 0 where
  pub size : ℕ
  pub bytes : List ℕ

abbrev pub no_chunk : IndirectChunk
no_chunk = record { size = 0; bytes = [] }

-- struct _GIOPSendBuffer. `iovecs` holds the used part of the array, the newest first, so
-- num_used is its length; num_indirects_alloced is the length of `indirects`; `indirect` is the
-- offset in the chunk num_indirects_used - 1.
pub record SendBuffer : Type 0 where
  pub msg_header : MsgHeader
  pub iovecs : List IoVec
  pub num_alloced : ℕ
  pub lastptr : Place
  pub indirect : ℕ
  pub indirect_left : ℕ
  pub indirects : List IndirectChunk
  pub num_indirects_used : ℕ
  pub giop_version : Version
  pub header_size : ℕ

abbrev pub chunk_bytes : List IndirectChunk → ℕ → List ℕ
chunk_bytes chunks c = (get_or chunks c no_chunk).bytes

-- What writev reads from one base.
abbrev pub contents : Endian → MsgHeader → List IndirectChunk → Mem → List ℕ
contents host h chunks header = header_bytes host h
contents host h chunks (field bs) = bs
contents host h chunks (outer a bs) = bs
contents host h chunks (indirect c o) = drop o (chunk_bytes chunks c)

-- What writev sends for the whole vector; the newest entry comes last.
abbrev pub gather : Endian → MsgHeader → List IndirectChunk → List IoVec → List ℕ
gather host h chunks [] = []
gather host h chunks (v ∷ vs) =
    gather host h chunks vs ++ take v.iov_len (contents host h chunks v.iov_base)

unfoldable pub wire : Endian → SendBuffer → List ℕ
wire host b = gather host b.msg_header b.indirects b.iovecs
