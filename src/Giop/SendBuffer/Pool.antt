-- ===== src/Giop/SendBuffer/Pool.antt =====
-- giop_send_buffer_use and giop_send_buffer_unuse: buffers are kept in a list for the next message.
use Prim.Native.Nat.{max}
use mate_corba.Prelude.{
  leb, not, ◌&&◌, ◌==◌, ℕ, zero, suc, ◌+◌, ◌*◌, ◌%◌, ◌≤◌, ◌≡◌, refl, ap, arith, List, [], ◌∷◌,
  length, take, replicate, All, u32_mod, Endian, Bool, true, false, ltb, if◌then◌else◌,
  length-take-le, length-replicate, Bool-cases, inl, inr,
}
use mate_corba.Giop.Types.{
  Version, MsgHeader, version_major, version_minor, giop_magic, flag_endianness, header_bytes,
}
use mate_corba.Giop.SendBuffer.Memory.{header, nowhere, same, IndirectChunk, SendBuffer, gather}
use mate_corba.Giop.SendBuffer.Defs.{giop_chunk_size, append_real}
use mate_corba.Giop.SendBuffer.Invariant.{IsChunk, IsValid}

-- A chunk as the pool keeps it: g_realloc to the usual size if it is larger.
abbrev shrink : IndirectChunk → IndirectChunk
shrink c =
    if ltb giop_chunk_size c.size
    then record { size = giop_chunk_size; bytes = take giop_chunk_size c.bytes }
    else c

abbrev shrink_used : ℕ → List IndirectChunk → List IndirectChunk
shrink_used zero cs = cs
shrink_used (suc n) [] = []
shrink_used (suc n) (c ∷ cs) = shrink c ∷ shrink_used n cs

-- giop_send_buffer_unuse: the buffer goes to the front of send_buffer_list.
unfoldable pub unuse : SendBuffer → List SendBuffer → List SendBuffer
unuse buf pool = record buf { indirects = shrink_used buf.num_indirects_used buf.indirects } ∷ pool

-- memset of a chunk, if wire data is blanked.
abbrev wipe : IndirectChunk → IndirectChunk
wipe c = record c { bytes = replicate c.size 0 }

abbrev wipe_used : ℕ → List IndirectChunk → List IndirectChunk
wipe_used zero cs = cs
wipe_used (suc n) [] = []
wipe_used (suc n) (c ∷ cs) = wipe c ∷ wipe_used n cs

-- A buffer from g_new0.
abbrev new_buffer : Endian → Version → SendBuffer
new_buffer host v = record {
  msg_header = record {
    magic = giop_magic;
    version_0 = 0;
    version_1 = 0;
    flags = flag_endianness host;
    message_type = 0;
    message_size = 0;
  };
  iovecs = [];
  num_alloced = 8;
  lastptr = nowhere;
  indirect = 0;
  indirect_left = 0;
  indirects = [];
  num_indirects_used = 0;
  giop_version = v;
  header_size = 0;
}

abbrev recycled : Bool → SendBuffer → SendBuffer
recycled blank buf = record buf {
  iovecs = [];
  indirect_left = 0;
  indirects = if blank then wipe_used buf.num_indirects_used buf.indirects else buf.indirects;
  num_indirects_used = 0;
}

abbrev versioned : Version → SendBuffer → SendBuffer
versioned v buf = record buf {
  msg_header = record buf.msg_header { version_0 = version_major v; version_1 = version_minor v };
  giop_version = v;
}

-- The part of giop_send_buffer_use that both ways share.
abbrev with_header : Version → SendBuffer → SendBuffer
with_header v buf =
    let b = append_real (versioned v buf) header 12 in
    record b { msg_header = record b.msg_header { message_size = 0 }; header_size = 12 }

-- giop_send_buffer_use. The version check of its first lines is the type of the argument.
unfoldable pub use_buffer : Endian → Bool → List SendBuffer → Version → SendBuffer × List SendBuffer
use_buffer host blank [] v = (with_header v (new_buffer host v), [])
use_buffer host blank (buf ∷ pool) v = (with_header v (recycled blank buf), pool)

-- What the pool promises of a buffer in it.
pub record IsPooled (host : Endian) (b : SendBuffer) : Type 0 where
  pub pooled_chunks : All IsChunk b.indirects
  pub pooled_magic : b.msg_header.magic ≡ giop_magic
  pub pooled_flags : b.msg_header.flags ≡ flag_endianness host

-- A buffer with a header and no body.
pub record Starts (host : Endian) (v : Version) (b : SendBuffer) : Type 0 where
  pub valid : IsValid b
  pub first : (h : MsgHeader) → gather host h b.indirects b.iovecs ≡ take 12 (header_bytes host h)
  pub no_body : b.msg_header.message_size ≡ 0
  pub size_of_header : b.header_size ≡ 12
  pub magic : b.msg_header.magic ≡ giop_magic
  pub flags : b.msg_header.flags ≡ flag_endianness host
  pub major : b.msg_header.version_0 ≡ version_major v
  pub minor : b.msg_header.version_1 ≡ version_minor v

shrink-IsChunk : (c : IndirectChunk) → IsChunk c → IsChunk (shrink c)
shrink-IsChunk c k = elim (Bool-cases (ltb giop_chunk_size c.size)) [
  | inl e ↦ rw e (omega arith, omega arith, length-take-le giop_chunk_size c.bytes)
  | inr e ↦ rw e k
]

shrink_used-IsChunk :
    (n : ℕ) (cs : List IndirectChunk) → All IsChunk cs → All IsChunk (shrink_used n cs)
shrink_used-IsChunk zero cs a = a
shrink_used-IsChunk (suc n) [] a = tt
shrink_used-IsChunk (suc n) (c ∷ cs) (k, a) = (shrink-IsChunk c k, shrink_used-IsChunk n cs a)

wipe_used-IsChunk :
    (n : ℕ) (cs : List IndirectChunk) → All IsChunk cs → All IsChunk (wipe_used n cs)
wipe_used-IsChunk zero cs a = a
wipe_used-IsChunk (suc n) [] a = tt
wipe_used-IsChunk (suc n) (c ∷ cs) (k, a) =
    ((k.0, k.1, omega (arith, length-replicate {0} {A = ℕ} c.size 0)), wipe_used-IsChunk n cs a)

shrink_used-length : (n : ℕ) (cs : List IndirectChunk) → length (shrink_used n cs) ≡ length cs
shrink_used-length zero cs = refl
shrink_used-length (suc n) [] = refl
shrink_used-length (suc n) (c ∷ cs) = ap suc (shrink_used-length n cs)

shrink_used-take :
    (n : ℕ) (cs : List IndirectChunk)
    → All (λ (c : IndirectChunk). c.size ≤ giop_chunk_size) (take n (shrink_used n cs))
shrink_used-take zero cs = tt
shrink_used-take (suc n) [] = tt
shrink_used-take (suc n) (c ∷ cs) = (
  elim (Bool-cases (ltb giop_chunk_size c.size)) [
    | inl e ↦ rw e (omega arith)
    | inr e ↦ rw e (ground arith)
  ],
  shrink_used-take n cs,
)

-- unuse of a well-formed buffer with the magic bytes and the host's flags puts it at the front
-- of the pool, fit for use, with as many chunks as it had, of which those that were used are no
-- longer than the usual size; the rest of the pool is as it was.
pub unuse-IsPooled :
    (host : Endian) (buf : SendBuffer) (pool : List SendBuffer)
    → IsValid buf
    → buf.msg_header.magic ≡ giop_magic
    → buf.msg_header.flags ≡ flag_endianness host
    → (kept : SendBuffer) × (unuse buf pool ≡ kept ∷ pool)
      × IsPooled host kept
      × (length kept.indirects ≡ length buf.indirects)
      × All
          (λ (c : IndirectChunk). c.size ≤ giop_chunk_size)
          (take buf.num_indirects_used kept.indirects)
unfolding unuse
unuse-IsPooled host buf pool v m f = (
  record buf { indirects = shrink_used buf.num_indirects_used buf.indirects },
  refl,
  record {
    pooled_chunks = shrink_used-IsChunk buf.num_indirects_used buf.indirects v.chunks;
    pooled_magic = m;
    pooled_flags = f;
  },
  shrink_used-length buf.num_indirects_used buf.indirects,
  shrink_used-take buf.num_indirects_used buf.indirects,
)

-- The header is the first entry.
header_only : SendBuffer → SendBuffer
header_only b = record b {
  iovecs = record { iov_base = header; iov_len = 12 } ∷ b.iovecs;
  num_alloced =
      if leb b.num_alloced (length b.iovecs) then max b.num_alloced 4 * 2 else b.num_alloced;
  msg_header = record b.msg_header { message_size = (b.msg_header.message_size + 12) % u32_mod };
  lastptr = nowhere;
}

append_real-header : (b : SendBuffer) → b.iovecs ≡ [] → append_real b header 12 ≡ header_only b
unfolding append_real header_only
append_real-header b e =
    let c : (not (length b.iovecs == 0) && same nowhere b.lastptr) ≡ false = rw e in rw c

with_header-Starts :
    (host : Endian) (v : Version) (b : SendBuffer)
    → b.iovecs ≡ []
    → b.indirect_left ≡ 0
    → b.num_indirects_used ≡ 0
    → IsPooled host b
    → Starts host v (with_header v b)
unfolding header_only
with_header-Starts host v b e l u p = rw (append_real-header (versioned v b) e) (record {
  valid = record {
    kept = rw e (tt, tt);
    last = refl;
    within = λ q. absurd (omega arith);
    room = λ q. absurd (omega arith);
    no_room = λ q. l;
    used = omega arith;
    chunks = p.pooled_chunks;
    array = ground (arith, ap length e);
    size = omega arith;
  };
  first = λ h. rw e;
  no_body = refl;
  size_of_header = refl;
  magic = p.pooled_magic;
  flags = p.pooled_flags;
  major = refl;
  minor = refl;
})

-- From a pool in which every buffer is fit for use, use_buffer gives a well-formed buffer of
-- the version asked for, with a header and no body, and leaves a pool in which every buffer is
-- fit for use.
pub use_buffer-Starts :
    (host : Endian) (blank : Bool) (pool : List SendBuffer) (v : Version)
    → All (IsPooled host) pool
    → Starts host v (use_buffer host blank pool v).0
      × All (IsPooled host) (use_buffer host blank pool v).1
unfolding use_buffer
use_buffer-Starts host blank [] v a = (
  with_header-Starts host v (new_buffer host v) refl refl refl
      (record { pooled_chunks = tt; pooled_magic = refl; pooled_flags = refl }),
  tt,
)
use_buffer-Starts host blank (buf ∷ pool) v (p, a) = (
  with_header-Starts host v (recycled blank buf) refl refl refl (record {
    pooled_chunks = wiped-IsChunk blank;
    pooled_magic = p.pooled_magic;
    pooled_flags = p.pooled_flags;
  }),
  a,
)
  where
    wiped-IsChunk :
        (d : Bool)
        → All IsChunk (if d then wipe_used buf.num_indirects_used buf.indirects else buf.indirects)
    wiped-IsChunk true = wipe_used-IsChunk buf.num_indirects_used buf.indirects p.pooled_chunks
    wiped-IsChunk false = p.pooled_chunks
