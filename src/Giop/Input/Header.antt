-- ===== src/Giop/Input/Header.antt =====
-- giop_recv_msg_reading_body and alloc_buffer of giop-recv-buffer.c: a header has come in. The
-- allocator is a parameter: an address, or none when it fails.
use mate_corba.Prelude.{
  ℕ, ◌+◌, ◌%◌, ◌≤◌, ◌<◌, ◌≡◌, Bool, true, false, not, ◌&&◌, ◌==◌, ltb, leb, if◌then◌else◌, List, [],
  ◌∷◌, ◌++◌, length, take, replicate, Option, none, some, Endian, swap32,
}
use mate_corba.Giop.Types.{
  MsgHeader, Version, giop_1_0, giop_1_1, giop_1_2, giop_num_msg_types, giop_magic,
  conversion_needed,
}
use mate_corba.Giop.RecvBuffer.Reader.{Outcome, ok, bad, fault, RecvBuffer}

-- memcmp (a, b, 4), as far as whether it is zero.
unfoldable pub same_bytes : List ℕ → List ℕ → Bool
same_bytes [] [] = true
same_bytes [] (y ∷ ys) = false
same_bytes (x ∷ xs) [] = false
same_bytes (x ∷ xs) (y ∷ ys) = (x == y) && same_bytes xs ys

-- g_try_realloc: the old bytes as far as they fit, and bytes of no known value, here `junk`.
abbrev pub resize : ℕ → ℕ → List ℕ → List ℕ
resize junk size old = take size (old ++ replicate size junk)

-- alloc_buffer, with where the allocator puts the block. `left_to_read` is the size of the body.
-- An address that is not aligned to four fails the assertion.
unfoldable pub alloc_buffer : Option ℕ → ℕ → RecvBuffer → List ℕ → ℕ → Outcome RecvBuffer
alloc_buffer none junk buf old body_size = bad
alloc_buffer (some addr) junk buf old body_size =
    if addr % 4 == 0
    then ok (record buf {
      base = addr;
      memory = resize junk (body_size + 12) old;
      cur = addr + 12;
      end = addr + 12 + body_size;
    })
    else fault

-- The switch on the version's bytes.
unfoldable pub version_of : ℕ → ℕ → Option Version
version_of major minor =
    if not (major == 1)
    then none
    else if minor == 0
    then some giop_1_0
    else if minor == 1
    then some giop_1_1
    else if minor == 2
    then some giop_1_2
    else none

-- The size of the body in the host's order.
abbrev pub host_size : Endian → MsgHeader → ℕ
host_size host h = if conversion_needed host h.flags then swap32 h.message_size else h.message_size

-- giop_recv_msg_reading_body, with the limit on what an unauthorized peer may send.
unfoldable pub msg_reading_body : Endian → ℕ → Option ℕ → ℕ → Bool → RecvBuffer → Outcome RecvBuffer
msg_reading_body host limit place junk is_auth buf =
    let h = buf.msg_header in
    let size = host_size host h in
    if not (same_bytes h.magic giop_magic)
    then bad
    else if leb giop_num_msg_types h.message_type
    then bad
    else elim (version_of h.version_0 h.version_1) [
      | none ↦ bad
      | some v ↦
          if not is_auth && ltb limit size
          then bad
          else alloc_buffer place junk
              (record buf { giop_version = v; msg_header = record h { message_size = size } }) []
              size
    ]

-- What holds of a buffer whose body is about to be read: a header with the magic bytes, a type that
-- is known and a version that is, and memory for the whole body and the twelve bytes before it.
pub record IsReady (limit : ℕ) (is_auth : Bool) (host : Endian) (h : MsgHeader) (b : RecvBuffer)
    : Type 0 where
  pub magic : same_bytes h.magic giop_magic ≡ true
  pub typed : b.msg_header.message_type < giop_num_msg_types
  pub versioned : version_of h.version_0 h.version_1 ≡ some b.giop_version
  pub size : b.msg_header.message_size ≡ host_size host h
  pub limited : is_auth ≡ false → b.msg_header.message_size ≤ limit
  pub starts : b.cur ≡ b.base + 12
  pub ends : b.end ≡ b.base + length b.memory
  pub room : length b.memory ≡ b.msg_header.message_size + 12
